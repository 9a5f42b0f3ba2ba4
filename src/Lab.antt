-- ===== src/Lab.antt =====
-- executor/lab.go: isolated labs, each with a network and a target container.
pub mod Left
mod Examples
use modigo_runner.Base.{
  ℤ, ◌+ℤ◌, pos, Bool, false, List, [], ◌∷◌, ◌++◌, Option, none, some, Text, codes, to_lower, one_of,
  is_empty, ltb_ℤ, if◌then◌else◌, Result, ok, err, errorf,
}
use modigo_runner.Docker.{switch}
use modigo_runner.Docker.Calls.{
  Trace, ContainerConfig, HostConfig, create, start, remove, cancel, create_network, connect,
  remove_network,
}

-- `target_type` is the field `Type`.
pub record LabTarget : Type 0 where
  pub target_type : Text
  pub image : Text
  pub port : ℤ
  pub env : List Text

-- The times are in nanoseconds.
pub record LabSession : Type 0 where
  pub session_id : Text
  pub network_id : Text
  pub student_id : Text
  pub target_ids : List Text
  pub target_hostname : Text
  pub expires_at : ℤ

-- `networkCount` is never read or written.
pub record LabManager : Type 0 where
  pub image_prefix : Text

-- What the daemon answers to `StartLab`, and the time it is.
pub record LabAnswers : Type 0 where
  pub create_network : Result Text
  pub create : Result Text
  pub connect : Option Text
  pub start : Option Text
  pub now : ℤ

abbrev target_images : List (List Text × Text)
target_images =
    (codes "vulnerable-web" ∷ codes "web" ∷ [], codes "target-web")
    ∷ (codes "vulnerable-api" ∷ codes "api" ∷ [], codes "target-api")
    ∷ (codes "tcp-server" ∷ codes "tcp" ∷ [], codes "target-tcp")
    ∷ (codes "postgres" ∷ codes "postgresql" ∷ [], codes "target-postgres")
    ∷ (codes "mysql" ∷ [], codes "target-mysql")
    ∷ []

-- The default keeps the spelling of the type.
unfoldable pub target_image : LabManager → Text → Text → Text
target_image lm target_type override =
    if is_empty override
    then lm.image_prefix
      ++ switch (to_lower target_type) target_images (codes "target-" ++ target_type)
    else override

abbrev target_ports : List (List Text × ℤ)
target_ports =
    (codes "vulnerable-web" ∷ codes "web" ∷ [], pos 80)
    ∷ (codes "vulnerable-api" ∷ codes "api" ∷ [], pos 3000)
    ∷ (codes "tcp-server" ∷ codes "tcp" ∷ [], pos 9000)
    ∷ (codes "postgres" ∷ codes "postgresql" ∷ [], pos 5432)
    ∷ (codes "mysql" ∷ [], pos 3306)
    ∷ []

unfoldable pub target_port : Text → ℤ → ℤ
target_port target_type override =
    if ltb_ℤ (pos 0) override
    then override
    else switch (to_lower target_type) target_ports (pos 8080)

-- A database is also reachable as "db".
unfoldable pub aliases_of : Text → List Text
aliases_of target_type =
    if one_of (to_lower target_type) (codes "postgres" ∷ codes "postgresql" ∷ codes "mysql" ∷ [])
    then codes "target" ∷ codes "db" ∷ []
    else codes "target" ∷ []

unfoldable pub target_config : Text → Text → List Text → ContainerConfig
target_config image session_id env = record {
  image = image;
  tty = false;
  open_stdin = false;
  stdin_once = false;
  working_dir = [];
  cmd = [];
  env = env;
  labels =
      (codes "modigo-managed", codes "true")
      ∷ (codes "modigo-session", session_id)
      ∷ (codes "modigo-role", codes "target")
      ∷ [];
}

-- A target has no limits of its own, and no port on the host.
abbrev pub target_host_config : HostConfig
target_host_config = record {
  memory = pos 0;
  cpu_period = pos 0;
  cpu_quota = pos 0;
  pids_limit = none;
  network_mode = codes "default";
  privileged = false;
  readonly_rootfs = false;
  auto_remove = false;
  security_opt = codes "no-new-privileges" ∷ [];
  mounts = [];
}

-- The failure to remove is only logged.
abbrev pub destroy_network : Text → Trace → Trace
destroy_network network_id es = remove_network network_id ∷ es

abbrev pub remove_container : Text → Trace → Trace
remove_container id es = remove id ∷ es

abbrev pub Started : Type 0
Started = Trace × Result LabSession

-- `labCancel`, then the removal of the network.
unfoldable pub fail_lab : Text → Trace → Text → Text → Started
fail_lab network_id es label e = (destroy_network network_id (cancel [] ∷ es), err (errorf label e))

module _ (lm : LabManager) (a : LabAnswers) where
  unfoldable pub start_target : (network_id id : Text) → LabSession → Trace → Started
  start_target network_id id lab es = elim a.start [
    | some e ↦ fail_lab network_id (start id ∷ es) (codes "start target container") e
    | none ↦ (start id ∷ es, ok lab)
  ]

  unfoldable pub connect_target : (network_id id : Text) → LabTarget → LabSession → Trace → Started
  connect_target network_id id target lab es =
      let es1 : Trace = connect network_id id (aliases_of target.target_type) ∷ es in
      elim a.connect [
        | some e ↦ fail_lab network_id es1 (codes "connect target to lab network") e
        | none ↦ start_target network_id id lab es1
      ]

  unfoldable pub create_target : (network_id session_id : Text) → LabTarget → ℤ → Trace → Started
  create_target network_id session_id target timeout es = elim a.create [
    | err e ↦ fail_lab network_id es (codes "create target container") e
    | ok id ↦
        connect_target network_id id target
          (record {
            session_id = session_id;
            network_id = network_id;
            student_id = [];
            target_ids = id ∷ [];
            target_hostname = codes "target";
            expires_at = a.now +ℤ timeout;
          })
          (create id
              (target_config (target_image lm target.target_type target.image) session_id
                target.env)
              target_host_config
            ∷ es)
  ]

  -- `StartLab`. The goroutine that stops the lab after the timeout is `cleanup_expired_lab`, called
  -- when the timeout has passed.
  unfoldable pub start_lab : Text → LabTarget → ℤ → Trace → Started
  start_lab session_id target timeout es = elim a.create_network [
    | err e ↦ (es, err (errorf (codes "create lab network") e))
    | ok network_id ↦
        create_target network_id session_id target timeout
          (create_network network_id (codes "lab-" ++ session_id) ∷ es)
  ]

-- `AddStudentContainer`, with what the daemon answers.
unfoldable pub add_student_container :
    Option Text → Option LabSession → Text → Trace → Trace × Result (Option LabSession)
add_student_container connected none id es = (es, ok none)
add_student_container (some e) (some lab) id es = (
  connect lab.network_id id (codes "student" ∷ []) ∷ es,
  err (errorf (codes "connect student to lab network") e),
)
add_student_container none (some lab) id es = (
  connect lab.network_id id (codes "student" ∷ []) ∷ es,
  ok (some (record lab { student_id = id })),
)

unfoldable pub remove_containers : List Text → Trace → Trace
remove_containers [] es = es
remove_containers (id ∷ ids) es = remove_containers ids (remove_container id es)

-- `StopLab`; the session's `cancel` is always there.
unfoldable pub stop_lab : Option LabSession → Trace → Trace
stop_lab none es = es
stop_lab (some lab) es =
    let cancelled : Trace = cancel [] ∷ es in
    let student_gone =
      if is_empty lab.student_id then cancelled else remove_container lab.student_id cancelled in
    destroy_network lab.network_id (remove_containers lab.target_ids student_gone)

unfoldable pub cleanup_expired_lab : ℤ → LabSession → Trace → Trace
cleanup_expired_lab now lab es = if ltb_ℤ now lab.expires_at then es else stop_lab (some lab) es

unfoldable pub destroy_networks : List Text → Trace → Trace
destroy_networks [] es = es
destroy_networks (id ∷ ids) es = destroy_networks ids (destroy_network id es)

-- `CleanupOrphanedLabs`, with the networks that the daemon lists under the label.
unfoldable pub cleanup_orphaned_labs : Result (List Text) → Trace → Trace
cleanup_orphaned_labs (err e) es = es
cleanup_orphaned_labs (ok networks) es = destroy_networks networks es
