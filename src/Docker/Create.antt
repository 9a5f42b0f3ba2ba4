-- ===== src/Docker/Create.antt =====
-- executor/container.go: `CreateInteractive`, one function for each stretch up to a call that can
-- fail, and the clean-up that each failure makes.
use modigo_runner.Base.{
  ℕ, Bool, true, false, List, [], ◌∷◌, ◌++◌, Option, none, some, Text, codes, text_eq, to_lower,
  if◌then◌else◌, Result, ok, err, errorf,
}
use modigo_runner.Paths.{join, base}
use modigo_runner.Docker.{
  DockerClient, Quota, language_to_image, language_to_main_file, is_compiled, limits_for_lang,
  network_mode_or_lab,
}
use modigo_runner.Docker.Calls.{
  Trace, ContainerConfig, HostConfig, make_temp_dir, remove_dir, write_file, create, copy_files,
  start, attach, remove, cancel,
}
use modigo_runner.Docker.Image.{ensure_image}
use modigo_runner.Docker.Stage.{File, HostFiles, write_extras, write_go_mod, create_compile_wrapper}

-- `InteractiveSession`; its context is that of the container.
pub record InteractiveSession : Type 0 where
  pub container_id : Text
  pub has_conn : Bool
  pub temp_dir : Text

-- What the daemon and the host answer to one call of `CreateInteractive` or `CreateShell`; `attach`
-- says whether the connection is there.
pub record Answers : Type 0 where
  pub inspect_image : Option Text
  pub pull : ℕ → Option Text
  pub temp_dir : Result Text
  pub host : HostFiles
  pub create : Result Text
  pub copy : Option Text
  pub start : Option Text
  pub attach : Result Bool

abbrev pub Creation : Type 0
Creation = Trace × Result InteractiveSession

-- A failure after which the context is cancelled, with the events before it.
unfoldable pub fail : Trace → Text → Text → Creation
fail es label e = (cancel [] ∷ es, err (errorf label e))

abbrev pub tmpfs_mounts : List (Text × Text)
tmpfs_mounts = (codes "tmpfs", codes "/tmp") ∷ []

unfoldable pub host_config : Quota → Text → HostConfig
host_config q network = record {
  memory = q.memory;
  cpu_period = q.cpu_period;
  cpu_quota = q.cpu_quota;
  pids_limit = some q.pids_limit;
  network_mode = network;
  privileged = false;
  readonly_rootfs = false;
  auto_remove = false;
  security_opt = codes "no-new-privileges" ∷ [];
  mounts = tmpfs_mounts;
}

-- The command: a compile script, then PHP's entry file, override the default of the image.
unfoldable pub interactive_cmd : Text → Option Text → List Text
interactive_cmd lang wrapper =
    if text_eq (to_lower lang) (codes "php")
    then codes "php" ∷ language_to_main_file lang ∷ []
    else elim wrapper [
      | none ↦ []
      | some path ↦ codes "/bin/sh" ∷ (codes "/code/" ++ base path) ∷ []
    ]

unfoldable pub interactive_config : Text → Text → Option Text → ContainerConfig
interactive_config image lang wrapper = record {
  image = image;
  tty = true;
  open_stdin = true;
  stdin_once = false;
  working_dir = codes "/code";
  cmd = interactive_cmd lang wrapper;
  env = codes "PS1=" ∷ codes "PS2=" ∷ codes "TERM=xterm-256color" ∷ [];
  labels = (codes "modigo-runner", codes "1") ∷ [];
}

module _ (d : DockerClient) (a : Answers) where
  -- "Attach to the container for PTY I/O".
  unfoldable pub attach_container : Text → Trace → Creation
  attach_container id es = elim a.attach [
    | err e ↦ fail (remove id ∷ attach id ∷ es) (codes "container attach") e
    | ok conn ↦ (attach id ∷ es, ok (record { container_id = id; has_conn = conn; temp_dir = [] }))
  ]

  unfoldable pub start_container : Text → Trace → Creation
  start_container id es = elim a.start [
    | some e ↦ fail (remove id ∷ start id ∷ es) (codes "container start") e
    | none ↦ attach_container id (start id ∷ es)
  ]

  -- The files are injected before the start; the staging directory goes on either path.
  unfoldable pub inject : Text → Text → Trace → Creation
  inject code_dir id es = elim a.copy [
    | some e ↦
        fail (remove_dir code_dir ∷ remove id ∷ copy_files id code_dir a.copy ∷ es)
          (codes "copy files to container") e
    | none ↦ start_container id (remove_dir code_dir ∷ copy_files id code_dir a.copy ∷ es)
  ]

  unfoldable pub create_container :
      (code_dir lang lab_network_id : Text) → Option Text → Trace → Creation
  create_container code_dir lang lab_network_id wrapper es = elim a.create [
    | err e ↦ fail (remove_dir code_dir ∷ es) (codes "container create") e
    | ok id ↦ inject code_dir id (
        create id (interactive_config (language_to_image d lang) lang wrapper)
          (host_config (limits_for_lang d lang) (network_mode_or_lab lang lab_network_id))
        ∷ es)
  ]

  -- "For compiled languages, wrap code in a compile-and-run script".
  unfoldable pub wrap_code : (code_dir lang lab_network_id : Text) → Trace → Creation
  wrap_code code_dir lang lab_network_id es =
      let (es1, wrapper) =
        create_compile_wrapper a.host code_dir lang (language_to_main_file lang) es in
      let compiled : Creation = elim wrapper [
        | err e ↦ fail (remove_dir code_dir ∷ es1) (codes "compile wrapper") e
        | ok path ↦ create_container code_dir lang lab_network_id (some path) es1
      ] in
      if is_compiled lang then compiled else create_container code_dir lang lab_network_id none es

  unfoldable pub write_code :
      (code_dir lang code lab_network_id : Text) → List File → Trace → Creation
  write_code code_dir lang code lab_network_id extra es =
      let code_path = join code_dir (language_to_main_file lang) in
      let written = write_file code_path code ∷ es in
      elim (a.host.write code_path) [
        | some e ↦ fail (remove_dir code_dir ∷ written) (codes "write code") e
        | none ↦ wrap_code code_dir lang lab_network_id (
            write_go_mod a.host lang code_dir extra
              (write_extras a.host code_dir code_path extra written))
      ]

  unfoldable pub stage_code : (lang code lab_network_id : Text) → List File → Trace → Creation
  stage_code lang code lab_network_id extra es = elim a.temp_dir [
    | err e ↦ fail es (codes "temp dir") e
    | ok code_dir ↦ write_code code_dir lang code lab_network_id extra (make_temp_dir code_dir ∷ es)
  ]

  unfoldable pub create_interactive :
      (lang code lab_network_id : Text) → List File → Trace → Creation
  create_interactive lang code lab_network_id extra es =
      let image = language_to_image d lang in
      let (es1, missing) = ensure_image a.inspect_image a.pull image es in
      elim missing [
        | some e ↦ fail es1 (codes "ensure image " ++ image) e
        | none ↦ stage_code lang code lab_network_id extra es1
      ]
