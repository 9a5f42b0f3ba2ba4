-- ===== src/Docker/Calls.antt =====
-- executor/container.go: the calls that the client makes of the daemon and of the host, in order.
-- What a call answers is an argument of the function that makes it; whether the daemon carries a
-- request out is not modelled.
use modigo_runner.Base.{
  ◌≡◌, refl, ◌≢◌, ap, ℤ, Bool, Option, List, [], ◌∷◌, Text, text_eq, text_eq-false, text_eq_refl,
  if◌then◌else◌,
}

pub record ContainerConfig : Type 0 where
  pub image : Text
  pub tty : Bool
  pub open_stdin : Bool
  pub stdin_once : Bool
  pub working_dir : Text
  pub cmd : List Text
  pub env : List Text
  pub labels : List (Text × Text)

-- `mounts` has the type and the target of each mount.
pub record HostConfig : Type 0 where
  pub memory : ℤ
  pub cpu_period : ℤ
  pub cpu_quota : ℤ
  pub pids_limit : Option ℤ
  pub network_mode : Text
  pub privileged : Bool
  pub readonly_rootfs : Bool
  pub auto_remove : Bool
  pub security_opt : List Text
  pub mounts : List (Text × Text)

pub data Event : Type 0 where
  inspect_image pull_image : Text → Event
  make_temp_dir remove_dir make_dirs : Text → Event
  write_file : (path content : Text) → Event
  create : (id : Text) → ContainerConfig → HostConfig → Event
  copy_files : (id dir : Text) → (failed : Option Text) → Event
  start attach wait logs inspect remove : (id : Text) → Event
  write_stdin : (id content : Text) → Event
  close_conn : (id : Text) → Event
  cancel : (id : Text) → Event
  create_network : (id name : Text) → Event
  connect : (network id : Text) → List Text → Event
  remove_network : (id : Text) → Event

-- The newest event stands at the head.
abbrev pub Trace : Type 0
Trace = List Event

abbrev pub drop_text : Text → List Text → List Text
drop_text x [] = []
drop_text x (y ∷ ys) = let rest = drop_text x ys in if text_eq y x then rest else y ∷ rest

-- The containers that have been created and whose removal has not been requested since.
abbrev pub containers : Trace → List Text
containers [] = []
containers (create id cfg host ∷ es) = id ∷ containers es
containers (remove id ∷ es) = drop_text id (containers es)
containers (e ∷ es) = containers es

-- The host directories made for code that have not been removed.
abbrev pub temp_dirs : Trace → List Text
temp_dirs [] = []
temp_dirs (make_temp_dir d ∷ es) = d ∷ temp_dirs es
temp_dirs (remove_dir d ∷ es) = drop_text d (temp_dirs es)
temp_dirs (e ∷ es) = temp_dirs es

-- The lab networks whose removal has not been requested.
abbrev pub networks : Trace → List Text
networks [] = []
networks (create_network id name ∷ es) = id ∷ networks es
networks (remove_network id ∷ es) = drop_text id (networks es)
networks (e ∷ es) = networks es

abbrev pub Absent : Text → List Text → Type 0
Absent x [] = Unit
Absent x (y ∷ ys) = (y ≢ x) × Absent x ys

pub drop_text-Absent : (x : Text) (ys : List Text) → Absent x ys → drop_text x ys ≡ ys
drop_text-Absent x [] h = refl
drop_text-Absent x (y ∷ ys) (h, hs) =
    rw (text_eq-false y x h) (ap (λ zs. y ∷ zs) (drop_text-Absent x ys hs))

-- A container or a directory that is new goes again without a trace.
pub drop_text-cons : (x : Text) (ys : List Text) → Absent x ys → drop_text x (x ∷ ys) ≡ ys
drop_text-cons x ys h = rw (text_eq_refl x) (drop_text-Absent x ys h)
