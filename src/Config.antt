-- ===== src/Config.antt =====
-- config/config.go: the settings, from the environment and the file `.env`.
-- `time.ParseDuration` is the parameter `parse_duration`, in nanoseconds.
pub mod File
pub mod Csv
mod Examples
use mathlib.Core.List.{reverse}
use modigo_runner.Base.{
  ℕ, ◌≡◌, ℤ, pos, Bool, true, false, not, ◌&&◌, ◌||◌, List, [], ◌∷◌, Option, none, some, Text,
  codes, is_empty, trim_space, has_prefix, split, lookup, insert, is_free, parse_int, ◌==◌,
  if◌then◌else◌,
}

-- The environment of the process.
abbrev pub Env : Type 0
Env = List (Text × Text)

abbrev pub newline : ℕ
newline = 10

abbrev pub equals : ℕ
equals = b'='

-- `os.Getenv`: empty for a variable that is not set.
unfoldable pub get_env : Text → Env → Text
get_env key env = elim (lookup key env) [ none ↦ [] | some v ↦ v ]

-- `os.Setenv`, which refuses an empty key, "=" in a key and a zero byte; the error is not looked at.
unfoldable pub set_env : (key value : Text) → Env → Env
set_env key value env =
    if is_empty key || not (is_free equals key && is_free 0 key && is_free 0 value)
    then env
    else insert key value env

-- `strings.IndexByte` with the slices before and behind.
unfoldable pub cut : ℕ → Text → Option (Text × Text)
cut sep [] = none
cut sep (c ∷ s) =
    let rest = cut sep s in
    if c == sep
    then some ([], s)
    else elim rest [ none ↦ none | some (before, after) ↦ some (c ∷ before, after) ]

-- A value of two bytes or more in a pair of quotes is what is between them.
unfoldable pub unquote_ends : (first : ℕ) → (rest reversed : Text) → Text
unquote_ends first rest [] = first ∷ rest
unquote_ends first rest (last ∷ middle) =
    if (first == b'"' && last == b'"') || (first == b'\'' && last == b'\'')
    then reverse middle
    else first ∷ rest

unfoldable pub unquote : Text → Text
unquote [] = []
unquote (first ∷ rest) = unquote_ends first rest (reverse rest)

unfoldable pub set_unless : (key value : Text) → Env → Env
set_unless key value env = if is_empty (get_env key env) then set_env key value env else env

unfoldable pub load_line : Text → Env → Env
load_line raw env =
    let line = trim_space raw in
    if is_empty line || has_prefix line (codes "#") then env else elim (cut equals line) [
      | none ↦ env
      | some (key, value) ↦ set_unless (trim_space key) (unquote (trim_space value)) env
    ]

unfoldable pub load_lines : List Text → Env → Env
load_lines [] env = env
load_lines (line ∷ lines) env = load_lines lines (load_line line env)

-- The file may be missing.
unfoldable pub load_env_file : Option Text → Env → Env
load_env_file none env = env
load_env_file (some file) env = load_lines (split file newline) env

unfoldable pub or_fallback {ℓ} : {A : Type ℓ} → Option A → A → A
or_fallback none fallback = fallback
or_fallback (some v) fallback = v

-- The parts of `getEnvCSV` that are not empty.
unfoldable pub csv_parts : List Text → List Text
csv_parts [] = []
csv_parts (p ∷ ps) =
    let rest = csv_parts ps in if is_empty (trim_space p) then rest else trim_space p ∷ rest

module _ (env : Env) where
  unfoldable pub get_env_str : Text → Text → Text
  get_env_str key fallback = let v = get_env key env in if is_empty v then fallback else v

  -- `getEnvInt`, and `getEnvInt64`.
  unfoldable pub get_env_int : Text → ℤ → ℤ
  get_env_int key fallback =
      let v = get_env key env in if is_empty v then fallback else or_fallback (parse_int v) fallback

  unfoldable pub get_env_duration : (parse_duration : Text → Option ℤ) → Text → ℤ → ℤ
  get_env_duration parse_duration key fallback =
      let v = get_env key env in
      if is_empty v then fallback else or_fallback (parse_duration v) fallback

  unfoldable pub get_env_csv : Text → List Text → List Text
  get_env_csv key fallback =
      let v = get_env key env in
      let parts = csv_parts (split v b',') in
      if is_empty v then fallback else if is_empty parts then fallback else parts

pub record Config : Type 0 where
  pub port : ℤ
  pub docker_socket : Text
  pub image_prefix : Text
  pub exec_timeout : ℤ
  pub max_memory : Text
  pub cpu_period : ℤ
  pub cpu_quota : ℤ
  pub max_pid : ℤ
  pub allowed_origins : List Text
  pub pool_size : ℤ
  pub max_concurrent : ℤ
  pub rate_limit_rps : ℤ
  pub rate_limit_daily : ℤ
  pub auth_secret : Text

unfoldable pub load : (parse_duration : Text → Option ℤ) → (file : Option Text) → Env → Config
load parse_duration file env0 =
    let env = load_env_file file env0 in
    record {
      port = get_env_int env (codes "PORT") (pos 8080);
      docker_socket = get_env_str env (codes "DOCKER_SOCKET") (codes "/var/run/docker.sock");
      image_prefix = get_env_str env (codes "IMAGE_PREFIX") (codes "modigo-runner-");
      exec_timeout =
          get_env_duration env parse_duration (codes "EXEC_TIMEOUT") (pos 30_000_000_000);
      max_memory = get_env_str env (codes "MAX_MEMORY") (codes "256m");
      cpu_period = pos 100_000;
      cpu_quota = get_env_int env (codes "CPU_QUOTA") (pos 50_000);
      max_pid = get_env_int env (codes "MAX_PID") (pos 64);
      allowed_origins = get_env_csv env (codes "ALLOWED_ORIGINS") (codes "*" ∷ []);
      pool_size = get_env_int env (codes "POOL_SIZE") (pos 3);
      max_concurrent = get_env_int env (codes "MAX_CONCURRENT") (pos 50);
      rate_limit_rps = get_env_int env (codes "RATE_LIMIT_RPS") (pos 10);
      rate_limit_daily = get_env_int env (codes "RATE_LIMIT_DAILY") (pos 10_000);
      auth_secret = get_env_str env (codes "AUTH_SECRET") [];
    }

unfoldable pub has_auth : Config → Bool
has_auth cfg = not (is_empty cfg.auth_secret)
