-- ===== src/Limits.antt =====
-- executor/limits.go: resource limits of the containers, and memory sizes such as "256m".
pub mod Memory
mod Examples
use mathlib.Core.List.{reverse}
use modigo_runner.Base.{
  ℕ, ◌*◌, ◌-◌, ◌≡◌, ℤ, pos, Bool, Option, none, some, List, [], ◌∷◌, Text, codes, if◌then◌else◌,
  to_lower, trim_space, has_suffix, take, length, parse_int, int64_scale, is_empty,
}

pub record Limits : Type 0 where
  pub memory : ℤ
  pub cpu_period : ℤ
  pub cpu_quota : ℤ
  pub pids_limit : ℤ
  pub timeout_secs : ℤ

abbrev pub default_memory : ℕ
default_memory = 256 * 1024 * 1024

-- `s[:len(s)-1]`
abbrev without_last : Text → Text
without_last s = take (length s - 1) s

-- The multiplier that the suffix names, and what stands before the suffix.
unfoldable pub split_suffix : Text → ℕ × Text
split_suffix s =
    if has_suffix s (codes "g")
    then (1024 * 1024 * 1024, without_last s)
    else if has_suffix s (codes "m")
    then (1024 * 1024, without_last s)
    else if has_suffix s (codes "k")
    then (1024, without_last s)
    else (1, s)

unfoldable pub scaled : ℕ → Option ℤ → ℤ
scaled multiplier none = pos default_memory
scaled multiplier (some v) = int64_scale v multiplier

unfoldable pub parse_memory : Text → ℤ
parse_memory s =
    let (multiplier, digits) = split_suffix (trim_space (to_lower s)) in
    if is_empty s then pos default_memory else scaled multiplier (parse_int digits)

unfoldable pub default_limits : Limits
default_limits = record {
  memory = parse_memory (codes "256m");
  cpu_period = pos 100000;
  cpu_quota = pos 50000;
  pids_limit = pos 64;
  timeout_secs = pos 30;
}

unfoldable pub with_memory : Text → Limits → Limits
with_memory s l = record l { memory = parse_memory s }

unfoldable pub with_cpu_quota : ℤ → Limits → Limits
with_cpu_quota quota l = record l { cpu_quota = quota }

unfoldable pub with_pids_limit : ℤ → Limits → Limits
with_pids_limit n l = record l { pids_limit = n }

unfoldable pub with_timeout : ℤ → Limits → Limits
with_timeout secs l = record l { timeout_secs = secs }
