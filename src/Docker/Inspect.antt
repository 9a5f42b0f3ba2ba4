-- ===== src/Docker/Inspect.antt =====
-- executor/container.go: why a container stopped.
use modigo_runner.Base.{
  ℤ, pos, negsuc, Bool, true, false, Result, ok, err, if◌then◌else◌, zero, suc,
}

pub data ExitReason : Type 0 where
  normal error oom timeout crash : ExitReason

abbrev pub is_zero : ℤ → Bool
is_zero (pos zero) = true
is_zero (pos (suc n)) = false
is_zero (negsuc n) = false

-- The daemon's answer is an error, or whether its state says that the container was OOM-killed.
unfoldable pub inspect_container : Result Bool → ℤ → Bool → ExitReason
inspect_container info exit_code true = timeout
inspect_container (err e) exit_code false = if is_zero exit_code then normal else crash
inspect_container (ok oom_killed) exit_code false =
    if oom_killed then oom else if is_zero exit_code then normal else error
