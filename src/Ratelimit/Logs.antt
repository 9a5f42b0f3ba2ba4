-- ===== src/Ratelimit/Logs.antt =====
-- ratelimit/limiter.go, seen from outside: what a limiter answers that keeps the times of all requests
-- it has let through, and never cleans up.
use modigo_runner.Base.{
  ℕ, suc, ◌+◌, ◌-◌, ◌≤◌, ◌≡◌, ℤ, Bool, not, ◌&&◌, List, [], ◌∷◌, Option, none, some, Text, text_eq,
  ltb, leb, if◌then◌else◌,
}
use modigo_runner.Ratelimit.{Limiter, second, at_limit, allow, cleanup}

-- The times of the requests of each key that were let through, the newest first.
abbrev pub Logs : Type 0
Logs = Text → List ℕ

-- A request of a key, or a tick of the clean-up, at a time.
pub data Call : Type 0 where
  request : (now : ℕ) → (key : Text) → Call
  tick : (now : ℕ) → Call

abbrev pub time_of : Call → ℕ
time_of (request now key) = now
time_of (tick now) = now

-- The calls come in the order of their times.
abbrev pub Ordered : ℕ → List Call → Type 0
Ordered t [] = Unit
Ordered t (c ∷ cs) = (t ≤ time_of c) × Ordered (time_of c) cs

-- The window in which the newest request falls: its start, and how many were let through in it. A
-- window starts with a request and lasts a second.
abbrev pub window_of : List ℕ → Option (ℕ × ℕ)
window_of [] = none
window_of (t ∷ log) = elim (window_of log) [
  | none ↦ some (t, 1)
  | some (start, count) ↦ if leb second (t - start) then some (t, 1) else some (start, count + 1)
]

-- How many have been let through in the window that is open.
abbrev pub open_count : (now : ℕ) → List ℕ → ℕ
open_count now log = elim (window_of log) [
  | none ↦ 0
  | some (start, count) ↦ if ltb (now - start) second then count else 0
]

unfoldable pub update_log : Logs → Text → ℕ → Logs
update_log logs key now other = if text_eq key other then now ∷ logs other else logs other

module _ (date_of : ℕ → Text) where
  -- How many have been let through on a date.
  abbrev pub count_on : Text → List ℕ → ℕ
  count_on today [] = 0
  count_on today (t ∷ log) =
      if text_eq (date_of t) today then suc (count_on today log) else count_on today log

  abbrev pub admits : (rps daily : ℤ) → (now : ℕ) → List ℕ → Bool
  admits rps daily now log =
      not (at_limit daily (count_on (date_of now) log)) && not (at_limit rps (open_count now log))

  -- What the log answers to a sequence of calls.
  unfoldable pub log_answers : (rps daily : ℤ) → List Call → Logs → List Bool
  log_answers rps daily [] logs = []
  log_answers rps daily (tick now ∷ cs) logs = log_answers rps daily cs logs
  log_answers rps daily (request now key ∷ cs) logs =
      let b = admits rps daily now (logs key) in
      b ∷ log_answers rps daily cs (if b then update_log logs key now else logs)

  -- What the limiter answers to them.
  unfoldable pub answers : List Call → Limiter → List Bool
  answers [] l = []
  answers (tick now ∷ cs) l = answers cs (cleanup date_of now l)
  answers (request now key ∷ cs) l = let (l1, b) = allow date_of now key l in b ∷ answers cs l1

  -- A date that has passed does not come back.
  abbrev pub Calendar : Type 0
  Calendar = (t u v : ℕ) → t ≤ u → u ≤ v → date_of t ≡ date_of v → date_of u ≡ date_of v
