-- ===== src/Ratelimit.antt =====
-- ratelimit/limiter.go: requests counted for each key, in windows of a second and by the day.
-- Times are nanoseconds on Go's monotonic clock, an argument of each call; the calendar (the time
-- zone and `Format`) is the parameter `date_of`. `now.Sub` of an earlier time is 0 here and negative
-- in Go: both are below the intervals that it is compared with.
pub mod Key
pub mod Daily
pub mod Window
pub mod Burst
pub mod Cleanup
pub mod Logs
pub mod Logged
pub mod Admitted
pub mod Refines
pub mod Decimal
mod Examples
mod LogExamples
use modigo_runner.Base.{
  ℕ, ◌+◌, ◌-◌, ◌≡◌, ℤ, pos, negsuc, ltb_ℤ, leb_ℤ, ◌-ℤ◌, Bool, true, false, not, ◌&&◌, List, [], ◌∷◌,
  Option, none, some, Text, text_eq, ltb, leb, if◌then◌else◌, lookup, insert, is_empty,
}

pub record KeyState : Type 0 where
  pub window_start : ℕ
  pub window_count : ℕ
  pub daily_date : Text
  pub daily_count : ℕ

pub record Limiter : Type 0 where
  pub keys : List (Text × KeyState)
  pub rps : ℤ
  pub daily : ℤ

abbrev pub second : ℕ
second = 1_000_000_000

abbrev pub day : ℕ
day = 86_400_000_000_000

-- The goroutine of `cleanup` is the operation `cleanup` below, at the times of its ticker.
unfoldable pub new_limiter : ℤ → ℤ → Limiter
new_limiter rps daily = record { keys = []; rps = rps; daily = daily }

unfoldable pub new_key : ℕ → Text → KeyState
new_key now today = record {
  window_start = now;
  window_count = 0;
  daily_date = today;
  daily_count = 0;
}

-- "Reset daily counter if it's a new day".
unfoldable pub reset_daily : Text → KeyState → KeyState
reset_daily today st =
    if text_eq st.daily_date today then st else record st { daily_date = today; daily_count = 0 }

unfoldable pub reset_window : ℕ → KeyState → KeyState
reset_window now st =
    if leb second (now - st.window_start)
    then record st { window_start = now; window_count = 0 }
    else st

unfoldable pub count_request : KeyState → KeyState
count_request st = record st {
  window_count = st.window_count + 1;
  daily_count = st.daily_count + 1;
}

-- `limit > 0 && count >= limit`: a limit that is not positive is no limit.
unfoldable pub at_limit : ℤ → ℕ → Bool
at_limit limit count = ltb_ℤ (pos 0) limit && leb_ℤ limit (pos count)

-- What `Allow` does to the entry of the key; the entry is shared, so a refused request keeps the
-- resets made before it was refused.
unfoldable pub admit : ℤ → ℤ → ℕ → Text → KeyState → KeyState × Bool
admit rps daily now today st =
    let st1 = reset_daily today st in
    let st2 = reset_window now st1 in
    if at_limit daily st1.daily_count
    then (st1, false)
    else if at_limit rps st2.window_count
    then (st2, false)
    else (count_request st2, true)

unfoldable pub entry : Limiter → Text → ℕ → Text → KeyState
entry l key now today = elim (lookup key l.keys) [ none ↦ new_key now today | some st ↦ st ]

unfoldable pub remaining_of : ℤ → Text → Option KeyState → ℤ
remaining_of daily today none = daily
remaining_of daily today (some st) =
    if not (text_eq st.daily_date today)
    then daily
    else if ltb_ℤ (daily -ℤ pos st.daily_count) (pos 0)
    then pos 0
    else daily -ℤ pos st.daily_count

module _ (date_of : ℕ → Text) where
  unfoldable pub allow : ℕ → Text → Limiter → Limiter × Bool
  unfolding entry
  allow now key l =
      let today = date_of now in
      let (st, admitted) = admit l.rps l.daily now today (entry l key now today) in
      (record l { keys = insert key st l.keys }, admitted)

  unfoldable pub remaining_daily : ℕ → Text → Limiter → ℤ
  remaining_daily now key l = remaining_of l.daily (date_of now) (lookup key l.keys)

  -- "Remove entries older than 1 day".
  unfoldable pub is_stale : ℕ → KeyState → Bool
  is_stale now st = not (text_eq st.daily_date (date_of now)) && ltb day (now - st.window_start)

  unfoldable pub sweep : ℕ → List (Text × KeyState) → List (Text × KeyState)
  unfolding is_stale
  sweep now [] = []
  sweep now ((k, st) ∷ m) = if is_stale now st then sweep now m else (k, st) ∷ sweep now m

  unfoldable pub cleanup : ℕ → Limiter → Limiter
  unfolding sweep
  cleanup now l = record l { keys = sweep now l.keys }
