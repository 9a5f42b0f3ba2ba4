-- ===== src/Ratelimit/Examples.antt =====
-- Runs of the limiter at concrete requests.
use Prim.Native.Nat.{compare, Ordering}
use modigo_runner.Base.{
  ℕ, ◌+◌, ◌-◌, ◌≤◌, ◌≡◌, refl, ◌↔◌, pos, true, List, [], ◌∷◌, ◌++◌, none, Text, codes, arith,
  lookup, insert,
}
use modigo_runner.Ratelimit.{
  KeyState, Limiter, second, day, new_limiter, allow, cleanup, admit, entry, reset_daily,
  reset_window, count_request, at_limit, new_key,
}
use modigo_runner.Ratelimit.Key.{Within, used_today, one_if, allow_iff, allow-counts}
use modigo_runner.Ratelimit.Daily.{accepted, accepted-le-daily}
use modigo_runner.Ratelimit.Window.{accepted-le-rps}
use modigo_runner.Ratelimit.Burst.{repeat_request, burst}
use modigo_runner.Ratelimit.Cleanup.{allow-cleanup}
use modigo_runner.Ratelimit.Decimal.{itoa}

limiter_code : Unit {0}
unfolding allow cleanup admit entry reset_daily reset_window count_request at_limit new_key
    new_limiter lookup insert accepted repeat_request
limiter_code = tt

-- A calendar: the day number, as a text of one character.
abbrev day_of : ℕ → Text
day_of now = elim (compare now day) [ Ordering.lt ↦ codes "1" | _ ↦ codes "2" ]

abbrev ann : Text
ann = codes "ann"

abbrev small : Limiter
small = record { keys = []; rps = pos 2; daily = pos 3 }

abbrev three_requests : List (ℕ × Text)
three_requests = (0, ann) ∷ (1, ann) ∷ (2, ann) ∷ []

-- A window that began at 0 and has counted one request, at its last nanosecond and after it.
abbrev waning : Limiter
waning = record small {
  keys =
      (ann, record { window_start = 0; window_count = 1; daily_date = codes "1"; daily_count = 0 })
      ∷ [];
}

abbrev across : ℕ × Text
across = (second - 1, ann)

abbrev three_more : List (ℕ × Text)
three_more = (second, ann) ∷ (second + 1, ann) ∷ (second + 2, ann) ∷ []

third_is_refused : accepted day_of ann three_requests small ≡ 2
unfolding limiter_code
third_is_refused = refl

itoa_thousand : itoa (pos 10000) ≡ codes "10000"
unfolding itoa
itoa_thousand = refl

allow_iff_example : ((allow day_of 5 ann small).1 ≡ true) ↔ (Within (pos 3) 0 × Within (pos 2) 0)
unfolding lookup
allow_iff_example = allow_iff day_of 5 ann small

allow-counts_example :
    used_today (day_of 5) (lookup ann (allow day_of 5 ann small).0.keys)
    ≡ used_today (day_of 5) (lookup ann small.keys) + one_if (allow day_of 5 ann small).1
allow-counts_example = (allow-counts day_of 5 ann small).today

accepted-le-daily_example :
    used_today (codes "1") (lookup ann small.keys) + accepted day_of ann three_requests small ≤ 3
unfolding lookup
accepted-le-daily_example =
    accepted-le-daily day_of ann (codes "1") 3 three_requests small (refl, (refl, (refl, tt))) refl
      (omega arith) (omega arith)

accepted-le-rps_example :
    (accepted day_of ann (across ∷ three_more) waning ≤ 4)
    × (lookup ann waning.keys ≡ none → accepted day_of ann (across ∷ three_more) waning ≤ 2)
unfolding lookup
accepted-le-rps_example =
    accepted-le-rps day_of ann (second - 1) 2 (across ∷ three_more) waning (omega arith) refl
      (omega arith) (omega arith)

three_are_let_through : accepted day_of ann (across ∷ three_more) waning ≡ 3
unfolding limiter_code
three_are_let_through = refl

abbrev unlimited_day : Limiter
unlimited_day = record { keys = []; rps = pos 10; daily = pos 0 }

burst_example :
    accepted day_of ann
      (repeat_request (10 - 1) (7 + second - 1, ann) ++ repeat_request 10 (7 + second, ann))
      (allow day_of 7 ann unlimited_day).0
    ≡ 19
unfolding lookup
burst_example = burst day_of ann 10 7 unlimited_day (omega arith) (refl, refl) refl

abbrev yesterday : KeyState
yesterday = record { window_start = 0; window_count = 2; daily_date = codes "1"; daily_count = 3 }

abbrev idle_key : Limiter
idle_key = record { keys = (ann, yesterday) ∷ []; rps = pos 2; daily = pos 3 }

allow-cleanup_example :
    ((allow day_of (day + 9) ann (cleanup day_of (day + 5) idle_key)).1
      ≡ (allow day_of (day + 9) ann idle_key).1)
    × (lookup ann (allow day_of (day + 9) ann (cleanup day_of (day + 5) idle_key)).0.keys
        ≡ lookup ann (allow day_of (day + 9) ann idle_key).0.keys)
unfolding limiter_code
allow-cleanup_example =
    allow-cleanup day_of (day + 5) (day + 9) ann idle_key (tt, tt) (omega arith)
      (λ st e stale q. ground arith)
