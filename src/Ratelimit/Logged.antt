-- ===== src/Ratelimit/Logged.antt =====
-- ratelimit/limiter.go: the entry of a key and the log of what was let through.
use modigo_runner.Base.{
  ℕ, ◌+◌, ◌-◌, ◌≤◌, ◌≡◌, ◌≢◌, refl, inl, inr, ℤ, true, false, List, [], ◌∷◌, Option, none, some,
  Text, text_eq, text_eq_iff, arith, ltb, leb, All, Bool-cases, Option-cases,
}
use modigo_runner.Ratelimit.{KeyState, second, at_limit}
use modigo_runner.Ratelimit.Logs.{window_of, open_count, count_on, Calendar}

pub fresh_window : (now : ℕ) → leb second (now - now) ≡ false
fresh_window now = ground arith

pub at_limit-zero : (limit : ℤ) → at_limit limit 0 ≡ false
unfolding at_limit
at_limit-zero limit = ground arith

pub All-later : (t u : ℕ) (log : List ℕ) → t ≤ u → All (λ x. x ≤ t) log → All (λ x. x ≤ u) log
All-later t u [] h a = tt
All-later t u (x ∷ log) h (first, a) = (omega (arith, h, first), All-later t u log h a)

-- The window of the log is over.
abbrev pub Closed : ℕ → List ℕ → Type 0
Closed now log = (start count : ℕ) → window_of log ≡ some (start, count) → start + second ≤ now

pub window_of-Closed :
    (now : ℕ) (log : List ℕ) → Closed now log → window_of (now ∷ log) ≡ some (now, 1)
window_of-Closed now log closed = elim (Option-cases (window_of log)) [
  | inl e ↦ rw (e, window_of) refl
  | inr ((start, count), e) ↦
      let le = closed start count e in
      let over : leb second (now - start) ≡ true = ground (arith, le) in
      rw (e, over, window_of) refl
]

pub open_count-Closed : (now : ℕ) (log : List ℕ) → Closed now log → open_count now log ≡ 0
open_count-Closed now log closed = elim (Option-cases (window_of log)) [
  | inl e ↦ rw (e, open_count) refl
  | inr ((start, count), e) ↦
      let le = closed start count e in
      let over : ltb (now - start) second ≡ false = ground (arith, le) in
      rw (e, over, open_count) refl
]

module _ (date_of : ℕ → Text) (calendar : Calendar date_of) where
  -- What an entry says of the log at some time; the entry may have been removed.
  pub data Logged (now : ℕ) : Option KeyState → List ℕ → Type 0 where
    removed :
        {log : List ℕ}
        → ((later : ℕ) → now ≤ later → count_on date_of (date_of later) log ≡ 0)
        → All (λ t. t ≤ now) log
        → Closed now log
        → Logged now none log
    stored :
        {st : KeyState} {log : List ℕ} (dated : ℕ)
        → dated ≤ now
        → st.daily_date ≡ date_of dated
        → All (λ t. t ≤ dated) log
        → count_on date_of (date_of dated) log ≡ st.daily_count
        → window_of log ≡ some (st.window_start, st.window_count)
        → Logged now (some st) log

  pub Logged-later :
      {now later : ℕ} {e : Option KeyState} {log : List ℕ}
      → now ≤ later
      → Logged now e log
      → Logged later e log
  Logged-later h (removed none_on before closed) =
      removed (λ u le. none_on u (omega (arith, h, le))) (All-later _ _ _ h before)
        (λ start count e. let le = closed start count e in omega (arith, h, le))
  Logged-later h (stored dated le date before count window) =
      stored dated (omega (arith, h, le)) date before count window

  -- Requests of a day that has passed do not count today.
  pub count_on-passed :
      (dated now : ℕ) (log : List ℕ)
      → dated ≤ now
      → date_of dated ≢ date_of now
      → All (λ t. t ≤ dated) log
      → count_on date_of (date_of now) log ≡ 0
  count_on-passed dated now [] le ne before = refl
  count_on-passed dated now (t ∷ log) le ne (first, before) =
      elim (Bool-cases (text_eq (date_of t) (date_of now))) [
        | inr e ↦ rw e (count_on-passed dated now log le ne before)
        | inl e ↦
            elim (ne
              (calendar t dated now first le ((text_eq_iff (date_of t) (date_of now)).0 e))) [ ]
      ]
