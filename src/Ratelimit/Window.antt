-- ===== src/Ratelimit/Window.antt =====
-- ratelimit/limiter.go: how many requests of a key pass within a second.
use modigo_runner.Base.{
  ℕ, ◌+◌, ◌-◌, ◌≤◌, ◌<◌, ◌≡◌, ◌≢◌, ◌∙◌, ℤ, pos, List, [], ◌∷◌, Option, none, some, Text, text_eq,
  text_eq_iff, arith, if◌then◌else◌, lookup, All, Bool-cases, inl, inr, leb,
}
use modigo_runner.Ratelimit.{
  KeyState, Limiter, second, allow, admit, reset_daily, reset_window, count_request, at_limit,
  new_key, entry,
}
use modigo_runner.Ratelimit.Key.{one_if, lookup-allow, allow-counts}
use modigo_runner.Ratelimit.Daily.{accepted}

-- What the state of a key still lets through in the second from `a`: the rest of a window that began
-- before `a`, and a whole window after it.
abbrev pub budget : ℕ → ℕ → Option KeyState → ℕ
budget a r none = r
budget a r (some st) =
    if leb a st.window_start then r - st.window_count else r - st.window_count + r

-- The entry counts at most the limit, in a window that began before the span ends.
abbrev Sound : ℕ → ℕ → Option KeyState → Type 0
Sound a r none = Unit
Sound a r (some st) = (st.window_count ≤ r) × (st.window_start < a + second)

abbrev During : ℕ → ℕ → Type 0
During a now = (a ≤ now) × (now < a + second)

module _ (a r : ℕ) (some_limit : 0 < r) where
  admit-budget :
      (daily : ℤ) (now : ℕ) (today : Text) (st : KeyState)
      → During a now
      → Sound a r (some st)
      → Sound a r (some (admit (pos r) daily now today st).0)
        × (budget a r (some (admit (pos r) daily now today st).0)
              + one_if (admit (pos r) daily now today st).1
            ≤ budget a r (some st))
  unfolding admit reset_daily reset_window count_request at_limit
  admit-budget daily now today st d s = ground arith

  entry-budget :
      (l : Limiter) (key : Text) (now : ℕ) (today : Text)
      → During a now
      → Sound a r (lookup key l.keys)
      → Sound a r (some (entry l key now today))
        × (budget a r (some (entry l key now today)) ≤ budget a r (lookup key l.keys))
  unfolding entry new_key
  entry-budget l key now today d s = ground arith

  allow-budget :
      (date_of : ℕ → Text) (key : Text) (now : ℕ) (l : Limiter)
      → l.rps ≡ pos r
      → During a now
      → Sound a r (lookup key l.keys)
      → Sound a r (lookup key (allow date_of now key l).0.keys)
        × (budget a r (lookup key (allow date_of now key l).0.keys)
              + one_if (allow date_of now key l).1
            ≤ budget a r (lookup key l.keys))
  unfolding allow
  allow-budget date_of key now l limit d s =
      let (s1, le1) = entry-budget l key now (date_of now) d s in
      let (s2, le2) = admit-budget l.daily now (date_of now) (entry l key now (date_of now)) d s1 in
      rw (lookup-allow date_of now key l, limit) (s2, omega arith)

  step-budget :
      (date_of : ℕ → Text) (key : Text) (now : ℕ) (k : Text) (l : Limiter)
      → l.rps ≡ pos r
      → During a now
      → Sound a r (lookup key l.keys)
      → Sound a r (lookup key (allow date_of now k l).0.keys)
        × (budget a r (lookup key (allow date_of now k l).0.keys)
              + (if text_eq k key then one_if (allow date_of now k l).1 else 0)
            ≤ budget a r (lookup key l.keys))
  step-budget date_of key now k l limit d s = elim (Bool-cases (text_eq k key)) [
    | inl same ↦
        let k_key : k ≡ key = (text_eq_iff k key).0 same in
        rw (same, k_key) (allow-budget date_of key now l limit d s)
    | inr other ↦
        let ne : k ≢ key = λ q. ground (arith, text_eq_iff k key) in
        rw (other, (allow-counts date_of now k l).others key ne) (s, omega arith)
  ]

  accepted-le-budget :
      (date_of : ℕ → Text) (key : Text) (rs : List (ℕ × Text)) (l : Limiter)
      → l.rps ≡ pos r
      → All (λ q. During a q.0) rs
      → Sound a r (lookup key l.keys)
      → accepted date_of key rs l ≤ budget a r (lookup key l.keys)
  unfolding accepted
  accepted-le-budget date_of key [] l limit d s = omega arith
  accepted-le-budget date_of key ((now, k) ∷ rs) l limit (d, ds) s =
      let (s', le) = step-budget date_of key now k l limit d s in
      omega (
        arith,
        accepted-le-budget date_of key rs (allow date_of now k l).0
            ((allow-counts date_of now k l).rps ∙ limit) ds s',
      )

-- Within any span of one second, wherever the windows of the key lie, at most twice the positive
-- limit of requests is let through; only the limit itself for a key that has no entry yet. The entry
-- that the key has, if any, is to count at most the limit in a window that began before the span ends.
pub accepted-le-rps :
    (date_of : ℕ → Text) (key : Text) (a r : ℕ) (rs : List (ℕ × Text)) (l : Limiter)
    → 0 < r
    → l.rps ≡ pos r
    → All (λ q. During a q.0) rs
    → Sound a r (lookup key l.keys)
    → (accepted date_of key rs l ≤ r + r)
      × (lookup key l.keys ≡ none → accepted date_of key rs l ≤ r)
accepted-le-rps date_of key a r rs l some_limit limit d s =
    let bound = accepted-le-budget a r some_limit date_of key rs l limit d s in
    (ground arith, λ e. ground arith)
