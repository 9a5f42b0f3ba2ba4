-- ===== src/Ratelimit/Daily.antt =====
-- ratelimit/limiter.go: `Allow` over a whole sequence of requests, and `RemainingDaily`.
use modigo_runner.Base.{
  ℕ, ◌+◌, ◌-◌, ◌≤◌, ◌<◌, ◌≡◌, ◌≢◌, ◌∙◌, pos, ◌-ℤ◌, List, [], ◌∷◌, Text, text_eq, text_eq_iff, arith,
  if◌then◌else◌, lookup, All, Bool-cases, inl, inr,
}
use modigo_runner.Ratelimit.{Limiter, allow, remaining_of, remaining_daily}
use modigo_runner.Ratelimit.Key.{Within, used_today, one_if, allow_iff, allow-counts}

-- How many of the requests, each a time and a key, are let through for one key.
unfoldable pub accepted : (ℕ → Text) → Text → List (ℕ × Text) → Limiter → ℕ
accepted date_of key [] l = 0
accepted date_of key ((now, k) ∷ rs) l =
    (if text_eq k key then one_if (allow date_of now k l).1 else 0)
    + accepted date_of key rs (allow date_of now k l).0

module _ (date_of : ℕ → Text) (key today : Text) (d : ℕ) where
  abbrev used : Limiter → ℕ
  used l = used_today today (lookup key l.keys)

  used-allow :
      (now : ℕ) (k : Text) (l : Limiter)
      → date_of now ≡ today
      → used (allow date_of now k l).0
        ≡ used l + (if text_eq k key then one_if (allow date_of now k l).1 else 0)
  used-allow now k l e = elim (Bool-cases (text_eq k key)) [
    | inl same ↦
        let k_key : k ≡ key = (text_eq_iff k key).0 same in
        rw (same, ← e, ← k_key) (allow-counts date_of now k l).today
    | inr other ↦
        let ne : k ≢ key = λ q. ground (arith, text_eq_iff k key) in
        rw (other, (allow-counts date_of now k l).others key ne) (omega arith)
  ]

  -- The key's own request: it is let through only while there is room.
  allow-room :
      (now : ℕ) (l : Limiter)
      → date_of now ≡ today
      → l.daily ≡ pos d
      → 0 < d
      → used l ≤ d
      → used l + one_if (allow date_of now key l).1 ≤ d
  allow-room now l e limit some_limit h = elim (Bool-cases (allow date_of now key l).1) [
    | inl through ↦
        let room = ((allow_iff date_of now key l).0 through).0 in
        let room' : Within (pos d) (used l) = rw limit at (rw e at room) in
        rw through (ground arith)
    | inr refused ↦ rw refused (omega arith)
  ]

  allow-within :
      (now : ℕ) (k : Text) (l : Limiter)
      → date_of now ≡ today
      → l.daily ≡ pos d
      → 0 < d
      → used l ≤ d
      → used (allow date_of now k l).0 ≤ d
  allow-within now k l e limit some_limit h = elim (Bool-cases (text_eq k key)) [
    | inl same ↦
        let k_key : k ≡ key = (text_eq_iff k key).0 same in
        rw (used-allow now k l e, same, k_key) (allow-room now l e limit some_limit h)
    | inr other ↦ rw (used-allow now k l e, other) (omega arith)
  ]

  -- However the requests of all keys are interleaved, on one date a key with a positive daily limit
  -- never gets more of them let through than the limit leaves after what it has used before.
  pub accepted-le-daily :
      (rs : List (ℕ × Text)) (l : Limiter)
      → All (λ r. date_of r.0 ≡ today) rs
      → l.daily ≡ pos d
      → 0 < d
      → used l ≤ d
      → used l + accepted date_of key rs l ≤ d
  unfolding accepted
  accepted-le-daily [] l on_day limit some_limit h = omega arith
  accepted-le-daily ((now, k) ∷ rs) l on_day limit some_limit h = omega (
    arith,
    used-allow now k l on_day.0,
    accepted-le-daily rs (allow date_of now k l).0 on_day.1
        ((allow-counts date_of now k l).daily ∙ limit) some_limit
        (allow-within now k l on_day.0 limit some_limit h),
  )

  -- `RemainingDaily` is what a positive daily limit leaves of the date, and never negative.
  remaining_daily_lem :
      (now : ℕ) (l : Limiter)
      → date_of now ≡ today
      → l.daily ≡ pos d
      → remaining_daily date_of now key l ≡ pos (d - used l)
  unfolding remaining_daily remaining_of ◌-ℤ◌
  remaining_daily_lem now l e limit = rw (e, limit) (ground arith)
