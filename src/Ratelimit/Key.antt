-- ===== src/Ratelimit/Key.antt =====
-- ratelimit/limiter.go: what a key has used up, and what `Allow` makes of it.
use modigo_runner.Base.{
  ℕ, ◌+◌, ◌-◌, ◌≡◌, refl, ◌↔◌, ◌⊎◌, ◌≢◌, ℤ, pos, ◌≤ℤ◌, Bool, true, false, Option, none, some, Text,
  text_eq, text_eq_refl, arith, ltb, if◌then◌else◌, lookup, lookup-insert_self, lookup-insert_ne,
}
use modigo_runner.Ratelimit.{
  KeyState, Limiter, second, new_key, reset_daily, reset_window, count_request, at_limit, admit,
  entry, allow,
}

-- One more request stays within the limit, or there is no limit.
abbrev pub Within : ℤ → ℕ → Type 0
Within limit count = (limit ≤ℤ pos 0) ⊎ (pos (count + 1) ≤ℤ limit)

-- Requests of the day that are counted against the key.
abbrev pub used_today : Text → Option KeyState → ℕ
used_today today none = 0
used_today today (some st) = if text_eq st.daily_date today then st.daily_count else 0

-- Requests of the window that is still open.
abbrev pub used_window : ℕ → Option KeyState → ℕ
used_window now none = 0
used_window now (some st) = if ltb (now - st.window_start) second then st.window_count else 0

abbrev pub one_if : Bool → ℕ
one_if true = 1
one_if false = 0

module _ (rps daily : ℤ) (now : ℕ) (today : Text) (st : KeyState) where
  admit_iff :
      ((admit rps daily now today st).1 ≡ true)
      ↔ (Within daily (used_today today (some st)) × Within rps (used_window now (some st)))
  unfolding admit reset_daily reset_window count_request at_limit
  admit_iff = ground arith

  admit-used_today :
      used_today today (some (admit rps daily now today st).0)
      ≡ used_today today (some st) + one_if (admit rps daily now today st).1
  unfolding admit reset_daily reset_window count_request at_limit
  admit-used_today = ground (arith, text_eq_refl today)

  admit-used_window :
      used_window now (some (admit rps daily now today st).0)
      ≡ used_window now (some st) + one_if (admit rps daily now today st).1
  unfolding admit reset_daily reset_window count_request at_limit
  admit-used_window = ground arith

entry-used_today :
    (l : Limiter) (key : Text) (now : ℕ) (today : Text)
    → used_today today (some (entry l key now today)) ≡ used_today today (lookup key l.keys)
unfolding entry new_key
entry-used_today l key now today = ground arith

entry-used_window :
    (l : Limiter) (key : Text) (now : ℕ) (today : Text)
    → used_window now (some (entry l key now today)) ≡ used_window now (lookup key l.keys)
unfolding entry new_key
entry-used_window l key now today = ground arith

module _ (date_of : ℕ → Text) (now : ℕ) (key : Text) (l : Limiter) where
  -- The entry that `Allow` leaves behind.
  pub lookup-allow :
      lookup key (allow date_of now key l).0.keys
      ≡ some (admit l.rps l.daily now (date_of now) (entry l key now (date_of now))).0
  unfolding allow
  lookup-allow = lookup-insert_self key _ l.keys

  -- A request is let through exactly when it stays within the daily limit, as far as the key has used
  -- it on this date, and within the limit of the open window; a limit that is not positive is none.
  pub allow_iff : ((allow date_of now key l).1 ≡ true) ↔ (
      Within l.daily (used_today (date_of now) (lookup key l.keys))
      × Within l.rps (used_window now (lookup key l.keys)))
  unfolding allow
  allow_iff =
      rw (← entry-used_today l key now (date_of now), ← entry-used_window l key now (date_of now))
        (admit_iff l.rps l.daily now (date_of now) (entry l key now (date_of now)))

  -- A request that is let through is counted once in its day and once in its window, and a refused
  -- one in neither; the entries of the other keys and the two limits stay as they were.
  pub allow-counts : record {
    today :
        used_today (date_of now) (lookup key (allow date_of now key l).0.keys)
        ≡ used_today (date_of now) (lookup key l.keys) + one_if (allow date_of now key l).1;
    window :
        used_window now (lookup key (allow date_of now key l).0.keys)
        ≡ used_window now (lookup key l.keys) + one_if (allow date_of now key l).1;
    others :
        (other : Text)
        → key ≢ other
        → lookup other (allow date_of now key l).0.keys ≡ lookup other l.keys;
    rps : (allow date_of now key l).0.rps ≡ l.rps;
    daily : (allow date_of now key l).0.daily ≡ l.daily;
  }
  unfolding allow
  allow-counts = record {
    today =
        rw (lookup-insert_self key _ l.keys, ← entry-used_today l key now (date_of now))
          (admit-used_today l.rps l.daily now (date_of now) (entry l key now (date_of now)));
    window =
        rw (lookup-insert_self key _ l.keys, ← entry-used_window l key now (date_of now))
          (admit-used_window l.rps l.daily now (date_of now) (entry l key now (date_of now)));
    others = λ other ne. lookup-insert_ne _ l.keys ne;
    rps = refl;
    daily = refl;
  }
