-- ===== src/Ratelimit/Cleanup.antt =====
-- ratelimit/limiter.go: the entries that `cleanup` deletes make no difference to what follows.
use modigo_runner.Base.{
  ℕ, ◌≤◌, ◌≡◌, refl, ◌≢◌, ◌∙◌, ap, sym, subst, ℤ, Bool, true, List, [], ◌∷◌, none, some, Text,
  text_eq, text_eq_iff, text_eq_refl, arith, lookup, Bool-cases, inl, inr, ◌⊎◌,
}
use modigo_runner.Ratelimit.{
  KeyState, Limiter, allow, admit, reset_daily, reset_window, count_request, at_limit, new_key,
  entry, is_stale, sweep, cleanup,
}
use modigo_runner.Ratelimit.Key.{lookup-allow}

-- A key is listed once, as in a Go map.
abbrev pub Fresh : Text → List (Text × KeyState) → Type 0
Fresh k [] = Unit
Fresh k ((j, st) ∷ m) = (j ≢ k) × Fresh k m

abbrev pub Distinct : List (Text × KeyState) → Type 0
Distinct [] = Unit
Distinct ((k, st) ∷ m) = Fresh k m × Distinct m

lookup-Fresh : (k : Text) (m : List (Text × KeyState)) → Fresh k m → lookup k m ≡ none
unfolding lookup
lookup-Fresh k [] f = refl
lookup-Fresh k ((j, st) ∷ m) f = ground (arith, text_eq_iff j k, lookup-Fresh k m f.1)

module _ (date_of : ℕ → Text) (now : ℕ) where
  pub sweep-Fresh :
      (k : Text) (m : List (Text × KeyState)) → Fresh k m → Fresh k (sweep date_of now m)
  unfolding sweep
  sweep-Fresh k [] f = tt
  sweep-Fresh k ((j, st) ∷ m) f = ground (arith, sweep-Fresh k m f.1)

  -- The entry of a key after the sweep: gone if it was stale, else the same.
  pub lookup-sweep :
      (k : Text) (m : List (Text × KeyState))
      → Distinct m
      → (lookup k (sweep date_of now m) ≡ lookup k m)
        ⊎ ((st : KeyState) × (lookup k m ≡ some st)
            × (is_stale date_of now st ≡ true)
            × (lookup k (sweep date_of now m) ≡ none))
  unfolding sweep lookup
  lookup-sweep k [] d = inl refl
  lookup-sweep k ((j, st) ∷ m) (f, d) = elim (Bool-cases (is_stale date_of now st)) [
    | inl stale ↦ elim (Bool-cases (text_eq j k)) [
      | inl same ↦
          let e : j ≡ k = (text_eq_iff j k).0 same in
          rw (stale, same)
            (inr (st, refl, stale, lookup-Fresh k _ (sweep-Fresh k m (subst (λ x. Fresh x m) e f))))
      | inr other ↦ rw (stale, other) (lookup-sweep k m d)
    ]
    | inr kept ↦ elim (Bool-cases (text_eq j k)) [
      | inl same ↦ rw kept (inl (ground arith))
      | inr other ↦ rw (kept, other) (lookup-sweep k m d)
    ]
  ]

  admit_of_is_stale :
      (rps daily : ℤ) (later : ℕ) (st : KeyState)
      → is_stale date_of now st ≡ true
      → now ≤ later
      → st.daily_date ≢ date_of later
      → admit rps daily later (date_of later) st
        ≡ admit rps daily later (date_of later) (new_key later (date_of later))
  unfolding is_stale admit reset_daily reset_window count_request at_limit new_key
  admit_of_is_stale rps daily later st stale h ne =
      ground (arith, text_eq_iff st.daily_date (date_of later), text_eq_refl (date_of later))

  -- Deleting the stale entries changes neither the answer to a later request nor the entry that it
  -- leaves, provided that the date of a stale entry does not come back.
  pub allow-cleanup :
      (later : ℕ) (key : Text) (l : Limiter)
      → Distinct l.keys
      → now ≤ later
      → ((st : KeyState)
          → lookup key l.keys ≡ some st
          → is_stale date_of now st ≡ true
          → st.daily_date ≢ date_of later)
      → ((allow date_of later key (cleanup date_of now l)).1 ≡ (allow date_of later key l).1)
        × (lookup key (allow date_of later key (cleanup date_of now l)).0.keys
            ≡ lookup key (allow date_of later key l).0.keys)
  unfolding allow cleanup entry
  allow-cleanup later key l d h gone =
      let same : admit_entry (cleanup date_of now l) ≡ admit_entry l =
        elim (lookup-sweep key l.keys d) [
          | inl e ↦ rw (e, entry)
          | inr (st, e, stale, e') ↦
              rw (e, e', entry)
                (sym (admit_of_is_stale l.rps l.daily later st stale h (gone st e stale)))
        ] in
      (
        ap (λ (r : KeyState × Bool). r.1) same,
        lookup-allow date_of later key (cleanup date_of now l)
            ∙ ap (λ (r : KeyState × Bool). some r.0) same
            ∙ sym (lookup-allow date_of later key l),
      )
    where
      admit_entry : Limiter → KeyState × Bool
      admit_entry m = admit l.rps l.daily later (date_of later) (entry m key later (date_of later))
