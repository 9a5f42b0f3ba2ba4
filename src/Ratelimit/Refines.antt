-- ===== src/Ratelimit/Refines.antt =====
-- ratelimit/limiter.go: the limiter answers every sequence of calls as the log of what it let through.
use modigo_runner.Base.{
  ℕ, ◌≤◌, ◌≡◌, ◌≢◌, refl, sym, ap, subst, ◌∙◌, inl, inr, ℤ, Bool, true, false, List, [], ◌∷◌, none,
  some, Text, text_eq, text_eq_iff, text_eq_refl, arith, lookup, insert, lookup-insert,
  lookup-insert_self, if◌then◌else◌, Bool-cases, Option-cases,
}
use modigo_runner.Ratelimit.{
  KeyState, Limiter, new_limiter, entry, admit, allow, is_stale, sweep, cleanup,
}
use modigo_runner.Ratelimit.Cleanup.{Fresh, Distinct, lookup-sweep, sweep-Fresh}
use modigo_runner.Ratelimit.Logs.{
  Logs, Call, request, tick, Ordered, admits, update_log, log_answers, answers, Calendar,
}
use modigo_runner.Ratelimit.Logged.{
  Logged, removed, stored, Logged-later, count_on-passed, All-later,
}
use modigo_runner.Ratelimit.Admitted.{log_after, Answered, admit-stored, admit-removed}

module _ (v : KeyState) where
  insert-Fresh :
      (k j : Text) (m : List (Text × KeyState)) → j ≢ k → Fresh k m → Fresh k (insert j v m)
  unfolding insert
  insert-Fresh k j [] ne f = (ne, tt)
  insert-Fresh k j ((i, w) ∷ m) ne (fi, f) = elim (Bool-cases (text_eq i j)) [
    | inl e ↦ rw (e, insert) (ne, f)
    | inr e ↦ rw (e, insert) (fi, insert-Fresh k j m ne f)
  ]

  insert-Distinct : (k : Text) (m : List (Text × KeyState)) → Distinct m → Distinct (insert k v m)
  unfolding insert
  insert-Distinct k [] d = (tt, tt)
  insert-Distinct k ((j, w) ∷ m) (f, d) = elim (Bool-cases (text_eq j k)) [
    | inl e ↦ rw (e, insert) (subst (λ x. Fresh x m) ((text_eq_iff j k).0 e) f, d)
    | inr e ↦
        rw (e, insert)
          (
            insert-Fresh j k m (λ same. ground (arith, e, (text_eq_iff j k).1 (sym same))) f,
            insert-Distinct k m d,
          )
  ]

module _ (date_of : ℕ → Text) (calendar : Calendar date_of) where
  sweep-Distinct :
      (now : ℕ) (m : List (Text × KeyState)) → Distinct m → Distinct (sweep date_of now m)
  unfolding sweep
  sweep-Distinct now [] d = tt
  sweep-Distinct now ((k, st) ∷ m) (f, d) = elim (Bool-cases (is_stale date_of now st)) [
    | inl e ↦ rw (e, sweep) (sweep-Distinct now m d)
    | inr e ↦ rw (e, sweep) (sweep-Fresh date_of now k m f, sweep-Distinct now m d)
  ]

  -- Every entry of the limiter fits the log of its key.
  pub record Fits (now : ℕ) (l : Limiter) (logs : Logs) : Type 0 where
    pub distinct : Distinct l.keys
    pub logged : (key : Text) → Logged date_of calendar now (lookup key l.keys) (logs key)

  stale-removed :
      (now : ℕ) (st : KeyState) (log : List ℕ)
      → is_stale date_of now st ≡ true
      → Logged date_of calendar now (some st) log
      → Logged date_of calendar now none log
  unfolding is_stale
  stale-removed now st log stale (stored dated le date before count window) =
      removed
        (λ later h.
          count_on-passed date_of calendar dated later log (omega (arith, le, h))
            (λ q.
              let again = calendar dated now later le h q in
              let same = (text_eq_iff st.daily_date (date_of now)).1 (date ∙ q ∙ sym again) in
              ground (arith, stale, same))
            before)
        (All-later dated now log le before)
        (λ start count e. let same : st.window_start ≡ start = cc in ground (arith, stale, same))

  tick-Logged :
      (now : ℕ) (key : Text) (m : List (Text × KeyState)) (log : List ℕ)
      → Distinct m
      → Logged date_of calendar now (lookup key m) log
      → Logged date_of calendar now (lookup key (sweep date_of now m)) log
  tick-Logged now key m log d h = elim (lookup-sweep date_of now key m d) [
    | inl e ↦ subst (λ x. Logged date_of calendar now x log) (sym e) h
    | inr (st, e, stale, gone) ↦
        subst (λ x. Logged date_of calendar now x log) (sym gone)
          (stale-removed now st log stale (subst (λ x. Logged date_of calendar now x log) e h))
  ]

  tick-Fits :
      (t now : ℕ) (l : Limiter) (logs : Logs)
      → t ≤ now
      → Fits t l logs
      → Fits now (cleanup date_of now l) logs
  unfolding cleanup
  tick-Fits t now l logs h f = record {
    distinct = sweep-Distinct now l.keys f.distinct;
    logged = λ key.
        tick-Logged now key l.keys (logs key) f.distinct
          (Logged-later date_of calendar h (f.logged key));
  }

  entry-Answered :
      (now : ℕ) (key : Text) (l : Limiter) (log : List ℕ)
      → Logged date_of calendar now (lookup key l.keys) log
      → Answered date_of calendar l.rps l.daily now log
          (admit l.rps l.daily now (date_of now) (entry l key now (date_of now)))
  unfolding entry
  entry-Answered now key l log h = elim (Option-cases (lookup key l.keys)) [
    | inl e ↦
        rw (e, entry)
          (admit-removed date_of calendar l.rps l.daily now log
            (subst (λ x. Logged date_of calendar now x log) e h))
    | inr (st, e) ↦
        rw (e, entry)
          (admit-stored date_of calendar l.rps l.daily now st log
            (subst (λ x. Logged date_of calendar now x log) e h))
  ]

  -- The logs once a request has been answered.
  abbrev pub logs_after : Bool → Text → ℕ → Logs → Logs
  logs_after b key now logs = if b then update_log logs key now else logs

  logs_after_self :
      (b : Bool) (key : Text) (now : ℕ) (logs : Logs)
      → logs_after b key now logs key ≡ log_after date_of calendar b now (logs key)
  unfolding update_log
  logs_after_self true key now logs = rw (text_eq_refl key, update_log) refl
  logs_after_self false key now logs = refl

  logs_after-other :
      (b : Bool) (key other : Text) (now : ℕ) (logs : Logs)
      → text_eq key other ≡ false
      → logs_after b key now logs other ≡ logs other
  unfolding update_log
  logs_after-other true key other now logs e = rw (e, update_log) refl
  logs_after-other false key other now logs e = refl

  insert-Logged :
      (b : Bool) (key other : Text) (now : ℕ) (st : KeyState) (m : List (Text × KeyState))
      (logs : Logs)
      → Logged date_of calendar now (some st) (log_after date_of calendar b now (logs key))
      → Logged date_of calendar now (lookup other m) (logs other)
      → Logged date_of calendar now
          (lookup other (insert key st m))
          (logs_after b key now logs other)
  insert-Logged b key other now st m logs new old = elim (Bool-cases (text_eq key other)) [
    | inl e ↦
        let at_key : Logged date_of calendar now (lookup key (insert key st m))
            (logs_after b key now logs key) =
          subst (λ x. Logged date_of calendar now x (logs_after b key now logs key))
            (sym (lookup-insert_self key st m))
            (subst (λ x. Logged date_of calendar now (some st) x)
              (sym (logs_after_self b key now logs)) new) in
        subst
          (λ x.
            Logged date_of calendar now (lookup x (insert key st m)) (logs_after b key now logs x))
          ((text_eq_iff key other).0 e) at_key
    | inr e ↦
        let apart : lookup other (insert key st m) ≡ lookup other m =
          rw (lookup-insert key other st m, e) refl in
        subst (λ x. Logged date_of calendar now x (logs_after b key now logs other)) (sym apart)
          (subst (λ x. Logged date_of calendar now (lookup other m) x)
            (sym (logs_after-other b key other now logs e)) old)
  ]

  request-Fits :
      (t now : ℕ) (key : Text) (l : Limiter) (logs : Logs)
      → t ≤ now
      → Fits t l logs
      → ((allow date_of now key l).1 ≡ admits date_of l.rps l.daily now (logs key))
        × Fits now (allow date_of now key l).0 (logs_after (allow date_of now key l).1 key now logs)
  unfolding allow
  request-Fits t now key l logs h f =
      let st = entry l key now (date_of now) in
      let result = admit l.rps l.daily now (date_of now) st in
      let (answer, fits) =
        entry-Answered now key l (logs key) (Logged-later date_of calendar h (f.logged key)) in
      (
        answer,
        record {
          distinct = insert-Distinct result.0 key l.keys f.distinct;
          logged = λ other.
              insert-Logged result.1 key other now result.0 l.keys logs fits
                (Logged-later date_of calendar h (f.logged other));
        },
      )

  -- From limiters and logs that fit.
  answers-log_answers :
      (t : ℕ) (cs : List Call) (l : Limiter) (logs : Logs)
      → Ordered t cs
      → Fits t l logs
      → answers date_of cs l ≡ log_answers date_of l.rps l.daily cs logs
  unfolding answers log_answers allow cleanup
  answers-log_answers t [] l logs o f = refl
  answers-log_answers t (tick now ∷ cs) l logs (h, o) f =
      answers-log_answers now cs (cleanup date_of now l) logs o (tick-Fits t now l logs h f)
  answers-log_answers t (request now key ∷ cs) l logs (h, o) f =
      let (answer, fits) = request-Fits t now key l logs h f in
      let (l1, b) = allow date_of now key l in
      subst
        (λ x.
          b ∷ answers date_of cs l1
          ≡ x ∷ log_answers date_of l.rps l.daily cs (logs_after x key now logs))
        answer (ap (λ x. b ∷ x) (answers-log_answers now cs l1 (logs_after b key now logs) o fits))

  -- A new limiter answers every sequence of requests and ticks of the clean-up, in the order of their
  -- times, as one does that keeps all requests that it has let through for each key on its own and
  -- never cleans up (for dates that do not come back once they have passed).
  pub new_limiter_refines :
      (rps daily : ℤ) (cs : List Call)
      → Ordered 0 cs
      → answers date_of cs (new_limiter rps daily) ≡ log_answers date_of rps daily cs (λ key. [])
  unfolding new_limiter lookup
  new_limiter_refines rps daily cs o =
      answers-log_answers 0 cs (new_limiter rps daily) (λ key. []) o
        record { distinct = tt; logged = λ key. removed (λ later h. refl) tt (λ start count e. cc) }
