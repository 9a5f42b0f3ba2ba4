-- ===== src/Semaphore/Invariant.antt =====
-- executor/semaphore.go: what the counters say of the goroutines, and that no wake-up is lost.
use modigo_runner.Base.{
  ℕ, zero, suc, ◌+◌, ◌-◌, ◌≤◌, ◌<◌, ◌≡◌, refl, ◌∙◌, ap, sym, ℤ, pos, pos_part, ltb_ℤ, Bool, true,
  List, [], ◌∷◌, ◌++◌, map, arith,
}
use modigo_runner.Semaphore.{
  Semaphore, acquired, Kind, plain, bounded, new_semaphore, enter, resume, release, available,
}
use modigo_runner.Semaphore.Threads.{
  Pc, outside, holding, asleep, awake, System, after, wake, weigh, is_holding, is_asleep, is_awake,
  Signal, nobody, somebody, idle_threads, start_of, Step, call, resumes, releases, tick, Reach,
  start, later,
}

weigh-split :
    (w : Pc → ℕ) (a : List Pc) (p : Pc) (b : List Pc)
    → weigh w (a ++ p ∷ b) ≡ weigh w a + weigh w b + w p
unfolding weigh
weigh-split w [] p b = omega arith
weigh-split w (q ∷ a) p b = omega (arith, weigh-split w a p b)

-- What the invariant says of three numbers: goroutines with a slot, asleep, and awake.
pub record Counted (s : Semaphore) (held slept woken : ℕ) : Type 0 where
  pub current : s.current ≡ pos held
  pub queue : s.queue_len ≡ pos (slept + woken)
  pub within : held ≤ pos_part s.max
  pub no_lost : 0 < slept → pos_part s.max ≤ held + woken

abbrev pub Inv : System → Type 0
Inv s =
    Counted s.sem (weigh is_holding s.threads) (weigh is_asleep s.threads)
      (weigh is_awake s.threads)

module _ (s : Semaphore) (h l u : ℕ) where
  -- The goroutine that runs is not in the three numbers.
  enter-Counted :
      (k : Kind) (expired : Bool)
      → Counted s h l u
      → Counted
          (enter k expired s).0
          (h + is_holding (after k (enter k expired s).1))
          (l + is_asleep (after k (enter k expired s).1))
          (u + is_awake (after k (enter k expired s).1))
  unfolding enter after is_holding is_asleep is_awake
  enter-Counted plain expired c = ground arith
  enter-Counted bounded expired c = ground arith

  resume-Counted :
      (k : Kind) (expired : Bool)
      → Counted s h l (u + 1)
      → Counted
          (resume k expired s).0
          (h + is_holding (after k (resume k expired s).1))
          (l + is_asleep (after k (resume k expired s).1))
          (u + is_awake (after k (resume k expired s).1))
  unfolding resume after is_holding is_asleep is_awake
  resume-Counted plain expired c = ground arith
  resume-Counted bounded expired c = ground arith

  release-Counted : Counted s (h + 1) l u → l ≡ 0 → Counted (release s) h l u
  unfolding release
  release-Counted c none_asleep = ground arith

  signal-Counted : Counted s (h + 1) (l + 1) u → Counted (release s) h l (u + 1)
  unfolding release
  signal-Counted c = ground arith

  broadcast-Counted : Counted s h l u → Counted s h 0 (l + u)
  broadcast-Counted c = ground arith

Counted-cast :
    {s : Semaphore} {h l u h' l' u' : ℕ}
    → Counted s h l u
    → h ≡ h'
    → l ≡ l'
    → u ≡ u'
    → Counted s h' l' u'
Counted-cast c eh el eu = rw (← eh, ← el, ← eu) c

module _ (a b : List Pc) where
  abbrev others : (Pc → ℕ) → ℕ
  others w = weigh w a + weigh w b

  -- The invariant with one goroutine taken out of the three numbers, and put back.
  Inv-split :
      {s : System} (p : Pc)
      → s.threads ≡ a ++ p ∷ b
      → Inv s
      → Counted s.sem
          (others is_holding + is_holding p)
          (others is_asleep + is_asleep p)
          (others is_awake + is_awake p)
  Inv-split p e i =
      Counted-cast i (ap (weigh is_holding) e ∙ weigh-split is_holding a p b)
        (ap (weigh is_asleep) e ∙ weigh-split is_asleep a p b)
        (ap (weigh is_awake) e ∙ weigh-split is_awake a p b)

  Inv-join :
      (sem : Semaphore) (p : Pc)
      → Counted sem
          (others is_holding + is_holding p)
          (others is_asleep + is_asleep p)
          (others is_awake + is_awake p)
      → Inv (record { sem = sem; threads = a ++ p ∷ b })
  Inv-join sem p c =
      Counted-cast c (sym (weigh-split is_holding a p b)) (sym (weigh-split is_asleep a p b))
        (sym (weigh-split is_awake a p b))

call-Inv :
    {s : System} (k : Kind) (expired : Bool) (a b : List Pc)
    → s.threads ≡ a ++ outside ∷ b
    → Inv s
    → Inv (record {
      sem = (enter k expired s.sem).0;
      threads = a ++ after k (enter k expired s.sem).1 ∷ b;
    })
unfolding is_holding is_asleep is_awake
call-Inv {s} k expired a b e i = Inv-join a b _ _ (
    enter-Counted s.sem _ _ _ k expired
      (Counted-cast (Inv-split a b outside e i) (omega arith) (omega arith) (omega arith)))

resume-Inv :
    {s : System} (k : Kind) (expired : Bool) (a b : List Pc)
    → s.threads ≡ a ++ awake k ∷ b
    → Inv s
    → Inv (record {
      sem = (resume k expired s.sem).0;
      threads = a ++ after k (resume k expired s.sem).1 ∷ b;
    })
unfolding is_holding is_asleep is_awake
resume-Inv {s} k expired a b e i = Inv-join a b _ _ (
    resume-Counted s.sem _ _ _ k expired
      (Counted-cast (Inv-split a b (awake k) e i) (omega arith) (omega arith) (omega arith)))

weigh-wake :
    (ts : List Pc)
    → (weigh is_holding (map wake ts) ≡ weigh is_holding ts)
      × (weigh is_asleep (map wake ts) ≡ 0)
      × (weigh is_awake (map wake ts) ≡ weigh is_asleep ts + weigh is_awake ts)
unfolding weigh wake is_holding is_asleep is_awake
weigh-wake [] = (refl, refl, refl)
weigh-wake (outside ∷ ts) = omega (arith, weigh-wake ts)
weigh-wake (holding ∷ ts) = omega (arith, weigh-wake ts)
weigh-wake (asleep k ∷ ts) = omega (arith, weigh-wake ts)
weigh-wake (awake k ∷ ts) = omega (arith, weigh-wake ts)

tick-Inv : (s : System) → Inv s → Inv (record { sem = s.sem; threads = map wake s.threads })
tick-Inv s i =
    let (eh, el, eu) = weigh-wake s.threads in
    Counted-cast (broadcast-Counted s.sem _ _ _ i) (sym eh) (sym el) (sym eu)

signal-Inv :
    (sem : Semaphore) (ts us : List Pc)
    → Signal ts us
    → Counted sem (weigh is_holding ts + 1) (weigh is_asleep ts) (weigh is_awake ts)
    → Inv (record { sem = release sem; threads = us })
unfolding is_holding is_asleep is_awake
signal-Inv sem ts us (nobody none_asleep e) c = rw e (release-Counted sem _ _ _ c none_asleep)
signal-Inv sem ts us (somebody k a b e e') c = rw e' (
    Inv-join a b (release sem) (awake k) (
      Counted-cast
        (signal-Counted sem (others a b is_holding) (others a b is_asleep) (others a b is_awake)
          (Counted-cast c (holders k a b e) (sleepers k a b e) (woken k a b e)))
        (omega arith) (omega arith) (omega arith)))
  where
    holders :
        (k : Kind) (a b : List Pc)
        → ts ≡ a ++ asleep k ∷ b
        → weigh is_holding ts + 1 ≡ others a b is_holding + 1
    holders k a b e = omega (arith, ap (weigh is_holding) e, weigh-split is_holding a (asleep k) b)

    sleepers :
        (k : Kind) (a b : List Pc)
        → ts ≡ a ++ asleep k ∷ b
        → weigh is_asleep ts ≡ others a b is_asleep + 1
    sleepers k a b e = omega (arith, ap (weigh is_asleep) e, weigh-split is_asleep a (asleep k) b)

    woken :
        (k : Kind) (a b : List Pc)
        → ts ≡ a ++ asleep k ∷ b
        → weigh is_awake ts ≡ others a b is_awake
    woken k a b e = omega (arith, ap (weigh is_awake) e, weigh-split is_awake a (asleep k) b)

release-Inv :
    {s : System} (a b us : List Pc)
    → s.threads ≡ a ++ holding ∷ b
    → Signal (a ++ outside ∷ b) us
    → Inv s
    → Inv (record { sem = release s.sem; threads = us })
unfolding is_holding is_asleep is_awake
release-Inv {s} a b us e sg i = signal-Inv s.sem (a ++ outside ∷ b) us sg (
    Counted-cast (Inv-split a b holding e i) (omega (arith, weigh-split is_holding a outside b))
      (omega (arith, weigh-split is_asleep a outside b))
      (omega (arith, weigh-split is_awake a outside b)))

Step-Inv : {s t : System} → Step s t → Inv s → Inv t
Step-Inv (call k expired a b e e') i = rw e' (call-Inv k expired a b e i)
Step-Inv (resumes k expired a b e e') i = rw e' (resume-Inv k expired a b e i)
Step-Inv (releases a b us e sg e') i = rw e' (release-Inv a b us e sg i)
Step-Inv {s} (tick e') i = rw e' (tick-Inv s i)

weigh-idle_threads : (w : Pc → ℕ) (n : ℕ) → w outside ≡ 0 → weigh w (idle_threads n) ≡ 0
unfolding weigh idle_threads
weigh-idle_threads w zero h = refl
weigh-idle_threads w (suc n) h = omega (arith, weigh-idle_threads w n h)

start-Inv : (max : ℤ) (n : ℕ) → Inv (start_of max n)
unfolding new_semaphore is_holding is_asleep is_awake
start-Inv max n =
    Counted-cast
      (let c : Counted (new_semaphore max) 0 0 0 = record {
        current = refl;
        queue = refl;
        within = omega arith;
        no_lost = λ h. omega arith;
      } in
        c)
      (sym (weigh-idle_threads is_holding n refl)) (sym (weigh-idle_threads is_asleep n refl))
      (sym (weigh-idle_threads is_awake n refl))

enter-max : (k : Kind) (expired : Bool) (s : Semaphore) → (enter k expired s).0.max ≡ s.max
unfolding enter
enter-max plain expired s = ground arith
enter-max bounded expired s = ground arith

resume-max : (k : Kind) (expired : Bool) (s : Semaphore) → (resume k expired s).0.max ≡ s.max
unfolding resume
resume-max plain expired s = ground arith
resume-max bounded expired s = ground arith

Step-max : {s t : System} → Step s t → t.sem.max ≡ s.sem.max
unfolding release
Step-max {s} (call k expired a b e e') = rw e' (enter-max k expired s.sem)
Step-max {s} (resumes k expired a b e e') = rw e' (resume-max k expired s.sem)
Step-max (releases a b us e sg e') = rw e'
Step-max (tick e') = rw e'

-- In every reachable state `current` is the number of goroutines that have a slot and `queueLen` the
-- number of those that wait or have been woken; at most `max` (none, if it is negative) have a slot;
-- while a goroutine sleeps, the free slots are all spoken for by goroutines that are awake; and `max`
-- is the one given at the start.
pub Reach-Inv : {max : ℤ} {s : System} → Reach max s → Inv s × (s.sem.max ≡ max)
unfolding new_semaphore
Reach-Inv {max} (start n e) = rw e (start-Inv max n, refl)
Reach-Inv (later r st) = let (i, e) = Reach-Inv r in (Step-Inv st i, Step-max st ∙ e)

resume-acquires :
    (k : Kind) (expired : Bool) (s : Semaphore)
    → ltb_ℤ s.current s.max ≡ true
    → (resume k expired s).1 ≡ acquired
unfolding resume
resume-acquires plain expired s h = ground arith
resume-acquires bounded expired s h = ground arith

-- No wake-up is lost: in a reachable state with a free slot and a goroutine asleep, another goroutine
-- is awake, and whichever runs next gets the slot, even if its context has expired.
pub no_lost_wakeup :
    {max : ℤ} {s : System}
    → Reach max s
    → ltb_ℤ s.sem.current s.sem.max ≡ true
    → 0 < weigh is_asleep s.threads
    → (0 < weigh is_awake s.threads)
      × ((k : Kind) (expired : Bool) → (resume k expired s.sem).1 ≡ acquired)
no_lost_wakeup {s} r free sleeper =
    let i = (Reach-Inv r).0 in
    (ground (arith, i.no_lost, i.current), λ k expired. resume-acquires k expired s.sem free)

-- In a reachable state `Available` is what `max` leaves beside the goroutines with a slot, and they
-- add up to `max` if that is not negative.
pub available_lem :
    {m : ℕ} {s : System}
    → Reach (pos m) s
    → (available s.sem ≡ pos (m - weigh is_holding s.threads)) × (weigh is_holding s.threads ≤ m)
unfolding available
available_lem r = let (i, e) = Reach-Inv r in ground (arith, i.current, i.within, e)
