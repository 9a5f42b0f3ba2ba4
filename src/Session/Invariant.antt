-- ===== src/Session/Invariant.antt =====
-- handler/websocket.go: what a session owns at every point it can reach.
use modigo_runner.Base.{
  refl, ◌⊎◌, ℕ, suc, ◌+◌, ◌≡◌, ◌∙◌, ap, subst, sym, pos, true, false, List, [], ◌∷◌, ◌++◌, Option,
  none, is_some, Text, All, length, arith, inl, inr,
}
use modigo_runner.Docker.{DockerClient}
use modigo_runner.Lab.{LabManager}
use modigo_runner.Docker.Calls.{containers}
use modigo_runner.Docker.Leaks.{NewNames}
use modigo_runner.Users.{count_of}
use modigo_runner.Session.{next_generation, acquire_slot, send_error, ClientMessage}
use modigo_runner.Docker.Stage.{File}
use modigo_runner.Session.Run.{
  HandlerAnswers, take_user_slot, run_begun, run_created, dec_user, at_capacity, Goroutine,
}
use modigo_runner.Session.Exit.{ExitAnswers, advance}
use modigo_runner.Session.Elsewhere.{
  Closed, disconnect-Closed, advance-Closed, bridge-Closed, kill-Closed, reap_shell-Closed,
  expires-Owns, calls-Owns, shares-Owns,
}
use modigo_runner.Session.LabsOwned.{disconnect-Mine}
use modigo_runner.Session.Dispatch.{receive}
use modigo_runner.Session.Received.{
  length-append, run_count-append, length-between, run_count-between, receive-Kept,
}
use modigo_runner.Session.Threads.{
  System, idle, awaiting, creating, pending_slots, pending_counts, begins, enters, gives_up,
  creates, counts, Step, receives, advances, prints, kills, reaps, disconnects, expires, calls,
  shares, Reach, start, later,
}
use modigo_runner.Session.Owned.{
  next_generation-Owns, acquire_slot-Owns, dec_user-Owns, st-Owns, take_user_slot-Owns,
  admitted_Owns, Left, Owns, sent-Owns,
}
use modigo_runner.Session.Opened.{next_generation-session, run_count}
use modigo_runner.Session.Kept.{run_created-Kept, weighed}
use modigo_runner.Session.Ended.{advance-Kept}
use modigo_runner.Session.Steady.{bridge-Mine, kill-Mine, reap_shell-Mine}

Left-none : (Base : Text → Type 0) (ids : List Text) → Left Base none ids → All Base ids
Left-none Base [] h = tt
Left-none Base (x ∷ xs) (inl h, hs) = absurd h
Left-none Base (x ∷ xs) (inr h, hs) = (h, Left-none Base xs hs)

module _ (user : Text) (Base Nets : Text → Type 0) (others : ℕ) (d : DockerClient)
    (labs : Option LabManager) where
  abbrev pub slots_of : System → ℕ
  slots_of s = length s.goroutines + pending_slots s.pending

  abbrev pub counts_of : System → ℕ
  counts_of s = run_count s.goroutines + pending_counts s.pending

  -- What the session owns, beside the slots that others hold; that it is closed while the handler of a
  -- run is under way, and after the end of the connection; and that no handler is under way then.
  pub record OwnsAll (s : System) : Type 0 where
    pub owns : Owns user Base s.held others s.world (slots_of s) (counts_of s)
    pub closed : (s.is_open ≡ false) ⊎ (pending_counts s.pending ≡ 1) → Closed s.world
    pub resting : s.is_open ≡ false → s.pending ≡ idle

  -- While the connection is open and no handler is under way, nothing is asked of the session.
  open_and_idle :
      (s : System) → s.is_open ≡ true → (s.is_open ≡ false) ⊎ (pending_counts idle ≡ 1) → ⊥
  open_and_idle s is_open (inl shut) = absurd (ground (arith, is_open, shut))
  open_and_idle s is_open (inr e) = absurd (ground arith)

  advances-Owns :
      (a : ExitAnswers) (s : System) (before : List Goroutine) (g : Goroutine)
      (after : List Goroutine)
      → s.goroutines ≡ before ++ g ∷ after
      → Owns user Base s.held others s.world (slots_of s) (counts_of s)
      → let (w, gs) = advance a g s.world in
        Owns user Base s.held others w
          (length (before ++ gs ++ after) + pending_slots s.pending)
          (run_count (before ++ gs ++ after) + pending_counts s.pending)
  advances-Owns a s before g after e o =
      let (w, gs) = advance a g s.world in
      let k = length before + length after + pending_slots s.pending in
      let r = run_count before + run_count after + pending_counts s.pending in
      let all = ap length e ∙ length-append before (g ∷ after) in
      let runs = ap run_count e ∙ run_count-append before (g ∷ after) in
      let o1 =
        weighed user Base s.held others s.world _ (suc k) _ (counts g + r) o (omega (arith, all))
          (omega (arith, runs)) in
      let k_after = length-between before gs after in
      let r_after = run_count-between before gs after in
      weighed user Base s.held others w _ _ _ _
        (advance-Kept user Base s.held others a g s.world k r o1) (omega (arith, k_after))
        (omega (arith, r_after))

  begins-Owns :
      (s : System)
      → s.pending ≡ idle
      → (take_user_slot s.world).0 ≡ true
      → Owns user Base s.held others s.world (slots_of s) (counts_of s)
      → Owns user Base s.held others
          (run_begun (take_user_slot s.world).1)
          (length s.goroutines + 0)
          (run_count s.goroutines + 1)
  begins-Owns s e admitted o =
      let k = length s.goroutines in
      let r = run_count s.goroutines in
      let slots = ap pending_slots e in
      let counted = ap pending_counts e in
      let o1 =
        weighed user Base s.held others s.world _ k _ r o (omega (arith, slots))
          (omega (arith, counted)) in
      let o2 =
        admitted_Owns user Base s.held others k r (take_user_slot s.world) admitted
          (take_user_slot-Owns user Base s.held others s.world k r o1) in
      let w1 = next_generation (take_user_slot s.world).1 in
      let o3 = next_generation-Owns user Base s.held others _ k (suc r) o2 in
      weighed user Base s.held others _ k _ (suc r) _
        (st-Owns user Base s.held others w1 k (suc r) (record w1.st { timed_out = false }) o3 refl
          refl)
        (omega arith) (omega arith)

  gives_up-Owns :
      (s : System)
      → s.pending ≡ awaiting
      → Owns user Base s.held others s.world (slots_of s) (counts_of s)
      → Owns user Base s.held others
          (send_error at_capacity (dec_user s.world))
          (length s.goroutines + 0)
          (run_count s.goroutines + 0)
  gives_up-Owns s e o =
      let k = length s.goroutines in
      let r = run_count s.goroutines in
      let slots = ap pending_slots e in
      let counted = ap pending_counts e in
      let o1 =
        weighed user Base s.held others s.world _ k _ (suc r) o (omega (arith, slots))
          (omega (arith, counted)) in
      weighed user Base s.held others _ k _ r _
        (sent-Owns user Base s.held others _ k r _
          (dec_user-Owns user Base s.held others s.world k r o1))
        (omega arith) (omega arith)

  creates-Owns :
      (a : HandlerAnswers) (m : ClientMessage) (code : Text) (extra : List File) (s : System)
      → s.pending ≡ creating
      → NewNames s.world.trace a.docker.create a.docker.temp_dir
      → Closed s.world
      → Owns user Base s.held others s.world (slots_of s) (counts_of s)
      → let (w, gs) = run_created d (is_some labs) a m code extra s.world in
        Owns user Base s.held others w
          (length (gs ++ s.goroutines) + 0)
          (run_count (gs ++ s.goroutines) + 0)
  creates-Owns a m code extra s e fresh closed o =
      let (w, gs) = run_created d (is_some labs) a m code extra s.world in
      let k = length s.goroutines in
      let r = run_count s.goroutines in
      let slots = ap pending_slots e in
      let counted = ap pending_counts e in
      let o1 =
        weighed user Base s.held others s.world _ (suc k) _ (suc r) o (omega (arith, slots))
          (omega (arith, counted)) in
      let kept =
        run_created-Kept user Base s.held others d (is_some labs) a m code extra s.world k r o1
          closed fresh in
      let k_after = length-append gs s.goroutines in
      let r_after = run_count-append gs s.goroutines in
      weighed user Base s.held others w _ _ _ _ kept (omega (arith, k_after))
        (omega (arith, r_after))

  Step-OwnsAll : (s t : System) → OwnsAll s → Step d labs Base Nets s t → OwnsAll t
  unfolding acquire_slot dec_user
  Step-OwnsAll s _ o (receives a m is_open rest fresh targets new_network) = record {
    owns =
        let (w, gs) = receive d labs a m s.world in
        let kept =
          receive-Kept user Base s.held others d labs a m s.world (slots_of s) (counts_of s) o.owns
            fresh targets in
        let k_after = length-append gs s.goroutines in
        let r_after = run_count-append gs s.goroutines in
        weighed user Base s.held others w _ _ _ _ kept (omega (arith, k_after))
          (omega (arith, r_after));
    closed = λ why. absurd (
        open_and_idle s is_open
          (elim why [ inl shut ↦ inl shut | inr e ↦ inr (sym (ap pending_counts rest) ∙ e) ]));
    resting = λ shut. rest;
  }
  Step-OwnsAll s _ o (disconnects is_open rest) = record {
    owns = disconnect-Mine user Base s.held others (is_some labs) s.world _ _ o.owns;
    closed = λ why. disconnect-Closed (is_some labs) s.world;
    resting = λ shut. rest;
  }
  Step-OwnsAll s _ o (begins is_open rest admitted) = record {
    owns = begins-Owns s rest admitted o.owns;
    closed = λ why. next_generation-session (take_user_slot s.world).1;
    resting = λ shut. absurd (ground (arith, is_open, shut));
  }
  Step-OwnsAll s _ o (enters is_open waits) = record {
    owns =
        let slots = ap pending_slots waits in
        let counted = ap pending_counts waits in
        weighed user Base s.held others _ _ _ _ _
          (acquire_slot-Owns user Base s.held others s.world _ _ o.owns) (omega (arith, slots))
          (omega (arith, counted));
    closed = λ why. o.closed (inr (ap pending_counts waits));
    resting = λ shut. absurd (ground (arith, is_open, shut));
  }
  Step-OwnsAll s _ o (gives_up is_open waits) = record {
    owns = gives_up-Owns s waits o.owns;
    closed = λ why. absurd (open_and_idle s is_open why);
    resting = λ shut. refl;
  }
  Step-OwnsAll s _ o (creates a m code extra is_open waits fresh) = record {
    owns =
        creates-Owns a m code extra s waits fresh (o.closed (inr (ap pending_counts waits))) o.owns;
    closed = λ why. absurd (open_and_idle s is_open why);
    resting = λ shut. refl;
  }
  Step-OwnsAll s _ o (advances a before g after e) = record {
    owns = advances-Owns a s before g after e o.owns;
    closed = λ shut. advance-Closed a g s.world (o.closed shut);
    resting = o.resting;
  }
  Step-OwnsAll s _ o (prints gen text) = record {
    owns = bridge-Mine user Base s.held others gen text s.world _ _ o.owns;
    closed = λ shut. bridge-Closed gen text s.world (o.closed shut);
    resting = o.resting;
  }
  Step-OwnsAll s _ o (kills gen) = record {
    owns = kill-Mine user Base s.held others gen s.world _ _ o.owns;
    closed = λ shut. kill-Closed gen s.world (o.closed shut);
    resting = o.resting;
  }
  Step-OwnsAll s _ o (reaps gen now) = record {
    owns = reap_shell-Mine user Base s.held others gen now s.world _ _ o.owns;
    closed = λ shut. reap_shell-Closed gen now s.world (o.closed shut);
    resting = o.resting;
  }
  Step-OwnsAll s _ o (expires lab) = record {
    owns = expires-Owns user Base Nets s.held others lab s.world _ _ o.owns;
    closed = o.closed;
    resting = o.resting;
  }
  Step-OwnsAll s _ o (calls e foreign) = record {
    owns = calls-Owns user Base Nets s.held others e s.world _ _ foreign o.owns;
    closed = o.closed;
    resting = o.resting;
  }
  Step-OwnsAll s _ o (shares held users count runs) = record {
    owns = shares-Owns user Base Nets s.held others held users s.world _ _ count runs o.owns;
    closed = o.closed;
    resting = o.resting;
  }

  -- At every point that a session can reach, with labs or without, its handlers one at a time, that of
  -- a run in three steps and each other in one, and others taking steps in between, of which no session is the same user's: each of its goroutines, and a run
  -- whose container is being created, has one slot of the semaphore, beside those held by others; each
  -- goroutine of a run, and a run that has begun, counts once for the user, beside what else is counted;
  -- no run is tracked for eviction; every container that has been created and not removed is that of the
  -- session, or of `Base`, those of others and the targets of labs; and the session has none while a run
  -- begins and after the connection ended (from a state of which this holds).
  pub Reach-Owns : (s t : System) → OwnsAll s → Reach d labs Base Nets s t → OwnsAll t
  Reach-Owns s _ o start = o
  Reach-Owns s t o (later {s = u} reach step) = Step-OwnsAll u t (Reach-Owns s u o reach) step

  -- When the connection has ended and all goroutines of the session have, in whatever order, the slots
  -- that are held and the count of the user are those of the others, and no container of the session is
  -- left beside those of `Base`, of others and the targets of labs (for a session, with labs or without,
  -- that started in a state of which its invariant holds, while no other session of its user is open).
  pub disconnect-nothing_left :
      (s t : System)
      → OwnsAll s
      → Reach d labs Base Nets s t
      → t.is_open ≡ false
      → t.goroutines ≡ []
      → (t.world.slots ≡ t.held)
        × (count_of user t.world.users ≡ pos others)
        × All Base (containers t.world.trace)
  disconnect-nothing_left s t o reach shut ended =
      let end = Reach-Owns s t o reach in
      let slots = ap pending_slots (end.resting shut) in
      let counted = ap pending_counts (end.resting shut) in
      let no_slots = ap length ended in
      let no_runs = ap run_count ended in
      let o2 =
        weighed user Base t.held others _ _ 0 _ 0 end.owns (omega (arith, slots, no_slots))
          (omega (arith, counted, no_runs)) in
      let left =
        subst (λ c. Left Base c (containers t.world.trace)) (end.closed (inl shut)) o2.left in
      (o2.slots ∙ omega arith, o2.count ∙ ap pos (omega arith), Left-none Base _ left)
