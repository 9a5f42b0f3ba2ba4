-- ===== src/Semaphore/Examples.antt =====
-- A semaphore of one slot and three goroutines.
use modigo_runner.Base.{ℕ, ◌<◌, ◌≡◌, refl, pos, Bool, false, [], ◌∷◌, arith}
use modigo_runner.Semaphore.{
  Semaphore, acquired, Kind, plain, bounded, new_semaphore, enter, resume, release, available,
}
use modigo_runner.Semaphore.Threads.{
  outside, holding, asleep, awake, System, after, wake, weigh, is_holding, is_asleep, is_awake,
  idle_threads, somebody, start_of, call, releases, Reach, start, later,
}
use modigo_runner.Semaphore.Invariant.{Inv, Reach-Inv, no_lost_wakeup}

semaphore_code : Unit {0}
unfolding enter resume release after wake weigh is_holding is_asleep is_awake idle_threads
    new_semaphore available
semaphore_code = tt

abbrev one_slot : ℕ → ℕ → Semaphore
one_slot held queued = record { current = pos held; max = pos 1; queue_len = pos queued }

abbrev taken : System
taken = record { sem = one_slot 1 0; threads = holding ∷ outside ∷ outside ∷ [] }

abbrev queued : System
queued = record { sem = one_slot 1 1; threads = holding ∷ asleep plain ∷ outside ∷ [] }

abbrev full : System
full = record { sem = one_slot 1 2; threads = holding ∷ asleep plain ∷ asleep bounded ∷ [] }

-- The first goroutine has released its slot and woken the second.
abbrev handed : System
handed = record { sem = one_slot 0 2; threads = outside ∷ awake plain ∷ asleep bounded ∷ [] }

Reach-handed : Reach (pos 1) handed
unfolding semaphore_code
Reach-handed =
    later {s = full}
      (later {s = queued}
        (later {s = taken}
          (later {s = start_of (pos 1) 3} (start 3 refl)
            (call plain false [] (outside ∷ outside ∷ []) refl refl))
          (call plain false (holding ∷ []) (outside ∷ []) refl refl))
        (call bounded false (holding ∷ asleep plain ∷ []) [] refl refl))
      (releases [] (asleep plain ∷ asleep bounded ∷ [])
        (outside ∷ awake plain ∷ asleep bounded ∷ []) refl
        (somebody plain (outside ∷ []) (asleep bounded ∷ []) refl refl) refl)

Reach-Inv_example : Inv handed × (handed.sem.max ≡ pos 1)
Reach-Inv_example = Reach-Inv Reach-handed

no_lost_wakeup_example :
    (0 < weigh is_awake handed.threads)
    × ((k : Kind) (expired : Bool) → (resume k expired handed.sem).1 ≡ acquired)
unfolding weigh is_asleep
no_lost_wakeup_example = no_lost_wakeup Reach-handed refl (omega arith)
