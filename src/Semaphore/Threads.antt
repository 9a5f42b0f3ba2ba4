-- ===== src/Semaphore/Threads.antt =====
-- executor/semaphore.go: goroutines that call the semaphore, in any order.
use modigo_runner.Base.{ℕ, zero, suc, ◌+◌, ◌≡◌, ℤ, Bool, List, [], ◌∷◌, ◌++◌, map}
use modigo_runner.Semaphore.{
  Semaphore, Outcome, acquired, aborted, waits, Kind, new_semaphore, enter, resume, release,
}

-- Where a goroutine stands: outside, in `cond.Wait`, woken and about to lock the mutex, or with a slot.
pub data Pc : Type 0 where
  outside holding : Pc
  asleep awake : Kind → Pc

pub record System : Type 0 where
  pub sem : Semaphore
  pub threads : List Pc

unfoldable pub after : Kind → Outcome → Pc
after k acquired = holding
after k aborted = outside
after k waits = asleep k

unfoldable pub wake : Pc → Pc
wake (asleep k) = awake k
wake p = p

unfoldable pub weigh : (Pc → ℕ) → List Pc → ℕ
weigh w [] = 0
weigh w (p ∷ ps) = w p + weigh w ps

unfoldable pub is_holding : Pc → ℕ
is_holding holding = 1
is_holding _ = 0

unfoldable pub is_asleep : Pc → ℕ
is_asleep (asleep k) = 1
is_asleep _ = 0

unfoldable pub is_awake : Pc → ℕ
is_awake (awake k) = 1
is_awake _ = 0

unfoldable pub idle_threads : ℕ → List Pc
idle_threads zero = []
idle_threads (suc n) = outside ∷ idle_threads n

-- `cond.Signal` wakes one goroutine that waits, if there is one.
pub data Signal (ts us : List Pc) : Type 0 where
  nobody : weigh is_asleep ts ≡ 0 → us ≡ ts → Signal ts us
  somebody :
      (k : Kind) (a b : List Pc) → ts ≡ a ++ asleep k ∷ b → us ≡ a ++ awake k ∷ b → Signal ts us

-- One piece of code under the mutex. `tick` is the broadcast of a ticker of `AcquireContext`.
pub data Step (s t : System) : Type 0 where
  call :
      (k : Kind) (expired : Bool) (a b : List Pc)
      → s.threads ≡ a ++ outside ∷ b
      → t ≡ record {
        sem = (enter k expired s.sem).0;
        threads = a ++ after k (enter k expired s.sem).1 ∷ b;
      }
      → Step s t
  resumes :
      (k : Kind) (expired : Bool) (a b : List Pc)
      → s.threads ≡ a ++ awake k ∷ b
      → t ≡ record {
        sem = (resume k expired s.sem).0;
        threads = a ++ after k (resume k expired s.sem).1 ∷ b;
      }
      → Step s t
  releases :
      (a b us : List Pc)
      → s.threads ≡ a ++ holding ∷ b
      → Signal (a ++ outside ∷ b) us
      → t ≡ record { sem = release s.sem; threads = us }
      → Step s t
  tick : t ≡ record { sem = s.sem; threads = map wake s.threads } → Step s t

abbrev pub start_of : ℤ → ℕ → System
start_of max n = record { sem = new_semaphore max; threads = idle_threads n }

-- At the start `n` goroutines stand outside a new semaphore.
pub data Reach (max : ℤ) : System → Type 0 where
  start : {s : System} (n : ℕ) → s ≡ start_of max n → Reach max s
  later : {s t : System} → Reach max s → Step s t → Reach max t
