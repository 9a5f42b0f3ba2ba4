-- ===== src/Semaphore.antt =====
-- executor/semaphore.go: the limit on running containers, as the pieces of code that run under the
-- mutex. A piece ends by returning, or in `cond.Wait`, which lets go of the mutex.
pub mod Threads
pub mod Invariant
mod Examples
use modigo_runner.Base.{ℕ, ℤ, pos, ◌+ℤ◌, ◌-ℤ◌, leb_ℤ, ltb_ℤ, Bool, true, false, if◌then◌else◌}

pub record Semaphore : Type 0 where
  pub current : ℤ
  pub max : ℤ
  pub queue_len : ℤ

-- How a piece of code ends: with a slot, with the context's error, or in `cond.Wait`.
pub data Outcome : Type 0 where
  acquired aborted waits : Outcome

-- `Acquire`, or `AcquireContext` with its deadline.
pub data Kind : Type 0 where
  plain bounded : Kind

unfoldable pub new_semaphore : ℤ → Semaphore
new_semaphore max = record { current = pos 0; max = max; queue_len = pos 0 }

-- `Acquire` up to its end or its first `Wait`.
unfoldable pub acquire : Semaphore → Semaphore × Outcome
unfolding ◌+ℤ◌
acquire s =
    if leb_ℤ s.max s.current
    then (record s { queue_len = s.queue_len +ℤ pos 1 }, waits)
    else (record s { current = s.current +ℤ pos 1 }, acquired)

-- `Acquire` when `Wait` returns: `queueLen--`, and the test of the loop again.
unfoldable pub acquire_resume : Semaphore → Semaphore × Outcome
unfolding acquire ◌-ℤ◌
acquire_resume s = acquire (record s { queue_len = s.queue_len -ℤ pos 1 })

-- The loop of `AcquireContext`; the deferred `queueLen--` runs when it returns.
unfoldable pub context_loop : Bool → Semaphore → Semaphore × Outcome
unfolding ◌+ℤ◌ ◌-ℤ◌
context_loop expired s =
    if leb_ℤ s.max s.current
    then (if expired then (record s { queue_len = s.queue_len -ℤ pos 1 }, aborted) else (s, waits))
    else (record s { current = s.current +ℤ pos 1; queue_len = s.queue_len -ℤ pos 1 }, acquired)

unfoldable pub acquire_context : Bool → Semaphore → Semaphore × Outcome
unfolding context_loop
acquire_context expired s =
    if ltb_ℤ s.current s.max
    then (record s { current = s.current +ℤ pos 1 }, acquired)
    else context_loop expired (record s { queue_len = s.queue_len +ℤ pos 1 })

-- A call, and what a waiter does when it has been woken; `expired` is `ctx.Err() != nil`.
unfoldable pub enter : Kind → Bool → Semaphore → Semaphore × Outcome
unfolding acquire acquire_context
enter plain expired s = acquire s
enter bounded expired s = acquire_context expired s

unfoldable pub resume : Kind → Bool → Semaphore → Semaphore × Outcome
unfolding acquire_resume context_loop
resume plain expired s = acquire_resume s
resume bounded expired s = context_loop expired s

-- `Release`, which also signals: see `Threads`.
unfoldable pub release : Semaphore → Semaphore
unfolding ◌-ℤ◌
release s = record s { current = s.current -ℤ pos 1 }

unfoldable pub available : Semaphore → ℤ
unfolding ◌-ℤ◌
available s = let free = s.max -ℤ s.current in if ltb_ℤ free (pos 0) then pos 0 else free
