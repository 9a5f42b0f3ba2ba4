-- ===== src/Ratelimit/LogExamples.antt =====
-- Requests of two keys across midnight, with a tick of the clean-up between them.
use modigo_runner.Base.{
  ℕ, ◌+◌, ◌*◌, ◌≡◌, refl, pos, true, false, [], ◌∷◌, Text, codes, arith, ltb, if◌then◌else◌,
  text_eq, lookup, insert, List,
}
use modigo_runner.Ratelimit.{
  day, new_limiter, new_key, entry, allow, admit, reset_daily, reset_window, count_request,
  at_limit, is_stale, sweep, cleanup,
}
use modigo_runner.Ratelimit.Logs.{Call, request, tick, Calendar, answers, log_answers, update_log}
use modigo_runner.Ratelimit.Refines.{new_limiter_refines}

log_code : Unit {0}
unfolding new_limiter new_key entry allow admit reset_daily reset_window count_request at_limit
    is_stale sweep cleanup answers log_answers update_log lookup insert text_eq
log_code = tt

abbrev date_of : ℕ → Text
date_of now = if ltb now day then codes "1" else codes "2"

calendar : Calendar date_of
calendar t u v h k q = ground arith

abbrev calls : List Call
calls =
    request 1000 (codes "ada")
    ∷ request 2000 (codes "bob")
    ∷ request 3000 (codes "ada")
    ∷ request (day + 5) (codes "ada")
    ∷ tick (2 * day + 9)
    ∷ request (2 * day + 10) (codes "bob")
    ∷ []

answered :
    answers date_of calls (new_limiter (pos 10) (pos 1)) ≡ true ∷ true ∷ false ∷ true ∷ true ∷ []
unfolding log_code
answered = refl

new_limiter_refines_example :
    answers date_of calls (new_limiter (pos 10) (pos 1))
    ≡ log_answers date_of (pos 10) (pos 1) calls (λ key. [])
new_limiter_refines_example =
    new_limiter_refines date_of calendar (pos 10) (pos 1) calls
      (omega arith, (omega arith, (omega arith, (omega arith, (omega arith, (omega arith, tt))))))
