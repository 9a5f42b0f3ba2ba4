-- ===== src/Execute.antt =====
-- handler/execute.go: a program that is run for a REST request, and the limiter's middleware before it
-- (ratelimit/limiter.go, main.go).
pub mod Paid
mod Examples
use modigo_runner.Base.{
  ℕ, suc, ◌-◌, ◌≡◌, ℤ, Bool, true, false, not, ◌&&◌, List, [], ◌∷◌, ◌++◌, Option, none, some, Text,
  codes, text_eq, is_empty, if◌then◌else◌, Result, ok, err,
}
use modigo_runner.Ratelimit.{Limiter, allow, remaining_daily}
use modigo_runner.Ratelimit.Decimal.{itoa}
use modigo_runner.Docker.{DockerClient}
use modigo_runner.Docker.Calls.{Trace}
use modigo_runner.Docker.Rest.{RestRequest, RestResponse, RestAnswers, run_non_interactive}

-- The body is an error of reading it, or what the JSON says, if it is a request.
pub record Request : Type 0 where
  pub method : Text
  pub body : Result (Option RestRequest)
  pub user_id : Text
  pub remote_addr : Text

-- A refusal has its status, the error of its body, and the header `Retry-After`.
pub data Reply : Type 0 where
  refused : (status : ℕ) → (error : Text) → (retry_after : Option Text) → Reply
  answered : RestResponse → Reply

-- What the handler shares with others: the limiter, the slots of the semaphore that are held, and the
-- calls that were made.
pub record Server : Type 0 where
  pub limiter : Option Limiter
  pub slots : ℕ
  pub trace : Trace

-- The clock, whether a slot came free in time, and the daemon and the host.
pub record ExecuteAnswers : Type 0 where
  pub now : ℕ
  pub slot : Bool
  pub docker : RestAnswers

abbrev pub Served : Type 0
Served = Server × Reply

unfoldable pub rate_key : Request → Text
rate_key r = if is_empty r.user_id then r.remote_addr else r.user_id

module _ (d : DockerClient) (date_of : ℕ → Text) (a : ExecuteAnswers) where
  -- `limiter != nil && !limiter.Allow(rateKey)` is the refusal.
  unfoldable pub charge : Text → Option Limiter → Option Limiter × Bool
  charge key none = (none, true)
  charge key (some l) = let (l', allowed) = allow date_of a.now key l in (some l', allowed)

  -- With a slot, which is given back behind the run.
  unfoldable pub run_request : RestRequest → Server → Served
  run_request req sv =
      let (es, result) = run_non_interactive d a.docker req sv.trace in
      let sv1 : Server = record sv { trace = es; slots = sv.slots - 1 } in
      elim result [
        | err e ↦ (sv1, refused 500 (codes "Execution failed: " ++ e) none)
        | ok response ↦ (sv1, answered response)
      ]

  unfoldable pub run_limited : RestRequest → Text → Server → Served
  run_limited req key sv =
      let (limiter, allowed) = charge key sv.limiter in
      let sv1 : Server = record sv { limiter = limiter } in
      if not allowed
      then (sv1, refused 429 (codes "Rate limit exceeded") (some (codes "1")))
      else if a.slot
      then run_request req (record sv1 { slots = suc sv1.slots })
      else (sv1, refused 503 (codes "Service at capacity — try again shortly") (some (codes "5")))

  unfoldable pub run_valid : RestRequest → Text → Server → Served
  run_valid req key sv =
      if is_empty req.language
      then (sv, refused 400 (codes "language is required") none)
      else if is_empty req.files && is_empty req.code
      then (sv, refused 400 (codes "Either files or code is required") none)
      else run_limited req key sv

  unfoldable pub execute : Request → Server → Served
  execute r sv =
      if not (text_eq r.method (codes "POST"))
      then (sv, refused 405 (codes "Method not allowed") none)
      else elim r.body [
        | err e ↦ (sv, refused 400 (codes "Failed to read request body") none)
        | ok parsed ↦ elim parsed [
          | none ↦ (sv, refused 400 (codes "Invalid JSON") none)
          | some req ↦ run_valid req (rate_key r) sv
        ]
      ]

-- What the middleware decides, with the headers it sets.
pub record Passed : Type 0 where
  pub limiter : Limiter
  pub served : Bool
  pub header_limit : Text
  pub header_remaining : Text

unfoldable pub middleware : (ℕ → Text) → (now : ℕ) → Request → Limiter → Passed
middleware date_of now r l =
    let (l', allowed) = allow date_of now (rate_key r) l in
    record {
      limiter = l';
      served = allowed;
      header_limit = itoa l'.daily;
      header_remaining = itoa (remaining_daily date_of now (rate_key r) l');
    }

-- The route of main.go: the middleware and the handler share the limiter.
unfoldable pub run_route :
    DockerClient → (ℕ → Text) → (now : ℕ) → ExecuteAnswers → Request → Limiter → Server → Served
run_route d date_of now a r l sv =
    let passed = middleware date_of now r l in
    let sv1 : Server = record sv { limiter = some passed.limiter } in
    if passed.served
    then execute d date_of a r sv1
    else (sv1, refused 429 (codes "Rate limit exceeded. Try again later.") (some (codes "1")))
