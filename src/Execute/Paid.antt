-- ===== src/Execute/Paid.antt =====
-- handler/execute.go: what a request uses up, and what it gives back.
use modigo_runner.Base.{
  ℕ, suc, ◌+◌, ◌≡◌, refl, ap, subst, sym, true, false, ◌&&◌, some, Text, codes, text_eq, is_empty,
  arith, lookup, ok, Bool-cases, Option-cases, Result-cases, inl, inr,
}
use modigo_runner.Ratelimit.{Limiter, allow}
use modigo_runner.Ratelimit.Key.{used_today, one_if, allow-counts}
use modigo_runner.Docker.{DockerClient}
use modigo_runner.Docker.Rest.{RestRequest, run_non_interactive}
use modigo_runner.Docker.Neutral.{SameLeft}
use modigo_runner.Docker.Leaks.{NewNames}
use modigo_runner.Docker.RestLeaks.{run_non_interactive-SameLeft}
use modigo_runner.Execute.{
  Request, Server, Served, ExecuteAnswers, rate_key, charge, run_request, run_limited, run_valid,
  execute, middleware, run_route,
}

-- The slots that are held, the containers and the staging directories are as before.
abbrev pub Quiet : Server → Served → Type 0
Quiet sv (sv', reply) = (sv'.slots ≡ sv.slots) × SameLeft sv.trace sv'.trace

module _ (d : DockerClient) (date_of : ℕ → Text) (a : ExecuteAnswers) where
  run_request-Quiet :
      (req : RestRequest) (sv sv0 : Server)
      → sv.slots ≡ suc sv0.slots
      → sv.trace ≡ sv0.trace
      → NewNames sv0.trace a.docker.create a.docker.temp_dir
      → Quiet sv0 (run_request d date_of a req sv)
  unfolding run_request
  run_request-Quiet req sv sv0 one same fresh =
      let left =
        subst (λ es. SameLeft es (run_non_interactive d a.docker req sv.trace).0) same
          (run_non_interactive-SameLeft d a.docker req sv.trace
            (subst (λ es. NewNames es a.docker.create a.docker.temp_dir) (sym same) fresh)) in
      elim (Result-cases (run_non_interactive d a.docker req sv.trace).1) [
        | inl (response, e) ↦ rw (e, run_request) (ground (arith, one), left)
        | inr (x, e) ↦ rw (e, run_request) (ground (arith, one), left)
      ]

  run_limited-Quiet :
      (req : RestRequest) (key : Text) (sv : Server)
      → NewNames sv.trace a.docker.create a.docker.temp_dir
      → Quiet sv (run_limited d date_of a req key sv)
  unfolding run_limited run_request charge
  run_limited-Quiet req key sv fresh =
      let sv1 : Server = record sv { limiter = (charge d date_of a key sv.limiter).0 } in
      elim (Bool-cases (charge d date_of a key sv.limiter).1) [
        | inl e ↦ elim (Bool-cases a.slot) [
          | inl q ↦
              rw (e, q, run_limited)
                (run_request-Quiet req (record sv1 { slots = suc sv1.slots }) sv refl refl fresh)
          | inr q ↦ rw (e, q, run_limited) (refl, (refl, refl))
        ]
        | inr e ↦ rw (e, run_limited) (refl, (refl, refl))
      ]

  -- Whatever the request and the answers: when `Execute` returns, the slot has been given back, and
  -- neither a container nor a staging directory is left (for names that are new).
  pub execute-Quiet :
      (r : Request) (sv : Server)
      → NewNames sv.trace a.docker.create a.docker.temp_dir
      → Quiet sv (execute d date_of a r sv)
  unfolding execute run_valid
  execute-Quiet r sv fresh = elim (Bool-cases (text_eq r.method (codes "POST"))) [
    | inr e ↦ rw (e, execute) (refl, (refl, refl))
    | inl e ↦ elim (Result-cases r.body) [
      | inr (x, b) ↦ rw (e, b, execute) (refl, (refl, refl))
      | inl (parsed, b) ↦ elim (Option-cases parsed) [
        | inl p ↦ rw (e, b, p, execute) (refl, (refl, refl))
        | inr (req, p) ↦ elim (Bool-cases (is_empty req.language)) [
          | inl l ↦ rw (e, b, p, l, execute, run_valid) (refl, (refl, refl))
          | inr l ↦ elim (Bool-cases (is_empty req.files && is_empty req.code)) [
            | inl c ↦ rw (e, b, p, l, c, execute, run_valid) (refl, (refl, refl))
            | inr c ↦
                rw (e, b, p, l, c, execute, run_valid) (run_limited-Quiet req (rate_key r) sv fresh)
          ]
        ]
      ]
    ]
  ]

  run_limited-limiter :
      (req : RestRequest) (key : Text) (sv : Server)
      → (run_limited d date_of a req key sv).0.limiter ≡ (charge d date_of a key sv.limiter).0
  unfolding run_limited run_request
  run_limited-limiter req key sv = ground arith

  execute-limiter :
      (r : Request) (req : RestRequest) (sv : Server)
      → text_eq r.method (codes "POST") ≡ true
      → r.body ≡ ok (some req)
      → is_empty req.language ≡ false
      → is_empty req.code ≡ false
      → (execute d date_of a r sv).0.limiter ≡ (charge d date_of a (rate_key r) sv.limiter).0
  unfolding execute run_valid
  execute-limiter r req sv post body language code =
      ground (arith, post, body, language, code, run_limited-limiter req (rate_key r) sv)

  -- A run that the middleware and the handler both let through on one day is counted twice against its
  -- key (for a request with a language and a code).
  pub run_route-counts_twice :
      (now : ℕ) (r : Request) (req : RestRequest) (l : Limiter) (sv : Server)
      → text_eq r.method (codes "POST") ≡ true
      → r.body ≡ ok (some req)
      → is_empty req.language ≡ false
      → is_empty req.code ≡ false
      → date_of now ≡ date_of a.now
      → (allow date_of now (rate_key r) l).1 ≡ true
      → (allow date_of a.now (rate_key r) (allow date_of now (rate_key r) l).0).1 ≡ true
      → let l2 = (allow date_of a.now (rate_key r) (allow date_of now (rate_key r) l).0).0 in
        ((run_route d date_of now a r l sv).0.limiter ≡ some l2)
        × (used_today (date_of now) (lookup (rate_key r) l2.keys)
            ≡ used_today (date_of now) (lookup (rate_key r) l.keys) + 2)
  unfolding run_route middleware charge
  run_route-counts_twice now r req l sv post body language code same first second =
      let key = rate_key r in
      let l1 = (allow date_of now key l).0 in
      let sv1 : Server = record sv { limiter = some l1 } in
      let c1 = (allow-counts date_of now key l).today in
      let c2 = (allow-counts date_of a.now key l1).today in
      let shared = execute-limiter r req sv1 post body language code in
      let l2 = (allow date_of a.now key l1).0 in
      let again =
        subst
          (λ t.
            used_today t (lookup key l2.keys)
            ≡ used_today t (lookup key l1.keys) + one_if (allow date_of a.now key l1).1)
          (sym same) c2 in
      (
        rw (first, run_route, middleware) shared,
        ground (arith, c1, again, ap one_if first, ap one_if second),
      )
