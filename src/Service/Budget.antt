-- ===== src/Service/Budget.antt =====
-- main.go: whose budget a request is taken from.
use modigo_runner.Base.{
  ℕ, ◌≡◌, refl, ◌∙◌, ◌≢◌, inl, inr, false, ◌&&◌, some, Text, codes, text_eq, is_empty, arith,
  lookup, Bool-cases, Option-cases, Result-cases,
}
use modigo_runner.Ratelimit.{Limiter, allow}
use modigo_runner.Ratelimit.Key.{allow-counts}
use modigo_runner.Docker.{DockerClient}
use modigo_runner.Docker.Rest.{RestRequest}
use modigo_runner.Auth.{Claims, Context, empty_context, find_token, get_user_id, with_claims}
use modigo_runner.Auth.Token.{Genuine}
use modigo_runner.Auth.Gate.{protect-cases}
use modigo_runner.Service.{
  Route, HttpRequest, Settings, Backend, Service, Answers, Response, limiter_or, serve_run,
  serve_ws, upgrade, serve_languages, serve_stats, with_auth, serve_route, serve, open_session,
}
use modigo_runner.Service.Cors.{is_preflight}
use modigo_runner.Execute.{
  Request, Server, ExecuteAnswers, rate_key, charge, run_request, run_limited, run_valid, execute,
  middleware, run_route,
}

-- The entries of all keys but one are as before.
abbrev pub OthersKept : Text → Limiter → Limiter → Type 0
OthersKept key l l1 = (other : Text) → key ≢ other → lookup other l1.keys ≡ lookup other l.keys

-- There is a limiter, and it differs at most in this key.
abbrev pub ChargedAt : Text → Limiter → Server → Type 0
ChargedAt key l sv = (l1 : Limiter) × (sv.limiter ≡ some l1) × OthersKept key l l1

module _ (d : DockerClient) (date_of : ℕ → Text) (a : ExecuteAnswers) where
  run_limited-ChargedAt :
      (req : RestRequest) (key : Text) (l : Limiter) (sv : Server)
      → sv.limiter ≡ some l
      → ChargedAt key l (run_limited d date_of a req key sv).0
  unfolding run_limited run_request charge
  run_limited-ChargedAt req key l sv e =
      ((allow date_of a.now key l).0, ground (arith, e), (allow-counts date_of a.now key l).others)

  run_valid-ChargedAt :
      (req : RestRequest) (key : Text) (l : Limiter) (sv : Server)
      → sv.limiter ≡ some l
      → ChargedAt key l (run_valid d date_of a req key sv).0
  unfolding run_valid
  run_valid-ChargedAt req key l sv e = elim (Bool-cases (is_empty req.language)) [
    | inl x ↦ rw (x, run_valid) (l, e, (λ other ne. refl))
    | inr x ↦ elim (Bool-cases (is_empty req.files && is_empty req.code)) [
      | inl y ↦ rw (x, y, run_valid) (l, e, (λ other ne. refl))
      | inr y ↦ rw (x, y, run_valid) (run_limited-ChargedAt req key l sv e)
    ]
  ]

  execute-ChargedAt :
      (r : Request) (l : Limiter) (sv : Server)
      → sv.limiter ≡ some l
      → ChargedAt (rate_key r) l (execute d date_of a r sv).0
  unfolding execute rate_key
  execute-ChargedAt r l sv e = elim (Bool-cases (text_eq r.method (codes "POST"))) [
    | inr x ↦ rw (x, execute) (l, e, (λ other ne. refl))
    | inl x ↦ elim (Result-cases r.body) [
      | inr (error, b) ↦ rw (x, b, execute) (l, e, (λ other ne. refl))
      | inl (parsed, b) ↦ elim (Option-cases parsed) [
        | inl p ↦ rw (x, b, p, execute) (l, e, (λ other ne. refl))
        | inr (req, p) ↦ rw (x, b, p, execute) (run_valid-ChargedAt req (rate_key r) l sv e)
      ]
    ]
  ]

  run_route-ChargedAt :
      (now : ℕ) (r : Request) (l : Limiter) (sv : Server)
      → ChargedAt (rate_key r) l (run_route d date_of now a r l sv).0
  unfolding run_route middleware
  run_route-ChargedAt now r l sv =
      let l1 = (allow date_of now (rate_key r) l).0 in
      let kept = (allow-counts date_of now (rate_key r) l).others in
      let sv1 : Server = record sv { limiter = some l1 } in
      elim (Bool-cases (allow date_of now (rate_key r) l).1) [
        | inr e ↦ rw (e, run_route, middleware) (l1, refl, kept)
        | inl e ↦
            let (l2, same, others) = execute-ChargedAt r l1 sv1 refl in
            rw (e, run_route, middleware) (l2, same, (λ other ne. others other ne ∙ kept other ne))
      ]

module _ (t : Settings) (a : Answers) (r : HttpRequest) where
  serve_run-OthersKept :
      (ctx : Context) (b : Backend)
      → is_empty (get_user_id ctx) ≡ false
      → OthersKept (get_user_id ctx) b.limiter (serve_run t a r ctx b).0.limiter
  unfolding serve_run limiter_or rate_key
  serve_run-OthersKept ctx b named other ne =
      let (l1, same, kept) =
        run_route-ChargedAt t.docker t.date_of a.execute a.now
          record {
            method = r.method;
            body = r.body;
            user_id = get_user_id ctx;
            remote_addr = r.remote_addr;
          }
          b.limiter record { limiter = some b.limiter; slots = b.slots; trace = b.trace } in
      rw (same, serve_run, limiter_or) (kept other (rw (named, rate_key) ne))

  -- Claims of a token that the request carries, which are good now.
  abbrev pub Carries : Claims → Type 0
  Carries claims = Genuine t.codec a.now_unix t.auth_secret (find_token r.credentials) claims

  with_auth-OthersKept :
      (next : Context → Backend → Backend × Response) (s : Service) (other : Text)
      → ((ctx : Context) (b : Backend)
          → is_empty (get_user_id ctx) ≡ false
          → OthersKept (get_user_id ctx) b.limiter (next ctx b).0.limiter)
      → is_empty t.auth_secret ≡ false
      → ((claims : Claims) → Carries claims → claims.user_id ≢ other)
      → lookup other (with_auth t a r next s).0.backend.limiter.keys
        ≡ lookup other s.backend.limiter.keys
  unfolding with_auth
  with_auth-OthersKept next s other kept set not_theirs =
      elim (protect-cases next Response.http_error t.codec a.now_unix t.auth_secret empty_context
        r.credentials (s.auth_failures, s.backend) set) [
          | inl (claims, genuine, (same_user, named, e)) ↦
              rw (e, with_auth)
                (kept (with_claims claims empty_context) s.backend (rw same_user named) other
                  (rw same_user (not_theirs claims genuine)))
          | inr (none_good, (x, e)) ↦ rw (e, with_auth) refl
        ]

  serve_ws-OthersKept :
      (ctx : Context) (b : Backend)
      → is_empty (get_user_id ctx) ≡ false
      → OthersKept (get_user_id ctx) b.limiter (serve_ws t a r ctx b).0.limiter
  unfolding serve_ws upgrade open_session
  serve_ws-OthersKept ctx b named other ne = ground arith

  serve_route-budget :
      (route : Route) (s : Service) (other : Text)
      → is_empty t.auth_secret ≡ false
      → ((claims : Claims) → Carries claims → claims.user_id ≢ other)
      → lookup other (serve_route t a r route s).0.backend.limiter.keys
        ≡ lookup other s.backend.limiter.keys
  unfolding serve_route serve_stats serve_languages
  serve_route-budget Route.health s other set h = refl
  serve_route-budget Route.run s other set h =
      with_auth-OthersKept (serve_run t a r) s other serve_run-OthersKept set h
  serve_route-budget Route.languages s other set h =
      with_auth-OthersKept (serve_languages t a r) s other (λ ctx b named o ne. refl) set h
  serve_route-budget Route.ws s other set h =
      with_auth-OthersKept (serve_ws t a r) s other serve_ws-OthersKept set h
  serve_route-budget Route.stats s other set h = ground arith
  serve_route-budget Route.unknown s other set h = refl

  -- Whatever its route and method, a request leaves the budget of a key as it is unless it carries a
  -- genuine token of the user with that key (with a secret that is not empty).
  pub serve-budget :
      (s : Service) (other : Text)
      → is_empty t.auth_secret ≡ false
      → ((claims : Claims) → Carries claims → claims.user_id ≢ other)
      → lookup other (serve t a r s).0.backend.limiter.keys ≡ lookup other s.backend.limiter.keys
  unfolding serve
  serve-budget s other set not_theirs = elim (Bool-cases (is_preflight r.method)) [
    | inl e ↦ rw (e, serve) refl
    | inr e ↦ rw (e, serve) (serve_route-budget r.route s other set not_theirs)
  ]
