-- ===== src/Service/Quiet.antt =====
-- main.go: what a request leaves behind.
use modigo_runner.Base.{ℕ, ◌≡◌, refl, ap, inl, inr, arith, some, Bool-cases, Text}
use modigo_runner.Ratelimit.{Limiter, allow}
use modigo_runner.Docker.{DockerClient}
use modigo_runner.Docker.Calls.{Trace, containers, temp_dirs}
use modigo_runner.Docker.Neutral.{SameLeft}
use modigo_runner.Docker.Leaks.{NewNames}
use modigo_runner.Execute.{Request, Server, ExecuteAnswers, middleware, run_route, rate_key}
use modigo_runner.Execute.Paid.{Quiet, execute-Quiet}
use modigo_runner.Auth.{Context}
use modigo_runner.Service.{
  Route, HttpRequest, Settings, Backend, Service, Answers, open_session, serve_run, serve_ws,
  upgrade, serve_languages, serve_stats, serve_route, serve,
}
use modigo_runner.Service.Authed.{with_auth-lift}
use modigo_runner.Service.Cors.{is_preflight}

run_route-Quiet :
    (d : DockerClient) (date_of : ℕ → Text) (a : ExecuteAnswers) (now : ℕ) (r : Request)
    (l : Limiter) (sv : Server)
    → NewNames sv.trace a.docker.create a.docker.temp_dir
    → Quiet sv (run_route d date_of now a r l sv)
unfolding run_route middleware
run_route-Quiet d date_of a now r l sv fresh =
    let sv1 : Server = record sv { limiter = some (allow date_of now (rate_key r) l).0 } in
    elim (Bool-cases (allow date_of now (rate_key r) l).1) [
      | inl e ↦ rw (e, run_route, middleware) (execute-Quiet d date_of a r sv1 fresh)
      | inr e ↦ rw (e, run_route, middleware) (refl, (refl, refl))
    ]

-- The slots that are held, the containers and the staging directories are as before.
abbrev pub QuietBackend : Backend → Backend → Type 0
QuietBackend b b1 = (b1.slots ≡ b.slots) × SameLeft b.trace b1.trace

same_trace-SameLeft : {es es1 : Trace} → es1 ≡ es → SameLeft es es1
same_trace-SameLeft e = (ap containers e, ap temp_dirs e)

module _ (t : Settings) (a : Answers) (r : HttpRequest) where
  -- The names that the daemon and the host give in this request are new.
  abbrev pub FreshNames : Backend → Type 0
  FreshNames b = NewNames b.trace a.execute.docker.create a.execute.docker.temp_dir

  serve_run-Quiet :
      (ctx : Context) (b : Backend) → FreshNames b → QuietBackend b (serve_run t a r ctx b).0
  unfolding serve_run
  serve_run-Quiet ctx b fresh =
      run_route-Quiet t.docker t.date_of a.execute a.now _ b.limiter
        record { limiter = some b.limiter; slots = b.slots; trace = b.trace } fresh

  serve_ws-Quiet : (ctx : Context) (b : Backend) → QuietBackend b (serve_ws t a r ctx b).0
  unfolding serve_ws upgrade open_session
  serve_ws-Quiet ctx b =
      let slots : (serve_ws t a r ctx b).0.slots ≡ b.slots = ground arith in
      let trace : (serve_ws t a r ctx b).0.trace ≡ b.trace = ground arith in
      (slots, same_trace-SameLeft trace)

  serve_route-Quiet :
      (route : Route) (s : Service)
      → FreshNames s.backend
      → QuietBackend s.backend (serve_route t a r route s).0.backend
  unfolding serve_route serve_stats serve_languages
  serve_route-Quiet Route.health s fresh = (refl, (refl, refl))
  serve_route-Quiet Route.run s fresh =
      with_auth-lift t a r (λ b result. FreshNames b → QuietBackend b result.0) (serve_run t a r) s
        (λ ctx b f. serve_run-Quiet ctx b f) (λ b body f. (refl, (refl, refl))) fresh
  serve_route-Quiet Route.languages s fresh =
      with_auth-lift t a r (λ b result. QuietBackend b result.0) (serve_languages t a r) s
        (λ ctx b. (refl, (refl, refl))) (λ b body. (refl, (refl, refl)))
  serve_route-Quiet Route.ws s fresh =
      with_auth-lift t a r (λ b result. QuietBackend b result.0) (serve_ws t a r) s serve_ws-Quiet
        (λ b body. (refl, (refl, refl)))
  serve_route-Quiet Route.stats s fresh =
      let same : (serve_stats t a r s).0 ≡ s = ground arith in
      (ap (λ x. x.backend.slots) same, same_trace-SameLeft (ap (λ x. x.backend.trace) same))
  serve_route-Quiet Route.unknown s fresh = (refl, (refl, refl))

  -- Whatever its route, its token and its body: when a request has been answered, the slots that are
  -- held, the containers and the staging directories are as they were (for names that are new).
  pub serve-Quiet :
      (s : Service) → FreshNames s.backend → QuietBackend s.backend (serve t a r s).0.backend
  unfolding serve
  serve-Quiet s fresh = elim (Bool-cases (is_preflight r.method)) [
    | inl e ↦ rw (e, serve) (refl, (refl, refl))
    | inr e ↦ rw (e, serve) (serve_route-Quiet r.route s fresh)
  ]
