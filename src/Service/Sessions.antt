-- ===== src/Service/Sessions.antt =====
-- main.go and handler/websocket.go: the count of sessions over any sequence of requests, ends of
-- sessions and the signal to shut down.
use modigo_runner.Base.{
  ℕ, suc, ◌+◌, ◌≤◌, ◌≡◌, refl, ap, ◌∙◌, inl, inr, pos, ◌+ℤ◌, ◌-ℤ◌, true, false, arith, Bool-cases,
}
use modigo_runner.Auth.{Context}
use modigo_runner.Service.Authed.{with_auth-lift}
use modigo_runner.Service.{
  Route, HttpRequest, Settings, Backend, Service, Answers, Response, open_session, end_session,
  trigger_shutdown, serve_run, upgrade, serve_ws, serve_languages, serve_stats, with_auth,
  serve_route, serve,
}
use modigo_runner.Service.Cors.{is_preflight}

-- The sessions that an answer opens.
abbrev pub opened : Response → ℕ
opened (Response.connected user_id plan) = 1
opened Response.no_content = 0
opened Response.not_found = 0
opened (Response.listed languages) = 0
opened Response.handshake_failed = 0
opened (Response.http_error status body) = 0
opened (Response.ran reply) = 0
opened (Response.healthy report) = 0
opened (Response.counted stats) = 0

-- What a request does to the count, and that it opens no session during the shutdown.
pub record Tracked (b b1 : Backend) (response : Response) : Type 0 where
  pub active : (n : ℕ) → b.active_sessions ≡ pos n → b1.active_sessions ≡ pos (n + opened response)
  pub flag : b1.shutting_down ≡ b.shutting_down
  pub refused : b.shutting_down ≡ true → opened response ≡ 0

Tracked-same : (b : Backend) (response : Response) → opened response ≡ 0 → Tracked b b response
Tracked-same b response e = record {
  active = λ n h. h ∙ ap pos (omega (arith, e));
  flag = refl;
  refused = λ h. e;
}

module _ (t : Settings) (a : Answers) (r : HttpRequest) where
  with_auth-Tracked :
      (next : Context → Backend → Backend × Response) (s : Service)
      → ((ctx : Context) (b : Backend) → Tracked b (next ctx b).0 (next ctx b).1)
      → Tracked s.backend (with_auth t a r next s).0.backend (with_auth t a r next s).1
  with_auth-Tracked next s h =
      with_auth-lift t a r (λ b result. Tracked b result.0 result.1) next s h
        (λ b body. Tracked-same b _ refl)

  -- The handshake opens the session that it answers.
  upgrade-active :
      (ctx : Context) (b : Backend) (n : ℕ)
      → b.active_sessions ≡ pos n
      → (upgrade t a r ctx b).0.active_sessions ≡ pos (n + opened (upgrade t a r ctx b).1)
  unfolding upgrade open_session ◌+ℤ◌
  upgrade-active ctx b n h = ground arith

  upgrade-once :
      (ctx : Context) (b : Backend)
      → (opened (upgrade t a r ctx b).1 ≤ 1)
        × ((upgrade t a r ctx b).0.shutting_down ≡ b.shutting_down)
  unfolding upgrade open_session
  upgrade-once ctx b = ground arith

  serve_ws-Tracked :
      (ctx : Context) (b : Backend) → Tracked b (serve_ws t a r ctx b).0 (serve_ws t a r ctx b).1
  unfolding serve_ws upgrade open_session ◌+ℤ◌
  serve_ws-Tracked ctx b = record {
    active = λ n h. ground arith;
    flag = ground arith;
    refused = λ h. ground arith;
  }

  serve_run-Tracked :
      (ctx : Context) (b : Backend) → Tracked b (serve_run t a r ctx b).0 (serve_run t a r ctx b).1
  unfolding serve_run
  serve_run-Tracked ctx b = record {
    active = λ n h. h ∙ ap pos (omega arith);
    flag = refl;
    refused = λ h. refl;
  }

  serve_route-Tracked :
      (route : Route) (s : Service)
      → Tracked s.backend (serve_route t a r route s).0.backend (serve_route t a r route s).1
  unfolding serve_route serve_stats serve_languages
  serve_route-Tracked Route.health s = Tracked-same s.backend _ refl
  serve_route-Tracked Route.run s = with_auth-Tracked (serve_run t a r) s serve_run-Tracked
  serve_route-Tracked Route.languages s =
      with_auth-Tracked (serve_languages t a r) s (λ ctx b. Tracked-same b _ refl)
  serve_route-Tracked Route.ws s = with_auth-Tracked (serve_ws t a r) s serve_ws-Tracked
  serve_route-Tracked Route.stats s = record {
    active = λ n h. ground arith;
    flag = ground arith;
    refused = λ h. ground arith;
  }
  serve_route-Tracked Route.unknown s = Tracked-same s.backend _ refl

  serve-Tracked : (s : Service) → Tracked s.backend (serve t a r s).0.backend (serve t a r s).1.1
  unfolding serve
  serve-Tracked s = elim (Bool-cases (is_preflight r.method)) [
    | inl e ↦ rw (e, serve) (Tracked-same s.backend _ refl)
    | inr e ↦ rw (e, serve) (serve_route-Tracked r.route s)
  ]

-- Any interleaving of requests, ends of sessions and the signal; `n` sessions are open before it, and
-- `k` requests have passed the check for the shutdown and are in their handshake.
pub data Run (t : Settings)
    : (s : Service) → (n k : ℕ) → (s1 : Service) → (n1 k1 : ℕ) → Type 0 where
  start : {s : Service} {n k : ℕ} → Run t s n k s n k
  request :
      {s s1 : Service} {n k n1 k1 : ℕ} (a : Answers) (r : HttpRequest)
      → Run t s n k s1 n1 k1
      → Run t s n k (serve t a r s1).0 (n1 + opened (serve t a r s1).1.1) k1
  passes :
      {s s1 : Service} {n k n1 k1 : ℕ}
      → s1.backend.shutting_down ≡ false
      → Run t s n k s1 n1 k1
      → Run t s n k s1 n1 (suc k1)
  upgraded :
      {s s1 : Service} {n k n1 k1 : ℕ} (a : Answers) (r : HttpRequest) (ctx : Context)
      → Run t s n k s1 n1 (suc k1)
      → Run t s n k
          (record s1 { backend = (upgrade t a r ctx s1.backend).0 })
          (n1 + opened (upgrade t a r ctx s1.backend).1)
          k1
  ended :
      {s s1 : Service} {n k n1 k1 : ℕ}
      → Run t s n k s1 (suc n1) k1
      → Run t s n k (record s1 { backend = end_session s1.backend }) n1 k1
  signalled :
      {s s1 : Service} {n k n1 k1 : ℕ}
      → Run t s n k s1 n1 k1
      → Run t s n k (record s1 { backend = trigger_shutdown s1.backend }) n1 k1

Run-active :
    (t : Settings) {s s1 : Service} {n k n1 k1 : ℕ}
    → Run t s n k s1 n1 k1
    → s.backend.active_sessions ≡ pos n
    → s1.backend.active_sessions ≡ pos n1
unfolding end_session trigger_shutdown ◌-ℤ◌
Run-active t Run.start h = h
Run-active t (Run.request {s1 = s1} {n1 = n1} a r run) h =
    (serve-Tracked t a r s1).active n1 (Run-active t run h)
Run-active t (Run.passes passed run) h = Run-active t run h
Run-active t (Run.upgraded {s1 = s1} {n1 = n1} a r ctx run) h =
    upgrade-active t a r ctx s1.backend n1 (Run-active t run h)
Run-active t (Run.ended run) h = let q = Run-active t run h in ground arith
Run-active t (Run.signalled run) h = Run-active t run h

-- The shutdown lasts, and no session is opened in it but by a handshake that was under way.
Run-closed :
    (t : Settings) {s s1 : Service} {n k n1 k1 : ℕ}
    → Run t s n k s1 n1 k1
    → s.backend.shutting_down ≡ true
    → (s1.backend.shutting_down ≡ true) × (n1 + k1 ≤ n + k)
unfolding end_session trigger_shutdown
Run-closed t Run.start h = (h, omega arith)
Run-closed t (Run.request {s1 = s1} {n1 = n1} a r run) h =
    let (closed, le) = Run-closed t run h in
    let tracked = serve-Tracked t a r s1 in
    let none_opened = tracked.refused closed in
    (tracked.flag ∙ closed, omega (arith, none_opened, le))
Run-closed t (Run.passes passed run) h =
    let (closed, le) = Run-closed t run h in absurd (ground (arith, passed, closed))
Run-closed t (Run.upgraded {s1 = s1} a r ctx run) h =
    let (closed, le) = Run-closed t run h in
    let (once, flag) = upgrade-once t a r ctx s1.backend in (flag ∙ closed, omega (arith, once, le))
Run-closed t (Run.ended run) h =
    let (closed, le) = Run-closed t run h in (closed, omega (arith, le))
Run-closed t (Run.signalled run) h = let (closed, le) = Run-closed t run h in (refl, le)

-- However requests, handshakes, ends of sessions and the signal interleave after the signal to shut
-- down: the counter that `/health` reports is the number of sessions that are open (if it was when the
-- signal came), that number never exceeds what it was then by more than the handshakes that were under
-- way then, and the shutdown lasts.
pub Run-shutdown :
    (t : Settings) {s s1 : Service} {n k n1 k1 : ℕ}
    → Run t s n k s1 n1 k1
    → s.backend.active_sessions ≡ pos n
    → s.backend.shutting_down ≡ true
    → (s1.backend.active_sessions ≡ pos n1) × (s1.backend.shutting_down ≡ true) × (n1 ≤ n + k)
Run-shutdown t run active closed =
    let (lasts, le) = Run-closed t run closed in (Run-active t run active, lasts, omega (arith, le))
