-- ===== src/Service/Authed.antt =====
-- main.go: what holds of a route whatever the middleware of the authentication decides.
use modigo_runner.Base.{inl, inr, Text, is_empty, Bool-cases, Result-cases}
use modigo_runner.Auth.{Context, empty_context, extract_claims, protect, with_claims}
use modigo_runner.Service.{HttpRequest, Settings, Backend, Service, Answers, Response, with_auth}

module _ (t : Settings) (a : Answers) (r : HttpRequest) where
  -- A property of the handler that a refusal has as well holds of the protected handler.
  pub with_auth-lift :
      (P : Backend → Backend × Response → Type 0) (next : Context → Backend → Backend × Response)
      (s : Service)
      → ((ctx : Context) (b : Backend) → P b (next ctx b))
      → ((b : Backend) (body : Text) → P b (b, Response.http_error 401 body))
      → P s.backend ((with_auth t a r next s).0.backend, (with_auth t a r next s).1)
  unfolding with_auth protect
  with_auth-lift P next s handled refused = elim (Bool-cases (is_empty t.auth_secret)) [
    | inl e ↦ rw (e, with_auth, protect) (handled _ s.backend)
    | inr e ↦ elim (Result-cases (extract_claims t.codec a.now_unix t.auth_secret r.credentials)) [
      | inl (claims, q) ↦
          rw (e, q, with_auth, protect) (handled (with_claims claims empty_context) s.backend)
      | inr (x, q) ↦ rw (e, q, with_auth, protect) (refused s.backend _)
    ]
  ]
