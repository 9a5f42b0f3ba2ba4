-- ===== src/Service.antt =====
-- main.go: the routes and the middleware before them, handler/websocket.go: `WebSocketHandler` and
-- `TriggerShutdown`. The patterns of `http.ServeMux` are `Route`, and its choice is part of a request.
pub mod Health
pub mod Cors
pub mod Languages
pub mod Authed
pub mod Budget
pub mod Quiet
pub mod Sessions
pub mod Start
pub mod Origins
mod Examples
use modigo_runner.Base.{
  ℕ, ◌≡◌, ℤ, pos, ◌+ℤ◌, ◌-ℤ◌, Bool, true, false, not, ◌&&◌, List, [], Option, none, some, Text,
  codes, if◌then◌else◌, Result,
}
use modigo_runner.Ratelimit.{Limiter}
use modigo_runner.Semaphore.{Semaphore}
use modigo_runner.Auth.{Codec, Credentials, Context, empty_context, get_user_id, get_plan, protect}
use modigo_runner.Docker.{DockerClient}
use modigo_runner.Docker.Calls.{Trace}
use modigo_runner.Docker.Rest.{RestRequest}
use modigo_runner.Execute.{Request, Reply, Server, ExecuteAnswers, run_route}
use modigo_runner.Session.{check_origin}
use modigo_runner.Service.Health.{
  HealthReport, Probes, ServiceStats, health_check, stats_allowed, stats_of,
}
use modigo_runner.Service.Languages.{LanguageInfo, languages_response}
use modigo_runner.Service.Cors.{CorsHeaders, cors_headers, is_preflight}

pub data Route : Type 0 where
  health run languages ws stats unknown : Route

pub record HttpRequest : Type 0 where
  pub method : Text
  pub route : Route
  pub origin : Text
  pub credentials : Credentials
  pub stats_header : Text
  pub stats_query : Text
  pub body : Result (Option RestRequest)
  pub remote_addr : Text

-- The configuration, and what is set up once.
pub record Settings : Type 0 where
  pub docker : DockerClient
  pub codec : Codec
  pub date_of : ℕ → Text
  pub auth_secret : Text
  pub stats_key : Text
  pub allowed_origins : List Text
  pub max_concurrent : ℤ

-- What the handlers share behind the authentication.
pub record Backend : Type 0 where
  pub limiter : Limiter
  pub slots : ℕ
  pub trace : Trace
  pub active_sessions : ℤ
  pub shutting_down : Bool

pub record Service : Type 0 where
  pub auth_failures : ℕ
  pub backend : Backend

-- The clocks, and what others answer during one request.
pub record Answers : Type 0 where
  pub now_unix : ℤ
  pub now : ℕ
  pub execute : ExecuteAnswers
  pub handshake : Bool
  pub probes : Probes
  pub queue_len : ℤ

pub data Response : Type 0 where
  no_content not_found handshake_failed : Response
  listed : List LanguageInfo → Response
  http_error : (status : ℕ) → (body : Text) → Response
  ran : Reply → Response
  healthy : HealthReport → Response
  counted : ServiceStats → Response
  connected : (user_id : Text) → (plan : Text) → Response

unfoldable pub open_session : Backend → Backend
open_session b = record b { active_sessions = b.active_sessions +ℤ pos 1 }

-- The deferred function of `WebSocketHandler`, when the session has ended.
unfoldable pub end_session : Backend → Backend
end_session b = record b { active_sessions = b.active_sessions -ℤ pos 1 }

unfoldable pub trigger_shutdown : Backend → Backend
trigger_shutdown b = record b { shutting_down = true }

unfoldable pub limiter_or : Limiter → Option Limiter → Limiter
limiter_or l none = l
limiter_or l (some l1) = l1

module _ (t : Settings) (a : Answers) (r : HttpRequest) where
  unfoldable pub serve_run : Context → Backend → Backend × Response
  serve_run ctx b =
      let request : Request = record {
        method = r.method;
        body = r.body;
        user_id = get_user_id ctx;
        remote_addr = r.remote_addr;
      } in
      let sv : Server = record { limiter = some b.limiter; slots = b.slots; trace = b.trace } in
      let (sv1, reply) = run_route t.docker t.date_of a.now a.execute request b.limiter sv in
      (
        record b {
          limiter = limiter_or b.limiter sv1.limiter;
          slots = sv1.slots;
          trace = sv1.trace;
        },
        Response.ran reply,
      )

  -- `Upgrade` and what follows it, up to the main message loop.
  unfoldable pub upgrade : Context → Backend → Backend × Response
  upgrade ctx b =
      if check_origin t.allowed_origins r.origin && a.handshake
      then (open_session b, Response.connected (get_user_id ctx) (get_plan ctx))
      else (b, Response.handshake_failed)

  -- `WebSocketHandler` up to its main message loop; Service.Sessions has others' steps in between.
  unfoldable pub serve_ws : Context → Backend → Backend × Response
  serve_ws ctx b =
      if b.shutting_down
      then (b, Response.http_error 503 (codes "{\"error\":\"server shutting down\"}"))
      else upgrade ctx b

  unfoldable pub serve_languages : Context → Backend → Backend × Response
  serve_languages ctx b = (b, Response.listed languages_response)

  unfoldable pub semaphore_of : Backend → Semaphore
  semaphore_of b = record { current = pos b.slots; max = t.max_concurrent; queue_len = a.queue_len }

  unfoldable pub with_auth : (Context → Backend → Backend × Response) → Service → Service × Response
  with_auth next s =
      let ((failures, b), response) =
        protect next Response.http_error t.codec a.now_unix t.auth_secret empty_context
          r.credentials (s.auth_failures, s.backend) in
      (record { auth_failures = failures; backend = b }, response)

  unfoldable pub serve_stats : Service → Service × Response
  serve_stats s =
      if stats_allowed t.stats_key r.stats_header r.stats_query
      then (
        s,
        Response.counted
            (stats_of a.probes.pool_sizes s.backend.active_sessions (semaphore_of s.backend)),
      )
      else (s, Response.http_error 401 (codes "{\"error\":\"unauthorized\"}"))

  unfoldable pub serve_route : Route → Service → Service × Response
  serve_route Route.health s = (
    s,
    Response.healthy
        (health_check a.probes s.backend.active_sessions (semaphore_of s.backend) s.auth_failures),
  )
  serve_route Route.run s = with_auth serve_run s
  serve_route Route.languages s = with_auth serve_languages s
  serve_route Route.ws s = with_auth serve_ws s
  serve_route Route.stats s = serve_stats s
  serve_route Route.unknown s = (s, Response.not_found)

  -- The handler of the server, with the headers that are set for every answer.
  unfoldable pub serve : Service → Service × (CorsHeaders × Response)
  serve s =
      let headers = cors_headers t.allowed_origins r.origin in
      let (s1, response) = serve_route r.route s in
      if is_preflight r.method
      then (s, (headers, Response.no_content))
      else (s1, (headers, response))
