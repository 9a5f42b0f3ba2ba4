-- ===== src/Service/Start.antt =====
-- main.go: what `main` makes of the configuration before it serves.
use modigo_runner.Base.{
  ℕ, ◌/◌, ◌+◌, ◌-◌, ◌≡◌, sym, ap, ◌∙◌, ◌≢◌, ℤ, pos, negsuc, false, not, Option, none, some, Text,
  is_empty, lookup, ◌==◌, if◌then◌else◌, Bool-cases, inl, inr, [],
}
use modigo_runner.Limits.{
  Limits, default_limits, with_memory, with_cpu_quota, with_pids_limit, with_timeout,
}
use modigo_runner.Ratelimit.{second, new_limiter}
use modigo_runner.Auth.{Claims, Codec}
use modigo_runner.Config.{Config, has_auth}
use modigo_runner.Service.{HttpRequest, Settings, Service, Answers, serve}
use modigo_runner.Service.Budget.{Carries, serve-budget}

-- `int(d.Seconds())`: the part behind the point is cut off.
unfoldable pub whole_seconds : ℤ → ℤ
whole_seconds (pos n) = pos (n / second)
whole_seconds (negsuc n) = let m = (n + 1) / second in if m == 0 then pos 0 else negsuc (m - 1)

unfoldable pub limits_of : Config → Limits
limits_of cfg = with_timeout (whole_seconds cfg.exec_timeout) (
    with_pids_limit cfg.max_pid
      (with_cpu_quota cfg.cpu_quota (with_memory cfg.max_memory default_limits)))

unfoldable pub settings_of : Codec → (date_of : ℕ → Text) → (stats_key : Text) → Config → Settings
settings_of codec date_of stats_key cfg = record {
  docker = record { prefix = cfg.image_prefix; limits = limits_of cfg };
  codec = codec;
  date_of = date_of;
  auth_secret = cfg.auth_secret;
  stats_key = stats_key;
  allowed_origins = cfg.allowed_origins;
  max_concurrent = cfg.max_concurrent;
}

unfoldable pub new_service : Config → Service
new_service cfg = record {
  auth_failures = 0;
  backend = record {
    limiter = new_limiter cfg.rate_limit_rps cfg.rate_limit_daily;
    slots = 0;
    trace = [];
    active_sessions = pos 0;
    shutting_down = false;
  };
}

-- "Fail fast": without a secret the process ends. The clean-up of left containers and the pool, which
-- `main` starts as well, are not part of the state here.
unfoldable pub start_service :
    Codec → (date_of : ℕ → Text) → (stats_key : Text) → Config → Option (Settings × Service)
start_service codec date_of stats_key cfg =
    if not (has_auth cfg)
    then none
    else some (settings_of codec date_of stats_key cfg, new_service cfg)

abbrev secret_of : Option (Settings × Service) → Text
secret_of none = []
secret_of (some (t, s)) = t.auth_secret

start-secret :
    (codec : Codec) (date_of : ℕ → Text) (stats_key : Text) (cfg : Config) (t : Settings)
    (s : Service)
    → start_service codec date_of stats_key cfg ≡ some (t, s)
    → is_empty t.auth_secret ≡ false
unfolding start_service settings_of has_auth
start-secret codec date_of stats_key cfg t s e = elim (Bool-cases (is_empty cfg.auth_secret)) [
  | inl x ↦ cc (rw (x, start_service, has_auth) at e)
  | inr x ↦ sym (ap (λ o. is_empty (secret_of o)) (rw (x, start_service, has_auth) at e)) ∙ x
]

-- In a server that has started, whatever its configuration, a request of any route and method leaves
-- the budget of a key as it is, unless it carries a genuine token of the user with that key.
pub start-budget :
    (codec : Codec) (date_of : ℕ → Text) (stats_key : Text) (cfg : Config) (t : Settings)
    (s : Service) (a : Answers) (r : HttpRequest) (now : Service) (other : Text)
    → start_service codec date_of stats_key cfg ≡ some (t, s)
    → ((claims : Claims) → Carries t a r claims → claims.user_id ≢ other)
    → lookup other (serve t a r now).0.backend.limiter.keys ≡ lookup other now.backend.limiter.keys
start-budget codec date_of stats_key cfg t s a r now other started not_theirs =
    serve-budget t a r now other (start-secret codec date_of stats_key cfg t s started) not_theirs
