-- ===== src/Service/Examples.antt =====
-- A service with one user, Ada, whose token every signature fits.
use modigo_runner.Base.{
  if◌then◌else◌, suc, ◌+◌, ◌≤◌, ◌≡◌, refl, sym, ap, subst, ◌∙◌, ◌≢◌, pos, true, false, [], ◌∷◌,
  none, some, Text, codes, Result, ok, err, lookup, arith, text_eq, split, has_prefix, trim_prefix,
  trim_space,
}
use modigo_runner.Config.{Config, has_auth}
use modigo_runner.Auth.{
  Claims, Context, empty_context, Algorithm, Credentials, hs256, check_algorithm, normalize,
  check_claims, first_part, bearer_token, protocol_token, find_token, check_header, read_claims,
  validate_parts, validate_jwt, extract_claims, signature, protect, with_claims, get_user_id,
  get_plan, value_or_empty, optional, count_failure,
}
use modigo_runner.Auth.Token.{validate_jwt_iff}
use modigo_runner.Session.{check_origin}
use modigo_runner.Service.{
  Route, HttpRequest, Settings, Service, Answers, Response, serve, serve_route, upgrade, serve_ws,
  with_auth, end_session, trigger_shutdown,
}
use modigo_runner.Service.Cors.{is_preflight, cors_headers, allow_origin, origin_allowed}
use modigo_runner.Service.Budget.{Carries}
use modigo_runner.Service.Start.{limits_of, settings_of, new_service, start_service, start-budget}
use modigo_runner.Service.Quiet.{QuietBackend, serve-Quiet}
use modigo_runner.Service.Origins.{allow_origin-check_origin}
use modigo_runner.Service.Sessions.{Run, opened, Run-shutdown}

service_code : Unit {0}
unfolding check_algorithm normalize check_claims first_part bearer_token protocol_token find_token
    check_header read_claims validate_parts validate_jwt extract_claims signature protect
    with_claims get_user_id get_plan value_or_empty optional count_failure split has_prefix
    trim_prefix trim_space text_eq check_origin serve serve_route upgrade serve_ws with_auth
    is_preflight cors_headers allow_origin origin_allowed end_session trigger_shutdown
service_code = tt

abbrev ada : Claims
ada = record {
  user_id = codes "ada";
  sub = [];
  customer_id = [];
  plan = codes "pro";
  exp = pos 0;
  iat = pos 0;
}

abbrev cfg : Config
cfg = record {
  port = pos 8080;
  docker_socket = codes "/var/run/docker.sock";
  image_prefix = codes "modigo-";
  exec_timeout = pos 30_000_000_000;
  max_memory = codes "256m";
  cpu_period = pos 100_000;
  cpu_quota = pos 50_000;
  max_pid = pos 64;
  allowed_origins = codes "https://modigo.example" ∷ [];
  pool_size = pos 3;
  max_concurrent = pos 50;
  rate_limit_rps = pos 10;
  rate_limit_daily = pos 100;
  auth_secret = codes "s3";
}

abbrev settings : Settings
settings = record {
  docker = record { prefix = codes "modigo-"; limits = limits_of cfg };
  codec = record {
    hmac = λ secret message. secret;
    encode = λ bytes. bytes;
    decode = λ s. some s;
    parse_header = λ bytes. some (Algorithm.named hs256);
    parse_claims = λ bytes. some ada;
  };
  date_of = λ now. codes "2025-01-01";
  auth_secret = codes "s3";
  stats_key = [];
  allowed_origins = codes "https://modigo.example" ∷ [];
  max_concurrent = pos 50;
}

abbrev answers : Answers
answers = record {
  now_unix = pos 1500;
  now = 1000;
  execute = record {
    now = 2000;
    slot = false;
    docker = record {
      inspect_image = none;
      pull = λ attempt. none;
      temp_dir = err (codes "no space");
      host = record {
        write = λ path. none;
        make_dirs = λ path. none;
        missing = λ path. false;
        missing_in_wrapper = λ path. false;
      };
      create = err (codes "no daemon");
      copy = none;
      start = none;
      attach = none;
      wait = ok (some (pos 0));
      logs = none;
      stdout = [];
      stderr = [];
      elapsed = 0;
    };
  };
  handshake = true;
  probes = record { docker = some none; pool = some true; pool_sizes = [] };
  queue_len = pos 0;
}

abbrev credentials : Credentials
credentials = record { authorization = codes "Bearer h.p.s3"; protocol = []; query_token = [] }

abbrev request_for : Route → HttpRequest
request_for route = record {
  method = codes "POST";
  route = route;
  origin = codes "https://modigo.example";
  credentials = credentials;
  stats_header = [];
  stats_query = [];
  body =
      ok (
        some record { language = codes "python"; code = codes "print(1)"; stdin = []; files = [] });
  remote_addr = codes "10.0.0.1:4000";
}

abbrev service : Service
service = record {
  auth_failures = 0;
  backend = record {
    limiter = record { rps = pos 10; daily = pos 100; keys = [] };
    slots = 3;
    trace = [];
    active_sessions = pos 1;
    shutting_down = false;
  };
}

valid : validate_jwt settings.codec (pos 1500) settings.auth_secret (codes "h.p.s3") ≡ ok ada
unfolding service_code
valid = refl

found : find_token credentials ≡ codes "h.p.s3"
unfolding service_code
found = refl

connects :
    (serve settings answers (request_for Route.ws) service).1.1
    ≡ Response.connected (codes "ada") (codes "pro")
unfolding service_code
connects = refl

abbrev user_of : Result Claims → Text
user_of (ok c) = c.user_id
user_of (err e) = []

differ : codes "ada" ≢ codes "bob"
unfolding text_eq
differ h = let apart : true ≡ false = ap (text_eq (codes "ada")) h in ground arith

not_bob :
    (claims : Claims)
    → Carries settings answers (request_for Route.run) claims
    → claims.user_id ≢ codes "bob"
unfolding service_code
not_bob claims g h =
    let read =
      (validate_jwt_iff settings.codec (pos 1500) settings.auth_secret (codes "h.p.s3") claims).1
        g in
    let same : codes "ada" ≡ claims.user_id = ap user_of (sym valid ∙ read) in differ (same ∙ h)

started :
    start_service settings.codec settings.date_of settings.stats_key cfg
    ≡ some (settings, new_service cfg)
unfolding start_service settings_of has_auth
started = refl

start-budget_example :
    lookup
      (codes "bob")
      (serve settings answers (request_for Route.run) service).0.backend.limiter.keys
    ≡ none
unfolding lookup
start-budget_example =
    start-budget settings.codec settings.date_of settings.stats_key cfg settings (new_service cfg)
      answers (request_for Route.run) service (codes "bob") started not_bob

abbrev stopping : Service
stopping = record service { backend = record service.backend { shutting_down = true } }

abbrev refused_request : Service
refused_request = (serve settings answers (request_for Route.ws) stopping).0

none_opened : 1 + opened (serve settings answers (request_for Route.ws) stopping).1.1 ≡ suc 0
unfolding service_code
none_opened = refl

abbrev someone : Context
someone = empty_context

-- A request that was in its handshake at the signal opens its session after it.
abbrev late : Service
late = record refused_request {
  backend = (upgrade settings answers (request_for Route.ws) someone refused_request.backend).0;
}

one_opened :
    1 + opened (upgrade settings answers (request_for Route.ws) someone refused_request.backend).1
    ≡ suc 1
unfolding service_code
one_opened = refl

stopped : Run settings stopping 1 1 (record late { backend = end_session late.backend }) 1 0
stopped = Run.ended (
    subst (λ n. Run settings stopping 1 1 late n 0) one_opened
      (Run.upgraded answers (request_for Route.ws) someone (
        subst (λ n. Run settings stopping 1 1 refused_request n 1) none_opened
          (Run.request answers (request_for Route.ws) Run.start))))

Run-shutdown_example :
    ((end_session late.backend).active_sessions ≡ pos 1)
    × ((end_session late.backend).shutting_down ≡ true)
    × (1 ≤ 2)
Run-shutdown_example = Run-shutdown settings stopped refl refl

serve-Quiet_example :
    QuietBackend service.backend (serve settings answers (request_for Route.run) service).0.backend
serve-Quiet_example =
    serve-Quiet settings answers (request_for Route.run) service ((λ id e. tt), (λ path e. tt))

allow_origin-check_origin_example :
    allow_origin (codes "https://modigo.example" ∷ []) (codes "https://a.example") ≡ (
      if check_origin (codes "https://modigo.example" ∷ []) (codes "https://a.example")
      then some (codes "https://a.example")
      else none)
allow_origin-check_origin_example =
    allow_origin-check_origin (codes "https://modigo.example" ∷ []) (codes "https://a.example") refl
