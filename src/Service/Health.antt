-- ===== src/Service/Health.antt =====
-- handler/health.go and handler/stats.go: what the service says about itself.
use modigo_runner.Base.{
  ℕ, ℤ, Bool, true, false, not, List, Option, none, some, Text, codes, text_eq, is_empty,
  if◌then◌else◌,
}
use modigo_runner.Semaphore.{Semaphore, available}

abbrev pub service_name : Text
service_name = codes "modigo-runner"

pub record HealthReport : Type 0 where
  pub service : Text
  pub http_status : ℕ
  pub status : Text
  pub pool_ready : Bool
  pub docker : Bool
  pub active_sessions : ℤ
  pub containers_running : ℤ
  pub containers_available : ℤ
  pub containers_queue : ℤ
  pub auth_failures_total : ℕ

-- `dockerRef`: none, or what `Ping` answers; `poolRef`: none, or `IsReady`; the pool's `Stats`.
pub record Probes : Type 0 where
  pub docker : Option (Option Text)
  pub pool : Option Bool
  pub pool_sizes : List (Text × ℕ)

unfoldable pub docker_ok : Option (Option Text) → Bool
docker_ok (some none) = true
docker_ok _ = false

unfoldable pub degraded : Option (Option Text) → Bool
degraded (some (some e)) = true
degraded _ = false

unfoldable pub warming_up : Option Bool → Bool
warming_up (some ready) = not ready
warming_up none = false

unfoldable pub pool_ready : Option Bool → Bool
pool_ready (some ready) = ready
pool_ready none = false

unfoldable pub health_check :
    Probes → (active_sessions : ℤ) → Semaphore → (auth_failures : ℕ) → HealthReport
health_check p active_sessions sem auth_failures = record {
  service = service_name;
  http_status = if degraded p.docker then 503 else 200;
  status =
      if degraded p.docker
      then codes "degraded"
      else if warming_up p.pool
      then codes "warming_up"
      else codes "ok";
  pool_ready = pool_ready p.pool;
  docker = docker_ok p.docker;
  active_sessions = active_sessions;
  containers_running = sem.current;
  containers_available = available sem;
  containers_queue = sem.queue_len;
  auth_failures_total = auth_failures;
}

-- "Auth check: if STATS_KEY is set, require it": the header, or else the query.
unfoldable pub stats_allowed : (stats_key : Text) → (header query : Text) → Bool
stats_allowed stats_key header query =
    let provided = if is_empty header then query else header in
    if is_empty stats_key then true else text_eq provided stats_key

pub record ServiceStats : Type 0 where
  pub service : Text
  pub pool : List (Text × ℕ)
  pub active_sessions : ℤ
  pub containers_running : ℤ
  pub containers_available : ℤ
  pub containers_queue : ℤ

unfoldable pub stats_of :
    (pool_sizes : List (Text × ℕ)) → (active_sessions : ℤ) → Semaphore → ServiceStats
stats_of pool_sizes active_sessions sem = record {
  service = service_name;
  pool = pool_sizes;
  active_sessions = active_sessions;
  containers_running = sem.current;
  containers_available = available sem;
  containers_queue = sem.queue_len;
}
