-- ===== src/Execute/Examples.antt =====
-- A request for a Python program.
use modigo_runner.Base.{
  ℕ, ◌+◌, ◌≡◌, refl, pos, true, false, [], none, some, Text, codes, ok, text_eq, lookup, insert,
}
use modigo_runner.Limits.{default_limits}
use modigo_runner.Ratelimit.{
  Limiter, allow, entry, admit, new_key, reset_daily, reset_window, at_limit, count_request,
}
use modigo_runner.Ratelimit.Key.{used_today}
use modigo_runner.Docker.{DockerClient}
use modigo_runner.Docker.Rest.{RestRequest}
use modigo_runner.Execute.{Request, Server, ExecuteAnswers, rate_key, run_route}
use modigo_runner.Execute.Paid.{run_route-counts_twice}

abbrev client : DockerClient
client = record { prefix = codes "modigo-"; limits = default_limits }

abbrev date_of : ℕ → Text
date_of now = codes "2025-01-01"

abbrev program : RestRequest
program = record { language = codes "python"; code = codes "print(1)"; stdin = []; files = [] }

abbrev request : Request
request = record {
  method = codes "POST";
  body = ok (some program);
  user_id = codes "ada";
  remote_addr = codes "10.0.0.1:4000";
}

abbrev answers : ExecuteAnswers
answers = record {
  now = 2000;
  slot = true;
  docker = record {
    inspect_image = none;
    pull = λ attempt. none;
    temp_dir = ok (codes "/tmp/a");
    host = record {
      write = λ path. none;
      make_dirs = λ path. none;
      missing = λ path. false;
      missing_in_wrapper = λ path. false;
    };
    create = ok (codes "c1");
    copy = none;
    start = none;
    attach = none;
    wait = ok (some (pos 0));
    logs = none;
    stdout = codes "1";
    stderr = [];
    elapsed = 40;
  };
}

abbrev limiter : Limiter
limiter = record { rps = pos 10; daily = pos 100; keys = [] }

abbrev server : Server
server = record { limiter = some limiter; slots = 3; trace = [] }

limiter_code : Unit {0}
unfolding allow entry admit new_key reset_daily reset_window at_limit count_request lookup insert
    rate_key text_eq
limiter_code = tt

abbrev twice : Limiter
twice = (allow date_of 2000 (rate_key request) (allow date_of 1000 (rate_key request) limiter).0).0

first_allowed : (allow date_of 1000 (rate_key request) limiter).1 ≡ true
unfolding limiter_code
first_allowed = refl

second_allowed :
    (allow date_of 2000 (rate_key request) (allow date_of 1000 (rate_key request) limiter).0).1
    ≡ true
unfolding limiter_code
second_allowed = refl

is_post : text_eq request.method (codes "POST") ≡ true
unfolding limiter_code
is_post = refl

run_route-counts_twice_example :
    ((run_route client date_of 1000 answers request limiter server).0.limiter ≡ some twice)
    × (used_today (codes "2025-01-01") (lookup (rate_key request) twice.keys)
        ≡ used_today (codes "2025-01-01") (lookup (rate_key request) limiter.keys) + 2)
run_route-counts_twice_example =
    run_route-counts_twice client date_of answers 1000 request program limiter server is_post refl
      refl refl refl first_allowed second_allowed
