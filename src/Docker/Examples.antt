-- ===== src/Docker/Examples.antt =====
-- Python runs on a daemon without failures, and one on a daemon that cannot start containers.
use modigo_runner.Base.{pos, true, false, refl, List, [], ◌∷◌, none, some, codes, ok}
use modigo_runner.Limits.{default_limits}
use modigo_runner.Docker.{DockerClient}
use modigo_runner.Docker.Stage.{File, HostFiles}
use modigo_runner.Docker.Create.{Answers, create_interactive}
use modigo_runner.Docker.Shell.{create_shell}
use modigo_runner.Docker.Rest.{RestRequest, RestAnswers, run_non_interactive}
use modigo_runner.Docker.Neutral.{SameLeft}
use modigo_runner.Docker.Leaks.{Settled, create_interactive-Settled, create_shell-Settled}
use modigo_runner.Docker.RestLeaks.{run_non_interactive-SameLeft}
use modigo_runner.Docker.Confinement.{IsSafe}
use modigo_runner.Docker.Staging.{create_interactive-IsSafe}

abbrev client : DockerClient
client = record { prefix = codes "modigo-"; limits = default_limits }

abbrev host : HostFiles
host = record {
  write = λ path. none;
  make_dirs = λ path. none;
  missing = λ path. false;
  missing_in_wrapper = λ path. false;
}

abbrev answers : Answers
answers = record {
  inspect_image = none;
  pull = λ attempt. none;
  temp_dir = ok (codes "/tmp/a");
  host = host;
  create = ok (codes "c1");
  copy = none;
  start = none;
  attach = ok true;
}

abbrev no_start : Answers
no_start = record answers { start = some (codes "no space") }

abbrev escaping : List File
escaping = (record { name = codes "../../etc/passwd"; content = codes "x" }) ∷ []

create_interactive-Settled_example :
    Settled []
      (create_interactive client no_start (codes "python") (codes "print(1)") [] escaping [])
create_interactive-Settled_example =
    create_interactive-Settled client no_start (codes "python") (codes "print(1)") [] escaping []
      ((λ id e. tt), (λ path e. tt))

create_shell-Settled_example :
    Settled [] (create_shell client answers (codes "exec sh") (codes "go") (codes "lab") [])
create_shell-Settled_example =
    create_shell-Settled client answers (codes "exec sh") (codes "go") (codes "lab") [] (λ id e. tt)

create_interactive-IsSafe_example :
    IsSafe
      (codes "/tmp/a")
      (codes "python")
      []
      (create_interactive client answers (codes "python") (codes "print(1)") [] escaping []).0
create_interactive-IsSafe_example =
    create_interactive-IsSafe client answers 47 (codes "tmp/a") (codes "python") []
      (codes "print(1)") escaping [] refl tt

abbrev rest_answers : RestAnswers
rest_answers = record {
  inspect_image = none;
  pull = λ attempt. none;
  temp_dir = ok (codes "/tmp/a");
  host = host;
  create = ok (codes "c1");
  copy = none;
  start = none;
  attach = none;
  wait = ok (some (pos 0));
  logs = none;
  stdout = codes "1";
  stderr = [];
  elapsed = 40;
}

abbrev request : RestRequest
request = record { language = codes "python"; code = codes "print(1)"; stdin = []; files = [] }

run_non_interactive-SameLeft_example :
    SameLeft [] (run_non_interactive client rest_answers request []).0
run_non_interactive-SameLeft_example =
    run_non_interactive-SameLeft client rest_answers request [] ((λ id e. tt), (λ path e. tt))
