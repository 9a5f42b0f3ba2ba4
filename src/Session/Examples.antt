-- ===== src/Session/Examples.antt =====
-- A session that starts a lab and runs a program in its network, and is closed before the program
-- ends.
use modigo_runner.Base.{
  arith, ◌+◌, ◌-◌, false, is_some, Option, ◌≡◌, refl, pos, true, false, [], ◌∷◌, none, some, Text,
  All, ◌++◌, lookup, one_of, to_lower, trim_space, codes, ok, err,
}
use modigo_runner.Limits.{default_limits}
use modigo_runner.Docker.{DockerClient, is_compiled}
use modigo_runner.Docker.Calls.{containers, networks, create_network}
use modigo_runner.Docker.Stage.{write_go_mod, write_extras}
use modigo_runner.Docker.Leaks.{NewNames}
use modigo_runner.Lab.{
  LabManager, LabSession, stop_lab, remove_containers, start_lab, create_target, connect_target,
  start_target,
}
use modigo_runner.Session.Labs.{handle_lab_start, start_configured, stop_current_lab}
use modigo_runner.Docker.Create.{
  create_interactive, stage_code, write_code, wrap_code, create_container, inject, start_container,
  attach_container,
}
use modigo_runner.Docker.Image.{ensure_image}
use modigo_runner.Users.{Users, count_of, inc_user_containers, evict_oldest_user_container}
use modigo_runner.Session.{
  new_session, ClientMessage, disconnect, close_session, next_generation, acquire_slot,
}
use modigo_runner.Session.Run.{
  run_waiting, handle_run, code_of, take_user_slot, run_admitted, run_begun, run_created,
  run_started, set_lab_student,
}
use modigo_runner.Session.Exit.{ExitAnswers, advance, finish_run}
use modigo_runner.Session.Dispatch.{MessageAnswers, receive, dispatch}
use modigo_runner.Session.Threads.{
  System, idle, awaiting, creating, begins, enters, creates, receives, expires, calls, shares,
  advances, disconnects, Reach, start, later, IsNewNetwork,
}
use modigo_runner.Session.Networks.{network_of}
use modigo_runner.Session.LeftNets.{LeftNets}
use modigo_runner.Session.LabNetworks.{NetsKept, Reach-networks}
use modigo_runner.Session.Invariant.{OwnsAll, Reach-Owns, disconnect-nothing_left}

abbrev client : DockerClient
client = record { prefix = codes "modigo-"; limits = default_limits }

abbrev nobody : Users
nobody = record { containers = []; runs = [] }

abbrev opened : System
opened = record {
  world = record {
    st = new_session (codes "ada");
    users = nobody;
    slots = 4;
    trace = [];
    sent = [];
  };
  goroutines = [];
  held = 4;
  is_open = true;
  pending = idle;
}

abbrev answers : MessageAnswers
answers = record {
  handler = record {
    slot = true;
    docker = record {
      inspect_image = none;
      pull = λ attempt. none;
      temp_dir = ok (codes "/tmp/a");
      host = record {
        write = λ path. none;
        make_dirs = λ path. none;
        missing = λ path. false;
        missing_in_wrapper = λ path. false;
      };
      create = ok (codes "c1");
      copy = none;
      start = none;
      attach = ok true;
    };
    now = 1000;
  };
  shell_cmd = codes "exec sh";
  lab = record {
    create_network = ok (codes "n1");
    create = ok (codes "t1");
    connect = none;
    start = none;
    now = pos 1000;
  };
  parse_duration = λ text. none;
  write = λ path content. none;
  read = err (codes "gone");
}

abbrev run_python : ClientMessage
run_python = record {
  message_type = codes "run";
  language = codes "python";
  code = codes "print(1)";
  input = [];
  path = [];
  cols = 0;
  rows = 0;
  files = [];
  lab = none;
}

abbrev start_web : ClientMessage
start_web = record run_python {
  message_type = codes "lab_start";
  lab = some (record {
    target = record { target_type = codes "web"; image = []; port = pos 0; env = [] };
    timeout = [];
  });
}

abbrev manager : LabManager
manager = record { image_prefix = codes "modigo-" }

abbrev labs : Option LabManager
labs = some manager

-- The targets of labs.
abbrev IsTarget : Text → Type 0
IsTarget x = x ≡ codes "t1"

-- The networks of others.
abbrev IsNet : Text → Type 0
IsNet x = x ≡ codes "n0"

owned : OwnsAll (codes "ada") IsTarget IsNet 0 client labs opened
unfolding count_of lookup
owned = record {
  owns = record { is_user = refl; slots = refl; count = refl; untracked = refl; left = tt };
  closed = λ why. refl;
  resting = λ shut. refl;
}

abbrev in_lab : System
in_lab = record opened {
  world = (receive client labs answers (some start_web) opened.world).0;
  goroutines = (receive client labs answers (some start_web) opened.world).1 ++ [];
}

abbrev running : System
running = record in_lab {
  world = (receive client labs answers (some run_python) in_lab.world).0;
  goroutines = (receive client labs answers (some run_python) in_lab.world).1 ++ in_lab.goroutines;
}

abbrev closed : System
closed = record running { world = disconnect true running.world; is_open = false }

abbrev exited : ExitAnswers
exited = record { status = none; oom_killed = err (codes "gone"); files = err (codes "gone") }

abbrev ended : System
ended = record closed {
  world = (advance exited (run_waiting 1) closed.world).0;
  goroutines = [] ++ (advance exited (run_waiting 1) closed.world).1 ++ [];
}

session_code : Unit {0}
unfolding receive dispatch handle_run code_of take_user_slot inc_user_containers count_of lookup
    evict_oldest_user_container run_admitted next_generation close_session acquire_slot run_created
    create_interactive ensure_image stage_code write_code wrap_code is_compiled one_of to_lower
    trim_space create_container inject start_container attach_container run_started set_lab_student
    advance finish_run disconnect handle_lab_start start_configured stop_current_lab stop_lab
    start_lab create_target connect_target start_target
session_code = tt

create-IsTarget : (id : Text) → is_some labs ≡ true → answers.lab.create ≡ ok id → IsTarget id
create-IsTarget id e made = ground arith

opened-IsNewNetwork :
    (id : Text)
    → is_some labs ≡ true
    → answers.lab.create_network ≡ ok id
    → IsNewNetwork id opened.world
unfolding session_code
opened-IsNewNetwork id on e = tt

in_lab-IsNewNetwork :
    (id : Text)
    → is_some labs ≡ true
    → answers.lab.create_network ≡ ok id
    → IsNewNetwork id in_lab.world
unfolding session_code remove_containers
in_lab-IsNewNetwork id on e = tt

Reach-in_lab : Reach client labs IsTarget IsNet opened in_lab
unfolding close_session
Reach-in_lab = later {s = opened} start (
    receives {s = opened} answers (some start_web) refl refl ((λ id e. tt), (λ path e. tt))
      create-IsTarget opened-IsNewNetwork)

lab_left : containers running.world.trace ≡ codes "c1" ∷ codes "t1" ∷ []
unfolding session_code write_go_mod write_extras
lab_left = refl

unused : NewNames (close_session in_lab.world).trace (ok (codes "c1")) (ok (codes "/tmp/a"))
unfolding session_code
unused = ((λ id e. ((λ same. ground arith), tt)), (λ path e. tt))

Reach-running : Reach client labs IsTarget IsNet opened running
Reach-running = later {s = in_lab} Reach-in_lab (
    receives {s = in_lab} answers (some run_python) refl refl unused create-IsTarget
      in_lab-IsNewNetwork)

Reach-closed : Reach client labs IsTarget IsNet opened closed
Reach-closed = later {s = running} Reach-running (disconnects {s = running} refl refl)

spawned : running.goroutines ≡ run_waiting 1 ∷ []
unfolding session_code
spawned = refl

-- While a run waits for its slot, another session takes one, starts a lab of its own, and the timer of
-- this session's lab fires.
abbrev begun : System
begun = record in_lab { world = run_begun (take_user_slot in_lab.world).1; pending = awaiting }

abbrev beside : System
beside = record begun {
  world = record begun.world { slots = 5 + (begun.world.slots - 4) };
  held = 5;
}

abbrev crowded : System
crowded = record beside {
  world = record beside.world {
    trace = create_network (codes "n0") (codes "lab-2-0") ∷ beside.world.trace;
  };
}

abbrev their_lab : LabSession
their_lab = record {
  session_id = codes "lab-1-0";
  network_id = codes "n1";
  student_id = codes "c1";
  target_ids = codes "t1" ∷ [];
  target_hostname = codes "target";
  expires_at = pos 301000;
}

abbrev expired : System
expired = record crowded {
  world = record crowded.world { trace = stop_lab (some their_lab) crowded.world.trace };
}

abbrev entered : System
entered = record expired { world = acquire_slot expired.world; pending = creating }

abbrev made : System
made = record entered {
  world = (run_created client true answers.handler run_python run_python.code [] entered.world).0;
  goroutines =
      (run_created client true answers.handler run_python run_python.code [] entered.world).1
      ++ entered.goroutines;
  pending = idle;
}

admitted : (take_user_slot in_lab.world).0 ≡ true
unfolding session_code
admitted = refl

unused_later : NewNames entered.world.trace (ok (codes "c1")) (ok (codes "/tmp/a"))
unfolding session_code remove_containers
unused_later = ((λ id e. tt), (λ path e. tt))

Reach-expired : Reach client labs IsTarget IsNet opened expired
Reach-expired =
    later {s = crowded}
      (later {s = beside}
        (later {s = begun}
          (later {s = in_lab} Reach-in_lab (begins {s = in_lab} refl refl admitted))
          (shares {s = begun} 5 begun.world.users refl refl))
        (calls {s = beside} (create_network (codes "n0") (codes "lab-2-0")) refl))
      (expires {s = crowded} their_lab)

Reach-made : Reach client labs IsTarget IsNet opened made
Reach-made =
    later {s = entered} (later {s = expired} Reach-expired (enters {s = expired} refl refl))
      (creates {s = entered} answers.handler run_python run_python.code [] refl refl unused_later)

one_spawned : made.goroutines ≡ run_waiting 1 ∷ []
unfolding session_code
one_spawned = refl

Reach-Owns_example : OwnsAll (codes "ada") IsTarget IsNet 0 client labs made
Reach-Owns_example =
    Reach-Owns (codes "ada") IsTarget IsNet 0 client labs opened made owned Reach-made

over : ended.goroutines ≡ []
unfolding session_code
over = refl

Reach-ended : Reach client labs IsTarget IsNet opened ended
Reach-ended =
    later {s = closed} Reach-closed (advances {s = closed} exited [] (run_waiting 1) [] spawned)

disconnect-nothing_left_example :
    (ended.world.slots ≡ 4)
    × (count_of (codes "ada") ended.world.users ≡ pos 0)
    × All IsTarget (containers ended.world.trace)
disconnect-nothing_left_example =
    disconnect-nothing_left (codes "ada") IsTarget IsNet 0 client labs opened ended owned
      Reach-ended refl over

before : NetsKept IsNet client manager IsTarget opened
before = record { left = tt; closed = λ shut. refl }

Reach-networks_example :
    LeftNets IsNet (network_of ended.world.st.lab) (networks ended.world.trace)
    × (ended.is_open ≡ false → All IsNet (networks ended.world.trace))
Reach-networks_example =
    Reach-networks IsNet client manager IsTarget opened ended before Reach-ended
