-- ===== src/Session/Threads.antt =====
-- handler/websocket.go: a session and its goroutines, and the steps they take.
use modigo_runner.Base.{
  ℕ, ◌+◌, ◌-◌, ◌≡◌, Bool, true, false, List, ◌∷◌, ◌++◌, Option, some, Text, is_some, lookup, ok,
}
use modigo_runner.Docker.{DockerClient}
use modigo_runner.Docker.Calls.{Event, create, create_network, Absent, networks}
use modigo_runner.Docker.Leaks.{NewNames}
use modigo_runner.Lab.{LabManager, LabSession, stop_lab}
use modigo_runner.Users.{Users, count_of}
use modigo_runner.Session.{
  ClientMessage, World, close_session, disconnect, acquire_slot, send_error,
}
use modigo_runner.Docker.Stage.{File}
use modigo_runner.Session.Run.{
  Goroutine, run_waiting, run_reporting, run_closing, shell_waiting, shell_closing, HandlerAnswers,
  take_user_slot, run_begun, run_created, dec_user, at_capacity,
}
use modigo_runner.Session.Exit.{ExitAnswers, advance, bridge, kill, reap_shell}
use modigo_runner.Session.Labs.{stop_current_lab}
use modigo_runner.Session.Dispatch.{MessageAnswers, receive}

-- A handler of a run that waits for a slot, or for the daemon; both are counted for the user.
pub data Pending : Type 0 where
  idle awaiting creating : Pending

abbrev pub pending_slots : Pending → ℕ
pending_slots idle = 0
pending_slots awaiting = 0
pending_slots creating = 1

abbrev pub pending_counts : Pending → ℕ
pending_counts idle = 0
pending_counts awaiting = 1
pending_counts creating = 1

-- `held` slots of the semaphore are in the hands of others; `is_open` is whether the connection is.
pub record System : Type 0 where
  pub world : World
  pub goroutines : List Goroutine
  pub held : ℕ
  pub is_open : Bool
  pub pending : Pending

-- Which goroutines count for the user.
abbrev pub counts : Goroutine → ℕ
counts (run_waiting gen) = 1
counts (run_reporting gen id timed_out) = 1
counts (run_closing gen) = 1
counts (shell_waiting gen) = 0
counts (shell_closing gen) = 0

-- A network has an id that is not in use once the lab of the session is stopped.
abbrev pub IsNewNetwork : Text → World → Type 0
IsNewNetwork id w = Absent id (networks (stop_current_lab w).trace)

-- A call that another session, the reaper or a request makes, and what it may create.
abbrev pub IsForeign : (Base Nets : Text → Type 0) → Event → Type 0
IsForeign Base Nets (create id cfg host) = Base id
IsForeign Base Nets (create_network id name) = Nets id
IsForeign Base Nets e = Unit

-- A step of a session, or of what goes on beside it. While the connection is open, and no handler is
-- under way, a message is handled in one step (the daemon then names a new container by an id that is not
-- in use, and the host a directory; where there are labs, the target of a lab is a container of `Base`,
-- and its network has a new id), or the handler of a run begins, which then gets a slot or does not, and
-- then its container, or the connection ends. At any time a goroutine goes on to its next point, a timer
-- of the session fires, or that of a lab, output arrives, and others make calls, take and give back slots
-- and change the counts and runs of other users: no other session of the same user is open.
pub data Step (d : DockerClient) (labs : Option LabManager) (Base Nets : Text → Type 0)
    : System → System → Type 0 where
  receives :
      {s : System} (a : MessageAnswers) (m : Option ClientMessage)
      → s.is_open ≡ true
      → s.pending ≡ idle
      → NewNames (close_session s.world).trace a.handler.docker.create a.handler.docker.temp_dir
      → ((id : Text) → is_some labs ≡ true → a.lab.create ≡ ok id → Base id)
      → ((id : Text) → is_some labs ≡ true → a.lab.create_network ≡ ok id → IsNewNetwork id s.world)
      → Step d labs Base Nets s (record s {
        world = (receive d labs a m s.world).0;
        goroutines = (receive d labs a m s.world).1 ++ s.goroutines;
      })
  disconnects :
      {s : System}
      → s.is_open ≡ true
      → s.pending ≡ idle
      → Step d labs Base Nets s
          (record s { world = disconnect (is_some labs) s.world; is_open = false })
  begins :
      {s : System}
      → s.is_open ≡ true
      → s.pending ≡ idle
      → (take_user_slot s.world).0 ≡ true
      → Step d labs Base Nets s
          (record s { world = run_begun (take_user_slot s.world).1; pending = awaiting })
  enters :
      {s : System}
      → s.is_open ≡ true
      → s.pending ≡ awaiting
      → Step d labs Base Nets s (record s { world = acquire_slot s.world; pending = creating })
  gives_up :
      {s : System}
      → s.is_open ≡ true
      → s.pending ≡ awaiting
      → Step d labs Base Nets s
          (record s { world = send_error at_capacity (dec_user s.world); pending = idle })
  creates :
      {s : System} (a : HandlerAnswers) (m : ClientMessage) (code : Text) (extra : List File)
      → s.is_open ≡ true
      → s.pending ≡ creating
      → NewNames s.world.trace a.docker.create a.docker.temp_dir
      → Step d labs Base Nets s (record s {
        world = (run_created d (is_some labs) a m code extra s.world).0;
        goroutines = (run_created d (is_some labs) a m code extra s.world).1 ++ s.goroutines;
        pending = idle;
      })
  advances :
      {s : System} (a : ExitAnswers) (before : List Goroutine) (g : Goroutine)
      (after : List Goroutine)
      → s.goroutines ≡ before ++ g ∷ after
      → Step d labs Base Nets s (record s {
        world = (advance a g s.world).0;
        goroutines = before ++ (advance a g s.world).1 ++ after;
      })
  prints :
      {s : System} (gen : ℕ) (text : Text)
      → Step d labs Base Nets s (record s { world = bridge gen text s.world })
  kills : {s : System} (gen : ℕ) → Step d labs Base Nets s (record s { world = kill gen s.world })
  reaps :
      {s : System} (gen now : ℕ)
      → Step d labs Base Nets s (record s { world = reap_shell gen now s.world })
  expires :
      {s : System} (lab : LabSession)
      → Step d labs Base Nets s
          (record s { world = record s.world { trace = stop_lab (some lab) s.world.trace } })
  calls :
      {s : System} (e : Event)
      → IsForeign Base Nets e
      → Step d labs Base Nets s (record s { world = record s.world { trace = e ∷ s.world.trace } })
  shares :
      {s : System} (held : ℕ) (users : Users)
      → count_of s.world.st.user_id users ≡ count_of s.world.st.user_id s.world.users
      → lookup s.world.st.user_id users.runs ≡ lookup s.world.st.user_id s.world.users.runs
      → Step d labs Base Nets s (record s {
        world = record s.world { slots = held + (s.world.slots - s.held); users = users };
        held = held;
      })

-- What a session can reach from a state.
pub data Reach (d : DockerClient) (labs : Option LabManager) (Base Nets : Text → Type 0)
    (s0 : System) : System → Type 0 where
  start : Reach d labs Base Nets s0 s0
  later :
      {s t : System}
      → Reach d labs Base Nets s0 s
      → Step d labs Base Nets s t
      → Reach d labs Base Nets s0 t
