-- ===== src/Session.antt =====
-- handler/websocket.go: the state of a WebSocket session, and what its handlers share.
pub mod Run
pub mod Exit
pub mod Shell
pub mod Files
pub mod Labs
pub mod Dispatch
pub mod Threads
pub mod Owned
pub mod Opened
pub mod Kept
pub mod Ended
pub mod Steady
pub mod LabsOwned
pub mod Elsewhere
pub mod Received
pub mod Networks
pub mod LeftNets
pub mod LabNetworks
pub mod Stale
pub mod Writes
pub mod Writer
pub mod Invariant
mod Examples
mod FilesExamples
use modigo_runner.Base.{
  ℕ, suc, ◌+◌, ◌-◌, ◌%◌, ◌^◌, ◌≡◌, ℤ, Bool, true, false, List, [], ◌∷◌, Option, none, some, Text,
  codes, any, text_eq, is_empty, ◌||◌, ◌&&◌, ◌==◌, if◌then◌else◌,
}
use modigo_runner.Docker.Calls.{Event, Trace, cancel, close_conn, remove, remove_dir}
use modigo_runner.Docker.Stage.{File}
use modigo_runner.Docker.Create.{InteractiveSession}
use modigo_runner.Docker.Inspect.{ExitReason}
use modigo_runner.Lab.{LabTarget, LabSession, LabManager, stop_lab}
use modigo_runner.Users.{Users}

-- `sessionState`; its generation is a `uint64`, and its times are in nanoseconds.
pub record SessionState : Type 0 where
  pub session : Option InteractiveSession
  pub generation : ℕ
  pub temp_dir : Text
  pub lab : Option LabSession
  pub user_id : Text
  pub timed_out : Bool
  pub shell_last_activity : ℕ

-- `protocol.ServerMessage`, by its type: the fields that the handlers set.
pub data ServerMessage : Type 0 where
  error output lab_stopped : Text → ServerMessage
  started pong : ServerMessage
  files : List File → List Text → ServerMessage
  exit : (code : ℤ) → ExitReason → Text → ServerMessage
  lab_started : (target_url target_type : Text) → (expires_at : ℤ) → ServerMessage

-- `protocol.LabConfig`, whose timeout is a text.
pub record LabConfig : Type 0 where
  pub target : LabTarget
  pub timeout : Text

-- `protocol.ClientMessage`; `message_type` and `input` are the fields `Type` and `Data`.
pub record ClientMessage : Type 0 where
  pub message_type : Text
  pub language : Text
  pub code : Text
  pub input : Text
  pub path : Text
  pub cols : ℕ
  pub rows : ℕ
  pub files : List File
  pub lab : Option LabConfig

-- A session with what it shares: the users' containers, the slots of the semaphore that are held,
-- the calls that were made, and the messages that were sent, the newest first.
pub record World : Type 0 where
  pub st : SessionState
  pub users : Users
  pub slots : ℕ
  pub trace : Trace
  pub sent : List ServerMessage

abbrev pub send_message : ServerMessage → World → World
send_message m w = record w { sent = m ∷ w.sent }

abbrev pub send_error : Text → World → World
send_error message w = send_message (error message) w

-- The calls that end a container: `Cancel`, `Close` of its connection, and `Remove`.
unfoldable pub close_calls : InteractiveSession → Trace → Trace
close_calls s es =
    let cancelled : Trace = cancel s.container_id ∷ es in
    remove s.container_id
    ∷ (if s.has_conn then close_conn s.container_id ∷ cancelled else cancelled)

-- "Clean up any existing session".
unfoldable pub close_session : World → World
close_session w = elim w.st.session [
  | none ↦ w
  | some s ↦ record w { st = record w.st { session = none }; trace = close_calls s w.trace }
]

-- The slot that `AcquireContext` gives, and `Release`.
unfoldable pub acquire_slot : World → World
acquire_slot w = record w { slots = suc w.slots }

unfoldable pub release_slot : World → World
release_slot w = record w { slots = w.slots - 1 }

-- The existing session is closed, and old goroutines become stale. Only a run resets `timedOut`.
unfoldable pub next_generation : World → World
next_generation w =
    let w1 = close_session w in
    record w1 { st = record w1.st { generation = (w1.st.generation + 1) % 2 ^ 64 } }

unfoldable pub is_current : SessionState → ℕ → Bool
is_current st gen = elim st.session [ none ↦ false | some s ↦ st.generation == gen ]

unfoldable pub lab_network_id : SessionState → Text
lab_network_id st = elim st.lab [ none ↦ [] | some lab ↦ lab.network_id ]

abbrev pub new_session : Text → SessionState
new_session user_id = record {
  session = none;
  generation = 0;
  temp_dir = [];
  lab = none;
  user_id = user_id;
  timed_out = false;
  shell_last_activity = 0;
}

-- The deferred clean-up of `handleWebSocketSession`; `has_labs` says whether there is a lab manager.
unfoldable pub disconnect : (has_labs : Bool) → World → World
disconnect has_labs w =
    let w1 = close_session w in
    let w2 : World =
      if is_empty w1.st.temp_dir
      then w1
      else record w1 { trace = remove_dir w1.st.temp_dir ∷ w1.trace } in
    if has_labs
    then record w2 { st = record w2.st { lab = none }; trace = stop_lab w2.st.lab w2.trace }
    else w2

-- `CheckOrigin` of `newUpgrader`; the argument `origin` is empty for a client that sends none.
unfoldable pub check_origin : (allowed_origins : List Text) → (origin : Text) → Bool
check_origin allowed_origins origin =
    any (λ o. text_eq o (codes "*")) allowed_origins
    || is_empty origin
    || any (text_eq origin) allowed_origins
