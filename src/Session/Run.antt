-- ===== src/Session/Run.antt =====
-- handler/websocket.go: `handleRunMessage` up to where it leaves the work to its goroutines.
use modigo_runner.Base.{
  ℕ, Bool, true, false, ◌||◌, List, [], ◌∷◌, ◌++◌, none, some, Text, codes, contains, is_empty,
  if◌then◌else◌, ok, err,
}
use modigo_runner.Docker.{DockerClient}
use modigo_runner.Docker.Stage.{File}
use modigo_runner.Docker.Create.{Answers, InteractiveSession, create_interactive}
use modigo_runner.Users.{
  track_user_run, delete_user_run, inc_user_containers, dec_user_containers,
  evict_oldest_user_container,
}
use modigo_runner.Session.{
  started, ClientMessage, World, send_message, send_error, acquire_slot, release_slot,
  next_generation, lab_network_id,
}

-- What a handler finds outside: whether a slot came free in time, the daemon and the host, and the
-- clock in nanoseconds.
pub record HandlerAnswers : Type 0 where
  pub slot : Bool
  pub docker : Answers
  pub now : ℕ

-- The goroutines that a handler spawns, by the generation they belong to and the point they are at:
-- before `outputDone`, after the first check, and after the messages.
pub data Goroutine : Type 0 where
  run_waiting run_closing shell_waiting shell_closing : (gen : ℕ) → Goroutine
  run_reporting : (gen : ℕ) → (id : Text) → (timed_out : Bool) → Goroutine

abbrev pub Handled : Type 0
Handled = World × List Goroutine

-- The code is that of the first file, if there are files, and the others are additional.
unfoldable pub code_of : ClientMessage → Text × List File
code_of m = elim m.files [ [] ↦ (m.code, []) | f ∷ fs ↦ (f.content, fs) ]

unfoldable pub creation_error : (language e : Text) → Text
creation_error language e =
    if contains e (codes "not available") || contains e (codes "pull failed")
    then codes "Language runtime not available: " ++ language ++ codes ". Please contact support."
    else if contains e (codes "Cannot connect")
    then codes "Runner service is not running. Please try again later."
    else codes "Failed to start execution environment: " ++ e

unfoldable pub too_many : Text
too_many =
    codes
      "Too many concurrent programs (max 3 per user). Close other tabs or wait for a run to finish."

unfoldable pub at_capacity : Text
at_capacity = codes "Service is at capacity right now — please try again in a moment."

unfoldable pub dec_user : World → World
dec_user w = record w { users = dec_user_containers w.st.user_id w.users }

-- The per-user limit: one more try after the eviction of the user's oldest run.
unfoldable pub take_user_slot : World → Bool × World
take_user_slot w =
    let user = w.st.user_id in
    let (free, users) = inc_user_containers user w.users in
    let (oldest, evicted, trace) = evict_oldest_user_container user w.users w.trace in
    let (freed, users_after) = inc_user_containers user evicted in
    if free
    then (true, record w { users = users })
    else (freed, record w { users = users_after; trace = trace })

unfoldable pub set_lab_student : Bool → Text → World → World
set_lab_student has_labs id w = elim w.st.lab [
  | none ↦ w
  | some lab ↦
      if has_labs
      then record w { st = record w.st { lab = some (record lab { student_id = id }) } }
      else w
]

-- The container is there: the session is stored and the run is tracked, until the handler returns,
-- which it does once the goroutines are spawned.
unfoldable pub run_started : Bool → ℕ → InteractiveSession → World → Handled
run_started has_labs now s w =
    let w1 = set_lab_student has_labs s.container_id w in
    let w2 : World = record w1 { st = record w1.st { session = some s; temp_dir = s.temp_dir } } in
    let tracked = track_user_run w2.st.user_id s.container_id now w2.users in
    let w3 = send_message started (record w2 { users = tracked }) in
    (
      record w3 { users = delete_user_run w3.st.user_id s.container_id w3.users },
      run_waiting w3.st.generation ∷ [],
    )

-- A new generation; only a run forgets that an earlier one timed out.
abbrev pub run_begun : World → World
run_begun w = let w1 = next_generation w in record w1 { st = record w1.st { timed_out = false } }

module _ (d : DockerClient) (has_labs : Bool) (a : HandlerAnswers) (m : ClientMessage) where
  unfoldable pub run_created : (code : Text) → List File → World → Handled
  run_created code extra w =
      let (es, created) =
        create_interactive d a.docker m.language code (lab_network_id w.st) extra w.trace in
      let w1 : World = record w { trace = es } in
      elim created [
        | err e ↦ (send_error (creation_error m.language e) (dec_user (release_slot w1)), [])
        | ok s ↦ run_started has_labs a.now s w1
      ]

  -- The new generation, and the slot of the semaphore.
  unfoldable pub run_admitted : (code : Text) → List File → World → Handled
  run_admitted code extra w =
      let w2 = run_begun w in
      if a.slot
      then run_created code extra (acquire_slot w2)
      else (send_error at_capacity (dec_user w2), [])

  unfoldable pub handle_run : World → Handled
  handle_run w =
      let (code, extra) = code_of m in
      let (admitted, w1) = take_user_slot w in
      if is_empty m.language
      then (send_error (codes "language is required") w, [])
      else if is_empty code
      then (send_error (codes "code or files is required") w, [])
      else if admitted
      then run_admitted code extra w1
      else (send_error too_many w1, [])
