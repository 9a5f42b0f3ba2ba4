-- ===== src/Session/Received.antt =====
-- handler/websocket.go: what a session owns when the message of a client has been handled.
use modigo_runner.Base.{
  ℕ, ◌+◌, ◌≡◌, Bool, true, false, List, [], ◌∷◌, ◌++◌, Option, none, some, is_some, ok, Text, codes,
  text_eq, length, arith, if◌then◌else◌,
}
use modigo_runner.Docker.{DockerClient}
use modigo_runner.Lab.{LabManager}
use modigo_runner.Docker.Leaks.{NewNames}
use modigo_runner.Session.{ServerMessage, ClientMessage, World, close_session}
use modigo_runner.Session.Run.{Goroutine, Handled}
use modigo_runner.Session.LabsOwned.{handle_lab_start-Mine, handle_lab_stop-Mine}
use modigo_runner.Session.Dispatch.{MessageAnswers, dispatch, receive}
use modigo_runner.Session.Owned.{Owns, sent-Owns}
use modigo_runner.Session.Opened.{Kept, run_count}
use modigo_runner.Session.Kept.{handle_run-Kept, handle_shell-Kept}
use modigo_runner.Session.Steady.{
  Kept-none, handle_input-Mine, OnlySent-Mine, handle_write-sent, handle_read_files-sent,
}

pub length-append : (gs hs : List Goroutine) → length (gs ++ hs) ≡ length gs + length hs
length-append [] hs = omega arith
length-append (g ∷ gs) hs = ground (arith, length-append gs hs)

pub run_count-append : (gs hs : List Goroutine) → run_count (gs ++ hs) ≡ run_count gs + run_count hs
run_count-append [] hs = omega arith
run_count-append (g ∷ gs) hs = ground (arith, run_count-append gs hs)

pub length-between :
    (before gs after : List Goroutine)
    → length gs + (length before + length after) ≡ length (before ++ gs ++ after)
length-between before gs after =
    ground (arith, length-append (before ++ gs) after, length-append before gs)

pub run_count-between :
    (before gs after : List Goroutine)
    → run_count gs + (run_count before + run_count after) ≡ run_count (before ++ gs ++ after)
run_count-between before gs after =
    ground (arith, run_count-append (before ++ gs) after, run_count-append before gs)

module _ (user : Text) (Base : Text → Type 0) (held others : ℕ) (d : DockerClient)
    (labs : Option LabManager) where
  Kept-if :
      (b : Bool) (k r : ℕ) (h h' : Handled)
      → Kept user Base held others k r h
      → Kept user Base held others k r h'
      → Kept user Base held others k r (if b then h else h')
  Kept-if true k r h h' p p' = p
  Kept-if false k r h h' p p' = p'

  pub receive-Kept :
      (a : MessageAnswers) (m : Option ClientMessage) (w : World) (k r : ℕ)
      → Owns user Base held others w k r
      → NewNames (close_session w).trace a.handler.docker.create a.handler.docker.temp_dir
      → ((id : Text) → is_some labs ≡ true → a.lab.create ≡ ok id → Base id)
      → Kept user Base held others k r (receive d labs a m w)
  unfolding receive dispatch
  receive-Kept a none w k r o fresh targets =
      Kept-none user Base held others _ k r (sent-Owns user Base held others w k r _ o)
  receive-Kept a (some m) w k r o fresh targets =
      let quiet : (w' : World)
          → Owns user Base held others w' k r
          → Kept user Base held others k r (w', []) =
        λ w' o'. Kept-none user Base held others w' k r o' in
      let told : (x : ServerMessage)
          → Owns user Base held others (record w { sent = x ∷ w.sent }) k r =
        λ x. sent-Owns user Base held others w k r (x ∷ w.sent) o in
      let is_type : Text → Bool = text_eq m.message_type in
      let if_type : (t : Text) (h h' : Handled)
          → Kept user Base held others k r h
          → Kept user Base held others k r h'
          → Kept user Base held others k r (if is_type t then h else h') =
        λ t h h' p p'. Kept-if (is_type t) k r h h' p p' in
      if_type (codes "run") _ _
        (handle_run-Kept user Base held others d (is_some labs) a.handler m w k r o fresh)
        (if_type (codes "input") _ _
          (quiet _ (handle_input-Mine user Base held others a.handler.now m w k r o))
          (if_type (codes "resize") _ _ (quiet w o) (
            if_type (codes "lab_start") _ _
              (quiet _ (
                handle_lab_start-Mine user Base held others a.parse_duration a.lab a.handler.now
                  labs m w k r targets o))
              (if_type (codes "lab_stop") _ _
                (quiet _ (handle_lab_stop-Mine user Base held others (is_some labs) w k r o))
                (if_type (codes "shell") _ _
                  (handle_shell-Kept user Base held others d a.handler a.shell_cmd m w k r o fresh)
                  (if_type (codes "write") _ _
                    (quiet _ (
                      OnlySent-Mine user Base held others w _ k r
                        (handle_write-sent user Base held others a.write m w) o))
                    (if_type (codes "read_files") _ _
                      (quiet _ (
                        OnlySent-Mine user Base held others w _ k r
                          (handle_read_files-sent user Base held others a w) o))
                      (if_type (codes "ping") _ _ (quiet _ (told _)) (quiet _ (told _))))))))))
