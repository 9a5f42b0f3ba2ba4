-- ===== src/Session/Networks.antt =====
-- handler/websocket.go: the handlers and goroutines that leave the lab of a session as it is.
use modigo_runner.Base.{
  ℕ, ◌≡◌, refl, ◌∙◌, List, [], ◌∷◌, Option, none, some, Text, arith, Result-cases, Bool-cases, inl,
  inr, is_empty, Result, if◌then◌else◌, Bool, true, false,
}
use modigo_runner.Docker.{DockerClient}
use modigo_runner.Docker.Stage.{File}
use modigo_runner.Docker.Create.{InteractiveSession, create_interactive}
use modigo_runner.Docker.Shell.{create_shell}
use modigo_runner.Docker.Networkless.{SameNets, create_interactive-SameNets, create_shell-SameNets}
use modigo_runner.Users.{evict_oldest_user_container}
use modigo_runner.Lab.{LabSession}
use modigo_runner.Session.{
  ClientMessage, World, close_calls, close_session, acquire_slot, release_slot, next_generation,
  lab_network_id,
}
use modigo_runner.Session.Run.{
  HandlerAnswers, Goroutine, run_waiting, run_reporting, run_closing, shell_waiting, shell_closing,
  Handled, code_of, dec_user, take_user_slot, set_lab_student, run_started, run_created,
  run_admitted, handle_run,
}
use modigo_runner.Session.Shell.{shell_language, shell_created, handle_shell}
use modigo_runner.Session.Exit.{
  ExitAnswers, finish_run, close_current, await_shell, close_shell, send_files, inspected,
  report_exit, advance, bridge, cancel_session, kill, reap_shell,
}
use modigo_runner.Session.Files.{handle_input, handle_write, handle_read_files}

-- The network of the lab, if there is one.
abbrev pub network_of : Option LabSession → List Text
network_of none = []
network_of (some lab) = lab.network_id ∷ []

-- The networks that are left over and the network of the session's lab are the same.
abbrev pub SameLab : World → World → Type 0
SameLab w w' = SameNets w.trace w'.trace × (network_of w'.st.lab ≡ network_of w.st.lab)

pub both_trans :
    {x y z u v w : List Text} → (y ≡ x) × (v ≡ u) → (z ≡ y) × (w ≡ v) → (z ≡ x) × (w ≡ u)
both_trans (n, l) (m, k) = (m ∙ n, k ∙ l)

SameLab-if :
    (b : Bool) (w : World) (h h' : Handled)
    → SameLab w h.0
    → SameLab w h'.0
    → SameLab w (if b then h else h').0
SameLab-if true w h h' p p' = p
SameLab-if false w h h' p p' = p'

pub close_session-SameLab : (w : World) → SameLab w (close_session w)
unfolding close_session close_calls
close_session-SameLab w = ground arith

pub next_generation-SameLab : (w : World) → SameLab w (next_generation w)
unfolding next_generation
next_generation-SameLab w = close_session-SameLab w

pub take_user_slot-SameLab : (w : World) → SameLab w (take_user_slot w).1
unfolding take_user_slot evict_oldest_user_container
take_user_slot-SameLab w = ground arith

run_started-SameLab :
    (has_labs : Bool) (now : ℕ) (s : InteractiveSession) (w : World)
    → SameLab w (run_started has_labs now s w).0
unfolding run_started set_lab_student
run_started-SameLab has_labs now s w = ground arith

module _ (d : DockerClient) (a : HandlerAnswers) (m : ClientMessage) where
  pub run_created-SameLab :
      (has_labs : Bool) (code : Text) (extra : List File) (w : World)
      → SameLab w (run_created d has_labs a m code extra w).0
  unfolding run_created dec_user release_slot
  run_created-SameLab has_labs code extra w =
      let c = create_interactive d a.docker m.language code (lab_network_id w.st) extra w.trace in
      let same =
        create_interactive-SameNets d a.docker m.language code (lab_network_id w.st) extra
          w.trace in
      elim (Result-cases c.1) [
        | inr (x, e) ↦ rw (e, run_created) (same, refl)
        | inl (s, e) ↦
            let w1 : World = record w { trace = c.0 } in
            rw (e, run_created) (both_trans (same, refl) (run_started-SameLab has_labs a.now s w1))
      ]

  run_admitted-SameLab :
      (has_labs : Bool) (code : Text) (extra : List File) (w : World)
      → SameLab w (run_admitted d has_labs a m code extra w).0
  unfolding run_admitted dec_user acquire_slot
  run_admitted-SameLab has_labs code extra w =
      let w1 = next_generation w in
      let w2 : World = record w1 { st = record w1.st { timed_out = false } } in
      let next = next_generation-SameLab w in
      SameLab-if a.slot w _ _
        (both_trans next (run_created-SameLab has_labs code extra (acquire_slot w2))) next

  pub handle_run-SameLab : (has_labs : Bool) (w : World) → SameLab w (handle_run d has_labs a m w).0
  unfolding handle_run
  handle_run-SameLab has_labs w =
      let taken = take_user_slot-SameLab w in
      elim (Bool-cases (is_empty m.language)) [
        | inl e ↦ rw (e, handle_run) (refl, refl)
        | inr e1 ↦ elim (Bool-cases (is_empty (code_of m).0)) [
          | inl e ↦ rw (e1, e, handle_run) (refl, refl)
          | inr e2 ↦ elim (Bool-cases (take_user_slot w).0) [
            | inr e ↦ rw (e1, e2, e, handle_run) taken
            | inl e ↦
                rw (e1, e2, e, handle_run)
                  (both_trans taken (
                    run_admitted-SameLab has_labs (code_of m).0 (code_of m).1 (take_user_slot w).1))
          ]
        ]
      ]

  shell_created-SameLab :
      (shell_cmd : Text) (w : World) → SameLab w (shell_created d a shell_cmd m w).0
  unfolding shell_created release_slot
  shell_created-SameLab shell_cmd w =
      let lang = shell_language m.language in
      let same = create_shell-SameNets d a.docker shell_cmd lang (lab_network_id w.st) w.trace in
      elim (Result-cases (create_shell d a.docker shell_cmd lang (lab_network_id w.st) w.trace).1) [
        | inr (x, e) ↦ rw (e, shell_created) (same, refl)
        | inl (s, e) ↦ rw (e, shell_created) (same, refl)
      ]

  pub handle_shell-SameLab :
      (shell_cmd : Text) (w : World) → SameLab w (handle_shell d a shell_cmd m w).0
  unfolding handle_shell acquire_slot
  handle_shell-SameLab shell_cmd w =
      let w1 = next_generation w in
      let next = next_generation-SameLab w in
      SameLab-if a.slot w _ _ (both_trans next (shell_created-SameLab shell_cmd (acquire_slot w1)))
        next

close_current-SameLab : (gen : ℕ) (w : World) → SameLab w (close_current gen w)
unfolding close_current
close_current-SameLab gen w = ground (arith, close_session-SameLab w)

pub advance-SameLab : (a : ExitAnswers) (g : Goroutine) (w : World) → SameLab w (advance a g w).0
unfolding advance inspected await_shell close_shell finish_run report_exit send_files dec_user
    release_slot
advance-SameLab a (run_waiting gen) w = ground arith
advance-SameLab a (run_reporting gen id true) w = ground arith
advance-SameLab a (run_reporting gen id false) w = ground arith
advance-SameLab a (run_closing gen) w = close_current-SameLab gen w
advance-SameLab a (shell_waiting gen) w = ground arith
advance-SameLab a (shell_closing gen) w = close_current-SameLab gen w

pub bridge-SameLab : (gen : ℕ) (t : Text) (w : World) → SameLab w (bridge gen t w)
unfolding bridge
bridge-SameLab gen t w = ground arith

pub kill-SameLab : (gen : ℕ) (w : World) → SameLab w (kill gen w)
unfolding kill cancel_session
kill-SameLab gen w = ground arith

pub reap_shell-SameLab : (gen now : ℕ) (w : World) → SameLab w (reap_shell gen now w)
unfolding reap_shell cancel_session
reap_shell-SameLab gen now w = ground arith

pub handle_input-SameLab :
    (now : ℕ) (m : ClientMessage) (w : World) → SameLab w (handle_input now m w)
unfolding handle_input
handle_input-SameLab now m w = ground arith

pub handle_write-SameLab :
    (write : Text → Text → Option Text) (m : ClientMessage) (w : World)
    → SameLab w (handle_write write m w)
unfolding handle_write
handle_write-SameLab write m w = ground arith

pub handle_read_files-SameLab :
    (read : Result (List File × List Text)) (w : World) → SameLab w (handle_read_files read w)
unfolding handle_read_files
handle_read_files-SameLab read w = ground arith
