-- ===== src/Session/Exit.antt =====
-- handler/websocket.go: the goroutines behind a run and a shell, from one lock of the session to the
-- next, and the timers.
use modigo_runner.Base.{
  ℕ, ◌-◌, ℤ, pos, Bool, true, false, not, ◌||◌, ltb, List, [], ◌∷◌, ◌&&◌, ◌==◌, ◌*◌, Option, none,
  some, Text, codes, is_empty, if◌then◌else◌, Result, ok, err,
}
use modigo_runner.Docker.Calls.{cancel, wait, inspect}
use modigo_runner.Docker.Stage.{File}
use modigo_runner.Docker.Inspect.{ExitReason, oom, timeout, crash, inspect_container}
use modigo_runner.Session.{
  output, files, exit, World, send_message, close_session, release_slot, is_current,
}
use modigo_runner.Session.Run.{
  Goroutine, run_waiting, run_reporting, run_closing, shell_waiting, shell_closing, Handled,
  dec_user,
}

-- The exit status, none for an error or after two seconds; whether the container was OOM-killed; and
-- the files that are read from it.
pub record ExitAnswers : Type 0 where
  pub status : Option ℤ
  pub oom_killed : Result Bool
  pub files : Result (List File × List Text)

unfoldable pub exit_code_of : Option ℤ → ℤ
exit_code_of none = pos 0
exit_code_of (some code) = code

unfoldable pub exit_message : ExitReason → Text
exit_message timeout = codes "Execution timed out (30s limit)"
exit_message oom = codes "Program used too much memory and was terminated"
exit_message crash = codes "Program crashed unexpectedly"
exit_message r = []

-- `dec_user`, then the release: the deferred calls of the run's goroutine, the last one first.
unfoldable pub finish_run : World → Handled
finish_run w = (release_slot (dec_user w), [])

unfoldable pub close_current : ℕ → World → World
close_current gen w = if is_current w.st gen then close_session w else w

-- The files are sent unless there are none, or reading them failed.
unfoldable pub send_files : Result (List File × List Text) → World → World
send_files (err e) w = w
send_files (ok (fs, folders)) w =
    if is_empty fs && is_empty folders then w else send_message (files fs folders) w

unfoldable pub report_exit : ExitAnswers → Text → Bool → World → World
report_exit a id timed_out w =
    let code = exit_code_of a.status in
    let reason = inspect_container a.oom_killed code timed_out in
    send_message (exit code reason (exit_message reason)) (send_files a.files w)

-- The shell's goroutine waits at most two seconds for the container, and drops its exit code.
unfoldable pub await_shell : ℕ → World → Handled
await_shell gen w = elim w.st.session [
  | none ↦ (release_slot w, [])
  | some s ↦
      if is_current w.st gen
      then (record w { trace = wait s.container_id ∷ w.trace }, shell_closing gen ∷ [])
      else (release_slot w, [])
]

-- The shell that is still current is closed, without a message; then the deferred release.
unfoldable pub close_shell : ℕ → World → Handled
close_shell gen w = (release_slot (close_current gen w), [])

-- `InspectContainer` asks the daemon only about a run that has not timed out.
unfoldable pub inspected : Text → Bool → World → World
inspected id true w = w
inspected id false w = record w { trace = inspect id ∷ w.trace }

-- What a goroutine does up to the next point, and where it is then, if it has not ended.
unfoldable pub advance : ExitAnswers → Goroutine → World → Handled
advance a (run_waiting gen) w = elim w.st.session [
  | none ↦ finish_run w
  | some s ↦
      if is_current w.st gen
      then (
        record w { trace = wait s.container_id ∷ w.trace },
        run_reporting gen s.container_id w.st.timed_out ∷ [],
      )
      else finish_run w
]
advance a (run_reporting gen id timed_out) w =
    let w1 : World = inspected id timed_out w in
    if w.st.generation == gen
    then (report_exit a id timed_out w1, run_closing gen ∷ [])
    else finish_run w1
advance a (run_closing gen) w = finish_run (close_current gen w)
advance a (shell_waiting gen) w = await_shell gen w
advance a (shell_closing gen) w = close_shell gen w

-- The bridge from the container to the client drops the output of a session that is not current.
unfoldable pub bridge : ℕ → Text → World → World
bridge gen text w = if is_current w.st gen then send_message (output text) w else w

unfoldable pub cancel_session : World → World
cancel_session w = elim w.st.session [
  | none ↦ w
  | some s ↦ record w { trace = cancel s.container_id ∷ w.trace }
]

-- The kill timer of a run.
unfoldable pub kill : ℕ → World → World
kill gen w =
    if is_current w.st gen
    then cancel_session (record w { st = record w.st { timed_out = true } })
    else w

abbrev pub shell_idle_timeout : ℕ
shell_idle_timeout = 600 * 1000000000

abbrev shell_closed : Text
shell_closed = codes "[Shell closed after 10 minutes of inactivity — press Enter to reconnect]"

-- The idle timer of a shell; the text is sent in colour.
unfoldable pub reap_shell : (gen now : ℕ) → World → World
reap_shell gen now w =
    if not (is_current w.st gen) || ltb (now - w.st.shell_last_activity) shell_idle_timeout
    then w
    else cancel_session (send_message (output shell_closed) w)
