-- ===== src/Session/Shell.antt =====
-- handler/websocket.go: `handleShellMessage`.
use modigo_runner.Base.{[], ◌∷◌, ◌++◌, some, Text, codes, is_empty, if◌then◌else◌, ok, err}
use modigo_runner.Docker.{DockerClient}
use modigo_runner.Docker.Shell.{create_shell}
use modigo_runner.Session.{
  started, ClientMessage, World, send_message, send_error, acquire_slot, release_slot,
  next_generation, lab_network_id,
}
use modigo_runner.Session.Run.{HandlerAnswers, shell_waiting, Handled, at_capacity}

unfoldable pub shell_language : Text → Text
shell_language lang = if is_empty lang then codes "python" else lang

module _ (d : DockerClient) (a : HandlerAnswers) (shell_cmd : Text) (m : ClientMessage) where
  unfoldable pub shell_created : World → Handled
  shell_created w =
      let (es, created) =
        create_shell d a.docker shell_cmd (shell_language m.language) (lab_network_id w.st)
          w.trace in
      let w1 : World = record w { trace = es } in
      elim created [
        | err e ↦ (send_error (codes "Failed to create shell: " ++ e) (release_slot w1), [])
        | ok s ↦ (
          send_message started
              (record w1 { st = record w1.st { session = some s; shell_last_activity = a.now } }),
          shell_waiting w1.st.generation ∷ [],
        )
      ]

  -- A shell counts for no user, but takes a slot.
  unfoldable pub handle_shell : World → Handled
  handle_shell w =
      let w1 = next_generation w in
      if a.slot then shell_created (acquire_slot w1) else (send_error at_capacity w1, [])
