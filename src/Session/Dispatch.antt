-- ===== src/Session/Dispatch.antt =====
-- handler/websocket.go: the loop of `handleWebSocketSession` over the messages of a client.
use modigo_runner.Base.{
  ℤ, Bool, List, [], ◌++◌, Option, none, some, Text, codes, text_eq, is_some, if◌then◌else◌, Result,
}
use modigo_runner.Docker.{DockerClient}
use modigo_runner.Docker.Stage.{File}
use modigo_runner.Lab.{LabManager, LabAnswers}
use modigo_runner.Session.{pong, ClientMessage, World, send_message, send_error}
use modigo_runner.Session.Run.{HandlerAnswers, Handled, handle_run}
use modigo_runner.Session.Shell.{handle_shell}
use modigo_runner.Session.Files.{handle_input, handle_write, handle_read_files}
use modigo_runner.Session.Labs.{handle_lab_start, handle_lab_stop}

-- What the handlers find outside.
pub record MessageAnswers : Type 0 where
  pub handler : HandlerAnswers
  pub shell_cmd : Text
  pub lab : LabAnswers
  pub parse_duration : Text → Option ℤ
  pub write : Text → Text → Option Text
  pub read : Result (List File × List Text)

module _ (d : DockerClient) (labs : Option LabManager) where
  -- The switch over the type of the message. Resizing a terminal changes no state.
  unfoldable pub dispatch : MessageAnswers → ClientMessage → World → Handled
  dispatch a m w =
      let is_type : Text → Bool = text_eq m.message_type in
      if is_type (codes "run")
      then handle_run d (is_some labs) a.handler m w
      else if is_type (codes "input")
      then (handle_input a.handler.now m w, [])
      else if is_type (codes "resize")
      then (w, [])
      else if is_type (codes "lab_start")
      then (handle_lab_start a.parse_duration a.lab a.handler.now labs m w, [])
      else if is_type (codes "lab_stop")
      then (handle_lab_stop (is_some labs) w, [])
      else if is_type (codes "shell")
      then handle_shell d a.handler a.shell_cmd m w
      else if is_type (codes "write")
      then (handle_write a.write m w, [])
      else if is_type (codes "read_files")
      then (handle_read_files a.read w, [])
      else if is_type (codes "ping")
      then (send_message pong w, [])
      else (send_error (codes "Unknown message type: " ++ m.message_type) w, [])

  -- A message that is no JSON of a client message is none.
  unfoldable pub receive : MessageAnswers → Option ClientMessage → World → Handled
  receive a none w = (send_error (codes "Invalid message format") w, [])
  receive a (some m) w = dispatch a m w
