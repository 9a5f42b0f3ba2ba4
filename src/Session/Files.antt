-- ===== src/Session/Files.antt =====
-- handler/websocket.go: the handlers for what the client sends to a container that runs.
use modigo_runner.Base.{
  ℕ, ◌||◌, ◌==◌, List, ◌∷◌, ◌++◌, Option, none, some, Text, codes, text_eq, contains, has_prefix,
  trim_prefix, is_empty, if◌then◌else◌, Result, ok, err,
}
use modigo_runner.Docker.Calls.{write_stdin}
use modigo_runner.Docker.Stage.{File}
use modigo_runner.Session.{files, ClientMessage, World, send_message, send_error}

-- A write that fails is only logged.
unfoldable pub handle_input : ℕ → ClientMessage → World → World
handle_input now m w = elim w.st.session [
  | none ↦ w
  | some s ↦
      if s.has_conn
      then record w {
        st = record w.st { shell_last_activity = now };
        trace = write_stdin s.container_id m.input ∷ w.trace;
      }
      else w
]

-- The container, the columns and the rows that the terminal is resized to, if it is.
unfoldable pub handle_resize : ClientMessage → World → Option (Text × ℕ × ℕ)
handle_resize m w = elim w.st.session [
  | none ↦ none
  | some s ↦ if m.cols == 0 || m.rows == 0 then none else some (s.container_id, m.cols, m.rows)
]

-- "Sanitize path": the path below /code, or none for an invalid one.
unfoldable pub sanitize : Text → Option Text
sanitize path =
    let path_clean = trim_prefix (trim_prefix path (codes "/")) (codes "./") in
    let resolved = codes "/code/" ++ path_clean in
    if contains path_clean (codes "..")
    then none
    else if text_eq resolved (codes "/code/") || has_prefix resolved (codes "/code/../")
    then none
    else some path_clean

abbrev sent_write : (Text → Text → Option Text) → Text → Text → World → World
sent_write write content path w = elim (write path content) [
  | none ↦ w
  | some e ↦ send_error (codes "Failed to write file: " ++ e) w
]

-- `write` is what `WriteFileToContainer` answers for a path and a content.
unfoldable pub handle_write : (Text → Text → Option Text) → ClientMessage → World → World
handle_write write m w = elim w.st.session [
  | none ↦ send_error (codes "No active container — run code first") w
  | some s ↦
      if is_empty m.path
      then send_error (codes "path is required for write") w
      else elim (sanitize m.path) [
        | none ↦ send_error (codes "invalid path") w
        | some path ↦ sent_write write m.input path w
      ]
]

unfoldable pub handle_read_files : Result (List File × List Text) → World → World
handle_read_files found w = elim w.st.session [
  | none ↦ send_error (codes "No active container") w
  | some s ↦ elim found [
    | err e ↦ send_error (codes "Failed to read files: " ++ e) w
    | ok (fs, folders) ↦ send_message (files fs folders) w
  ]
]
