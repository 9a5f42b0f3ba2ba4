-- ===== src/Session/Writes.antt =====
-- handler/websocket.go and executor/container.go: what a client's write sends to its container.
use modigo_runner.Docker.Archive.{Mode}

abbrev pub file_mode : Mode
file_mode = record { owner = 6; group = 4; others = 4 }
