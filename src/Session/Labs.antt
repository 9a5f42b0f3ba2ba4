-- ===== src/Session/Labs.antt =====
-- handler/websocket.go: `handleLabStart` and `handleLabStop`. The manager is none where labs are
-- switched off.
use modigo_runner.Base.{
  ℕ, ◌*◌, ℤ, pos, ltb_ℤ, Bool, ◌++◌, Option, none, some, Text, codes, is_empty, if◌then◌else◌, ok,
  err,
}
use modigo_runner.Ratelimit.Decimal.{itoa}
use modigo_runner.Lab.{LabManager, LabAnswers, start_lab, stop_lab, target_port}
use modigo_runner.Session.{
  lab_started, lab_stopped, LabConfig, ClientMessage, World, send_message, send_error,
}

abbrev minute : ℕ
minute = 60 * 1000000000

-- Five minutes, or what the text says (`parse_duration` is `time.ParseDuration`), at most 30 minutes.
unfoldable pub lab_timeout : (Text → Option ℤ) → Text → ℤ
lab_timeout parse_duration text =
    let wanted : ℤ = elim (parse_duration text) [ none ↦ pos (5 * minute) | some d ↦ d ] in
    if is_empty text
    then pos (5 * minute)
    else if ltb_ℤ (pos (30 * minute)) wanted
    then pos (30 * minute)
    else wanted

unfoldable pub stop_current_lab : World → World
stop_current_lab w = record w { st = record w.st { lab = none }; trace = stop_lab w.st.lab w.trace }

unfoldable pub session_id_of : (now generation : ℕ) → Text
session_id_of now generation = codes "lab-" ++ itoa (pos now) ++ codes "-" ++ itoa (pos generation)

module _ (parse_duration : Text → Option ℤ) (a : LabAnswers) (now : ℕ) where
  unfoldable pub start_configured : LabManager → LabConfig → World → World
  start_configured lm c w =
      let port = target_port c.target.target_type c.target.port in
      let (es, started) =
        start_lab lm a (session_id_of now w.st.generation) c.target
          (lab_timeout parse_duration c.timeout) w.trace in
      let w1 : World = record w { trace = es } in
      elim started [
        | err e ↦ send_error (codes "Failed to start lab: " ++ e) w1
        | ok lab ↦
            send_message
              (lab_started (codes "http://target:" ++ itoa port) c.target.target_type
                lab.expires_at)
              (record w1 { st = record w1.st { lab = some lab } })
      ]

  unfoldable pub handle_lab_start : Option LabManager → ClientMessage → World → World
  handle_lab_start none m w = send_error (codes "Lab mode not available") w
  handle_lab_start (some lm) m w = elim m.lab [
    | none ↦ send_error (codes "lab config is required for lab_start") (stop_current_lab w)
    | some c ↦ start_configured lm c (stop_current_lab w)
  ]

unfoldable pub handle_lab_stop : (has_labs : Bool) → World → World
handle_lab_stop has_labs w = elim w.st.lab [
  | none ↦ send_error (codes "No active lab session") w
  | some lab ↦
      let w1 : World = record w { st = record w.st { lab = none } } in
      let stopped : World =
        if has_labs then record w1 { trace = stop_lab (some lab) w1.trace } else w1 in
      send_message (lab_stopped (codes "Lab session ended")) stopped
]
