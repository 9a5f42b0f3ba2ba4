-- ===== src/Session/Steady.antt =====
-- handler/websocket.go: what a session owns through timers, input, and the end of the connection.
use modigo_runner.Base.{
  ℕ, ◌+◌, ◌-◌, ◌≡◌, refl, subst, sym, not, ◌||◌, ltb, true, [], ◌∷◌, Option, Text, arith,
  Bool-cases, Option-cases, inl, inr,
}
use modigo_runner.Docker.Calls.{write_stdin, cancel}
use modigo_runner.Session.{ClientMessage, World, is_current}
use modigo_runner.Session.Exit.{bridge, kill, reap_shell, shell_idle_timeout, cancel_session}
use modigo_runner.Session.Files.{handle_input, handle_write, handle_read_files}
use modigo_runner.Session.Dispatch.{MessageAnswers}
use modigo_runner.Session.Owned.{Owns, sent-Owns, trace-Owns, st-Owns}
use modigo_runner.Session.Opened.{Kept}
use modigo_runner.Session.Kept.{weighed}

module _ (user : Text) (Base : Text → Type 0) (held others : ℕ) where
  abbrev pub Mine : World → ℕ → ℕ → Type 0
  Mine = Owns user Base held others

  cancel_session-Mine : (w : World) (k r : ℕ) → Mine w k r → Mine (cancel_session w) k r
  unfolding cancel_session
  cancel_session-Mine w k r o = elim (Option-cases w.st.session) [
    | inl e ↦ rw (e, cancel_session) o
    | inr (s, e) ↦
        rw (e, cancel_session)
          (trace-Owns user Base held others w k r (cancel s.container_id ∷ w.trace) o refl)
  ]

  pub bridge-Mine :
      (gen : ℕ) (t : Text) (w : World) (k r : ℕ) → Mine w k r → Mine (bridge gen t w) k r
  unfolding bridge
  bridge-Mine gen t w k r o = elim (Bool-cases (is_current w.st gen)) [
    | inl e ↦ rw (e, bridge) (sent-Owns user Base held others w k r _ o)
    | inr e ↦ rw (e, bridge) o
  ]

  pub kill-Mine : (gen : ℕ) (w : World) (k r : ℕ) → Mine w k r → Mine (kill gen w) k r
  unfolding kill
  kill-Mine gen w k r o =
      let w1 : World = record w { st = record w.st { timed_out = true } } in
      elim (Bool-cases (is_current w.st gen)) [
        | inl e ↦
            rw (e, kill)
              (cancel_session-Mine w1 k r (st-Owns user Base held others w k r w1.st o refl refl))
        | inr e ↦ rw (e, kill) o
      ]

  pub reap_shell-Mine :
      (gen now : ℕ) (w : World) (k r : ℕ) → Mine w k r → Mine (reap_shell gen now w) k r
  unfolding reap_shell
  reap_shell-Mine gen now w k r o =
      elim (Bool-cases
        (not (is_current w.st gen) || ltb (now - w.st.shell_last_activity) shell_idle_timeout)) [
          | inl e ↦ rw (e, reap_shell) o
          | inr e ↦
              rw (e, reap_shell)
                (cancel_session-Mine _ k r (sent-Owns user Base held others w k r _ o))
        ]

  pub Kept-none : (w : World) (k r : ℕ) → Mine w k r → Kept user Base held others k r (w, [])
  Kept-none w k r o =
      weighed user Base held others w k (0 + k) r (0 + r) o (omega arith) (omega arith)

  pub handle_input-Mine :
      (now : ℕ) (m : ClientMessage) (w : World) (k r : ℕ)
      → Mine w k r
      → Mine (handle_input now m w) k r
  unfolding handle_input
  handle_input-Mine now m w k r o =
      let w1 : World = record w { st = record w.st { shell_last_activity = now } } in
      elim (Option-cases w.st.session) [
        | inl e ↦ rw (e, handle_input) o
        | inr (s, e) ↦ elim (Bool-cases s.has_conn) [
          | inl c ↦
              rw (e, c, handle_input)
                (trace-Owns user Base held others w1 k r
                  (write_stdin s.container_id m.input ∷ w.trace)
                  (st-Owns user Base held others w k r w1.st o refl refl) refl)
          | inr c ↦ rw (e, c, handle_input) o
        ]
      ]

  -- The handlers that only send messages.
  abbrev pub OnlySent : World → World → Type 0
  OnlySent w w' = w' ≡ record w { sent = w'.sent }

  pub OnlySent-Mine : (w w' : World) (k r : ℕ) → OnlySent w w' → Mine w k r → Mine w' k r
  OnlySent-Mine w w' k r e o =
      subst (λ v. Mine v k r) (sym e) (sent-Owns user Base held others w k r w'.sent o)

  pub handle_write-sent :
      (write : Text → Text → Option Text) (m : ClientMessage) (w : World)
      → OnlySent w (handle_write write m w)
  unfolding handle_write
  handle_write-sent write m w = ground arith

  pub handle_read_files-sent :
      (a : MessageAnswers) (w : World) → OnlySent w (handle_read_files a.read w)
  unfolding handle_read_files
  handle_read_files-sent a w = ground arith
