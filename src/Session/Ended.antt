-- ===== src/Session/Ended.antt =====
-- handler/websocket.go: what the goroutines of runs and shells give back when they end.
use modigo_runner.Base.{
  ℕ, suc, ◌+◌, refl, Bool, true, false, [], ◌∷◌, Text, is_empty, ◌==◌, arith, ◌&&◌, Bool-cases,
  Option-cases, Result-cases, inl, inr,
}
use modigo_runner.Docker.Calls.{wait, inspect}
use modigo_runner.Session.{World, release_slot, is_current}
use modigo_runner.Session.Run.{
  Goroutine, run_waiting, run_reporting, run_closing, shell_waiting, shell_closing, dec_user,
}
use modigo_runner.Session.Exit.{
  ExitAnswers, finish_run, close_current, send_files, report_exit, inspected, await_shell,
  close_shell, advance,
}
use modigo_runner.Session.Threads.{counts}
use modigo_runner.Session.Owned.{
  Owns, close_session-Owns, release_slot-Owns, dec_user-Owns, sent-Owns, trace-Owns,
}
use modigo_runner.Session.Opened.{Kept}
use modigo_runner.Session.Kept.{weighed}

module _ (user : Text) (Base : Text → Type 0) (held others : ℕ) where
  abbrev Mine : World → ℕ → ℕ → Type 0
  Mine = Owns user Base held others

  finish_run-Kept :
      (w : World) (k r : ℕ) → Mine w (suc k) (1 + r) → Kept user Base held others k r (finish_run w)
  unfolding finish_run
  finish_run-Kept w k r o =
      let o1 =
        weighed user Base held others w (suc k) (suc k) (1 + r) (suc r) o refl (omega arith) in
      let o2 = dec_user-Owns user Base held others w (suc k) r o1 in
      let o3 = release_slot-Owns user Base held others (dec_user w) k r o2 in
      weighed user Base held others _ k (0 + k) r (0 + r) o3 (omega arith) (omega arith)

  release-Kept :
      (w : World) (k r : ℕ)
      → Mine w (suc k) (0 + r)
      → Kept user Base held others k r (release_slot w, [])
  release-Kept w k r o =
      weighed user Base held others _ k (0 + k) (0 + r) (0 + r)
        (release_slot-Owns user Base held others w k (0 + r) o) (omega arith) refl

  close_current-Mine : (gen : ℕ) (w : World) (k r : ℕ) → Mine w k r → Mine (close_current gen w) k r
  unfolding close_current
  close_current-Mine gen w k r o = elim (Bool-cases (is_current w.st gen)) [
    | inl e ↦ rw (e, close_current) (close_session-Owns user Base held others w k r o)
    | inr e ↦ rw (e, close_current) o
  ]

  report_exit-Mine :
      (a : ExitAnswers) (id : Text) (b : Bool) (w : World) (k r : ℕ)
      → Mine w k r
      → Mine (report_exit a id b w) k r
  unfolding report_exit send_files
  report_exit-Mine a id b w k r o =
      let o1 : Mine (send_files a.files w) k r = elim (Result-cases a.files) [
        | inl ((fs, folders), e) ↦ elim (Bool-cases (is_empty fs && is_empty folders)) [
          | inl q ↦ rw (e, q, send_files) o
          | inr q ↦ rw (e, q, send_files) (sent-Owns user Base held others w k r _ o)
        ]
        | inr (x, e) ↦ rw (e, send_files) o
      ] in
      sent-Owns user Base held others (send_files a.files w) k r _ o1

  one_left : (w : World) (k r c : ℕ) → Mine w (suc k) (c + r) → Mine w (1 + k) (c + 0 + r)
  one_left w k r c o =
      weighed user Base held others w (suc k) (1 + k) (c + r) (c + 0 + r) o (omega arith)
        (omega arith)

  inspected-Mine :
      (id : Text) (timed_out : Bool) (w : World) (k r : ℕ)
      → Mine w k r
      → Mine (inspected id timed_out w) k r
  unfolding inspected
  inspected-Mine id true w k r o = o
  inspected-Mine id false w k r o =
      trace-Owns user Base held others w k r (inspect id ∷ w.trace) o refl

  -- A goroutine that goes on keeps its slot and its count; one that ends gives both back.
  pub advance-Kept :
      (a : ExitAnswers) (g : Goroutine) (w : World) (k r : ℕ)
      → Mine w (suc k) (counts g + r)
      → Kept user Base held others k r (advance a g w)
  unfolding advance await_shell close_shell
  advance-Kept a (run_waiting gen) w k r o = elim (Option-cases w.st.session) [
    | inl e ↦ rw (e, advance) (finish_run-Kept w k r o)
    | inr (s, e) ↦ elim (Bool-cases (is_current w.st gen)) [
      | inl q ↦
          rw (e, q, advance)
            (one_left (record w { trace = wait s.container_id ∷ w.trace }) k r 1
              (trace-Owns user Base held others w (suc k) (1 + r) (wait s.container_id ∷ w.trace) o
                refl))
      | inr q ↦ rw (e, q, advance) (finish_run-Kept w k r o)
    ]
  ]
  advance-Kept a (run_reporting gen id timed_out) w k r o =
      let o1 = inspected-Mine id timed_out w (suc k) (1 + r) o in
      let w1 = inspected id timed_out w in
      elim (Bool-cases (w.st.generation == gen)) [
        | inl q ↦
            rw (q, advance)
              (one_left (report_exit a id timed_out w1) k r 1
                (report_exit-Mine a id timed_out w1 (suc k) (1 + r) o1))
        | inr q ↦ rw (q, advance) (finish_run-Kept w1 k r o1)
      ]
  advance-Kept a (run_closing gen) w k r o =
      finish_run-Kept (close_current gen w) k r (close_current-Mine gen w (suc k) (1 + r) o)
  advance-Kept a (shell_waiting gen) w k r o = elim (Option-cases w.st.session) [
    | inl e ↦ rw (e, await_shell) (release-Kept w k r o)
    | inr (s, e) ↦ elim (Bool-cases (is_current w.st gen)) [
      | inl q ↦
          rw (e, q, await_shell)
            (one_left (record w { trace = wait s.container_id ∷ w.trace }) k r 0
              (trace-Owns user Base held others w (suc k) (0 + r) (wait s.container_id ∷ w.trace) o
                refl))
      | inr q ↦ rw (e, q, await_shell) (release-Kept w k r o)
    ]
  ]
  advance-Kept a (shell_closing gen) w k r o =
      release-Kept (close_current gen w) k r (close_current-Mine gen w (suc k) (0 + r) o)
