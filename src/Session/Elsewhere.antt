-- ===== src/Session/Elsewhere.antt =====
-- handler/websocket.go: what a session owns while others take steps, and after its connection ended.
use modigo_runner.Base.{
  ℕ, Bool, true, false, ◌+◌, ◌-◌, ◌≡◌, ◌∙◌, subst, Option, none, some, ◌∷◌, Text, lookup, arith,
  inr,
}
use modigo_runner.Docker.Calls.{Event, Trace, containers, create, remove}
use modigo_runner.Docker.Create.{InteractiveSession}
use modigo_runner.Users.{Users, count_of}
use modigo_runner.Lab.{LabSession, stop_lab}
use modigo_runner.Session.{World, close_session, disconnect, release_slot, is_current}
use modigo_runner.Session.Run.{
  Goroutine, run_waiting, run_reporting, run_closing, shell_waiting, shell_closing, dec_user,
}
use modigo_runner.Session.Exit.{
  ExitAnswers, finish_run, close_current, report_exit, send_files, inspected, await_shell,
  close_shell, advance, bridge, kill, cancel_session, reap_shell,
}
use modigo_runner.Session.Threads.{IsForeign}
use modigo_runner.Session.Owned.{Left, Owns}
use modigo_runner.Session.LabsOwned.{drop_text-shrinks, stop_lab-Left, relab-Owns}

foreign-Left :
    (Base Nets : Text → Type 0) (session : Option InteractiveSession) (e : Event) (es : Trace)
    → IsForeign Base Nets e
    → Left Base session (containers es)
    → Left Base session (containers (e ∷ es))
foreign-Left Base Nets session (create id cfg host) es f h = (inr f, h)
foreign-Left Base Nets session (remove id) es f h =
    drop_text-shrinks Base session id (containers es) h
foreign-Left Base Nets session e es f h = h

module _ (user : Text) (Base Nets : Text → Type 0) (held others : ℕ) where
  pub expires-Owns :
      (lab : LabSession) (w : World) (k r : ℕ)
      → Owns user Base held others w k r
      → Owns user Base held others (record w { trace = stop_lab (some lab) w.trace }) k r
  expires-Owns lab w k r o =
      relab-Owns user Base held others w w.st.lab _ k r o
        (stop_lab-Left Base w.st.session (some lab) w.trace o.left)

  pub calls-Owns :
      (e : Event) (w : World) (k r : ℕ)
      → IsForeign Base Nets e
      → Owns user Base held others w k r
      → Owns user Base held others (record w { trace = e ∷ w.trace }) k r
  calls-Owns e w k r f o =
      relab-Owns user Base held others w w.st.lab _ k r o
        (foreign-Left Base Nets w.st.session e w.trace f o.left)

  pub shares-Owns :
      (held' : ℕ) (users : Users) (w : World) (k r : ℕ)
      → count_of w.st.user_id users ≡ count_of w.st.user_id w.users
      → lookup w.st.user_id users.runs ≡ lookup w.st.user_id w.users.runs
      → Owns user Base held others w k r
      → Owns user Base held' others
          (record w { slots = held' + (w.slots - held); users = users })
          k
          r
  shares-Owns held' users w k r count runs o = record {
    is_user = o.is_user;
    slots = omega (arith, o.slots);
    count = subst (λ u. count_of u users ≡ count_of u w.users) o.is_user count ∙ o.count;
    untracked =
        subst (λ u. lookup u users.runs ≡ lookup u w.users.runs) o.is_user runs ∙ o.untracked;
    left = o.left;
  }

-- A session that has been closed stays closed.
abbrev pub Closed : World → Type 0
Closed w = w.st.session ≡ none

pub disconnect-Closed : (has_labs : Bool) (w : World) → Closed (disconnect has_labs w)
unfolding disconnect close_session
disconnect-Closed has_labs w = ground arith

pub advance-Closed :
    (a : ExitAnswers) (g : Goroutine) (w : World) → Closed w → Closed (advance a g w).0
unfolding advance inspected finish_run close_current close_session report_exit send_files
    await_shell close_shell release_slot dec_user is_current
advance-Closed a (run_waiting gen) w c = ground arith
advance-Closed a (run_reporting gen id true) w c = ground arith
advance-Closed a (run_reporting gen id false) w c = ground arith
advance-Closed a (run_closing gen) w c = ground arith
advance-Closed a (shell_waiting gen) w c = ground arith
advance-Closed a (shell_closing gen) w c = ground arith

pub bridge-Closed : (gen : ℕ) (t : Text) (w : World) → Closed w → Closed (bridge gen t w)
unfolding bridge
bridge-Closed gen t w c = ground arith

pub kill-Closed : (gen : ℕ) (w : World) → Closed w → Closed (kill gen w)
unfolding kill cancel_session
kill-Closed gen w c = ground arith

pub reap_shell-Closed : (gen now : ℕ) (w : World) → Closed w → Closed (reap_shell gen now w)
unfolding reap_shell cancel_session
reap_shell-Closed gen now w c = ground arith
