-- ===== src/Session/Kept.antt =====
-- handler/websocket.go: what the handlers of runs and shells, and their goroutines, own and give back.
use modigo_runner.Base.{
  ℕ, suc, ◌+◌, ◌≡◌, refl, ◌∙◌, ap, subst, sym, Bool, false, List, [], ◌∷◌, none, some, Text,
  is_empty, arith, ok, Bool-cases, Option-cases, Result-cases, inl, inr,
}
use modigo_runner.Docker.{DockerClient}
use modigo_runner.Docker.Calls.{Trace, containers, Absent}
use modigo_runner.Docker.Stage.{File}
use modigo_runner.Docker.Create.{InteractiveSession, create_interactive}
use modigo_runner.Docker.Shell.{create_shell}
use modigo_runner.Docker.Leaks.{NewNames, create_interactive-Settled, create_shell-Settled}
use modigo_runner.Users.{Users, track_user_run, delete_user_run}
use modigo_runner.Session.{
  ServerMessage, started, ClientMessage, World, SessionState, close_session, next_generation,
  acquire_slot, lab_network_id,
}
use modigo_runner.Session.Run.{
  HandlerAnswers, code_of, take_user_slot, set_lab_student, run_started, run_created, run_admitted,
  handle_run,
}
use modigo_runner.Session.Shell.{shell_language, shell_created, handle_shell}
use modigo_runner.Session.Owned.{
  Owns, next_generation-Owns, acquire_slot-Owns, release_slot-Owns, dec_user-Owns,
  take_user_slot-Owns, take_user_slot-same, admitted_Owns, refused_Owns, sent-Owns, trace-Owns,
  st-Owns,
}
use modigo_runner.Session.Opened.{
  Kept, Settled-ok, Settled-err, next_generation-session, opened-Owns, tracked-Owns,
}

close-users_of :
    (w : World) (u : Users)
    → (close_session (record w { users = u })).trace ≡ (close_session w).trace
unfolding close_session
close-users_of w u = ground arith

module _ (user : Text) (Base : Text → Type 0) (held others : ℕ) where
  pub weighed :
      (w : World) (k k' r r' : ℕ)
      → Owns user Base held others w k r
      → k ≡ k'
      → r ≡ r'
      → Owns user Base held others w k' r'
  weighed w k k' r r' o ek er =
      subst (λ x. Owns user Base held others w x r') ek
        (subst (λ y. Owns user Base held others w k y) er o)

  started-Owns :
      (now : ℕ) (w : World) (k r : ℕ) (st : SessionState) (s : InteractiveSession) (es : Trace)
      → Owns user Base held others w (suc k) (suc r)
      → w.st.session ≡ none
      → st.user_id ≡ w.st.user_id
      → st.session ≡ some s
      → containers es ≡ s.container_id ∷ containers w.trace
      → let id = s.container_id in
        Owns user Base held others
          (record w {
            st = st;
            users = delete_user_run st.user_id id (track_user_run st.user_id id now w.users);
            trace = es;
            sent = started ∷ w.sent;
          })
          (1 + k)
          (1 + 0 + r)
  started-Owns now w k r st s es o closed same_user opened one_more =
      let opened_o =
        opened-Owns user Base held others w (suc k) (suc r) st s es o closed same_user opened
          one_more in
      let w1 : World = record w { st = st; trace = es } in
      let tracked =
        tracked-Owns user Base held others w1 (suc k) (suc r) s.container_id now opened_o in
      let w2 : World = record w1 {
        users =
            delete_user_run st.user_id s.container_id
              (track_user_run st.user_id s.container_id now w.users);
      } in
      weighed _ (suc k) (1 + k) (suc r) (1 + 0 + r)
        (sent-Owns user Base held others w2 (suc k) (suc r) (started ∷ w.sent) tracked)
        (omega arith) (omega arith)

  run_started-Kept :
      (has_labs : Bool) (now : ℕ) (w : World) (k r : ℕ) (s : InteractiveSession) (es : Trace)
      → Owns user Base held others w (suc k) (suc r)
      → w.st.session ≡ none
      → containers es ≡ s.container_id ∷ containers w.trace
      → Kept user Base held others k r (run_started has_labs now s (record w { trace = es }))
  unfolding run_started set_lab_student
  run_started-Kept has_labs now w k r s es o closed one_more = elim (Option-cases w.st.lab) [
    | inl e ↦
        rw (e, run_started, set_lab_student)
          (started-Owns now w k r _ s es o closed refl refl one_more)
    | inr (lab, e) ↦ elim (Bool-cases has_labs) [
      | inl h ↦
          rw (e, h, run_started, set_lab_student)
            (started-Owns now w k r _ s es o closed refl refl one_more)
      | inr h ↦
          rw (e, h, run_started, set_lab_student)
            (started-Owns now w k r _ s es o closed refl refl one_more)
    ]
  ]

  module _ (d : DockerClient) (has_labs : Bool) (a : HandlerAnswers) (m : ClientMessage) where
    pub run_created-Kept :
        (code : Text) (extra : List File) (w : World) (k r : ℕ)
        → Owns user Base held others w (suc k) (suc r)
        → w.st.session ≡ none
        → NewNames w.trace a.docker.create a.docker.temp_dir
        → Kept user Base held others k r (run_created d has_labs a m code extra w)
    unfolding run_created
    run_created-Kept code extra w k r o closed fresh =
        let network = lab_network_id w.st in
        let c = create_interactive d a.docker m.language code network extra w.trace in
        let settled =
          create_interactive-Settled d a.docker m.language code network extra w.trace fresh in
        elim (Result-cases c.1) [
          | inl (s, e) ↦
              rw (e, run_created)
                (run_started-Kept has_labs a.now w k r s c.0 o closed
                  (Settled-ok w.trace c s e settled))
          | inr (x, e) ↦
              let o1 =
                trace-Owns user Base held others w (suc k) (suc r) c.0 o
                  (Settled-err w.trace c x e settled) in
              let o2 = release_slot-Owns user Base held others _ k (suc r) o1 in
              let o3 = dec_user-Owns user Base held others _ k r o2 in
              rw (e, run_created)
                (weighed _ k (0 + k) r (0 + r) (sent-Owns user Base held others _ k r _ o3)
                  (omega arith) (omega arith))
        ]

    run_admitted-Kept :
        (code : Text) (extra : List File) (w : World) (k r : ℕ)
        → Owns user Base held others w k (suc r)
        → NewNames (close_session w).trace a.docker.create a.docker.temp_dir
        → Kept user Base held others k r (run_admitted d has_labs a m code extra w)
    unfolding run_admitted acquire_slot next_generation run_created
    run_admitted-Kept code extra w k r o fresh =
        let w1 = next_generation w in
        let o1 = next_generation-Owns user Base held others w k (suc r) o in
        let w2 : World = record w1 { st = record w1.st { timed_out = false } } in
        let o2 =
          st-Owns user Base held others w1 k (suc r) (record w1.st { timed_out = false }) o1 refl
            refl in
        elim (Bool-cases a.slot) [
          | inl e ↦
              rw (e, run_admitted)
                (run_created-Kept code extra (acquire_slot w2) k r
                  (acquire_slot-Owns user Base held others w2 k (suc r) o2)
                  (next_generation-session w) fresh)
          | inr e ↦
              rw (e, run_admitted)
                (weighed _ k (0 + k) r (0 + r)
                  (sent-Owns user Base held others _ k r _
                    (dec_user-Owns user Base held others w2 k r o2))
                  (omega arith) (omega arith))
        ]

    refused-Kept :
        (w : World) (k r : ℕ) (sent : List ServerMessage)
        → Owns user Base held others w k r
        → Kept user Base held others k r (record w { sent = sent }, [])
    refused-Kept w k r sent o =
        weighed _ k (0 + k) r (0 + r) (sent-Owns user Base held others w k r sent o) (omega arith)
          (omega arith)

    close-users :
        (w w' : World)
        → w' ≡ record w { users = w'.users }
        → (close_session w').trace ≡ (close_session w).trace
    close-users w w' e = ap (λ v. (close_session v).trace) e ∙ close-users_of w w'.users

    pub handle_run-Kept :
        (w : World) (k r : ℕ)
        → Owns user Base held others w k r
        → NewNames (close_session w).trace a.docker.create a.docker.temp_dir
        → Kept user Base held others k r (handle_run d has_labs a m w)
    unfolding handle_run
    handle_run-Kept w k r o fresh =
        let admits = take_user_slot-Owns user Base held others w k r o in
        let same =
          close-users w (take_user_slot w).1 (take_user_slot-same user Base held others w k r o) in
        elim (Bool-cases (is_empty m.language)) [
          | inl e ↦ rw (e, handle_run) (refused-Kept w k r _ o)
          | inr e1 ↦ elim (Bool-cases (is_empty (code_of m).0)) [
            | inl e ↦ rw (e1, e, handle_run) (refused-Kept w k r _ o)
            | inr e2 ↦ elim (Bool-cases (take_user_slot w).0) [
              | inl e ↦
                  rw (e1, e2, e, handle_run)
                    (run_admitted-Kept (code_of m).0 (code_of m).1 (take_user_slot w).1 k r
                      (admitted_Owns user Base held others k r (take_user_slot w) e admits)
                      (subst (λ es. NewNames es a.docker.create a.docker.temp_dir) (sym same)
                        fresh))
              | inr e ↦
                  rw (e1, e2, e, handle_run)
                    (refused-Kept (take_user_slot w).1 k r _
                      (refused_Owns user Base held others k r (take_user_slot w) e admits))
            ]
          ]
        ]

  module _ (d : DockerClient) (a : HandlerAnswers) (shell_cmd : Text) (m : ClientMessage) where
    shell_created-Kept :
        (w : World) (k r : ℕ)
        → Owns user Base held others w (suc k) r
        → w.st.session ≡ none
        → ((id : Text) → a.docker.create ≡ ok id → Absent id (containers w.trace))
        → Kept user Base held others k r (shell_created d a shell_cmd m w)
    unfolding shell_created
    shell_created-Kept w k r o closed fresh =
        let network = lab_network_id w.st in
        let lang = shell_language m.language in
        let c = create_shell d a.docker shell_cmd lang network w.trace in
        let settled = create_shell-Settled d a.docker shell_cmd lang network w.trace fresh in
        elim (Result-cases c.1) [
          | inl (s, e) ↦
              rw (e, shell_created)
                (weighed _ (suc k) (1 + k) r (0 + 0 + r)
                  (sent-Owns user Base held others _ (suc k) r _ (
                    opened-Owns user Base held others w (suc k) r
                      (record w.st { session = some s; shell_last_activity = a.now }) s c.0 o closed
                      refl refl (Settled-ok w.trace c s e settled)))
                  (omega arith) (omega arith))
          | inr (x, e) ↦
              let o1 =
                trace-Owns user Base held others w (suc k) r c.0 o
                  (Settled-err w.trace c x e settled) in
              let o2 = release_slot-Owns user Base held others _ k r o1 in
              rw (e, shell_created)
                (weighed _ k (0 + k) r (0 + r) (sent-Owns user Base held others _ k r _ o2)
                  (omega arith) (omega arith))
        ]

    pub handle_shell-Kept :
        (w : World) (k r : ℕ)
        → Owns user Base held others w k r
        → NewNames (close_session w).trace a.docker.create a.docker.temp_dir
        → Kept user Base held others k r (handle_shell d a shell_cmd m w)
    unfolding handle_shell acquire_slot next_generation shell_created
    handle_shell-Kept w k r o (fresh, _) =
        let w1 = next_generation w in
        let o1 = next_generation-Owns user Base held others w k r o in
        elim (Bool-cases a.slot) [
          | inl e ↦
              rw (e, handle_shell)
                (shell_created-Kept (acquire_slot w1) k r
                  (acquire_slot-Owns user Base held others w1 k r o1) (next_generation-session w)
                  fresh)
          | inr e ↦
              rw (e, handle_shell)
                (weighed _ k (0 + k) r (0 + r) (sent-Owns user Base held others w1 k r _ o1)
                  (omega arith) (omega arith))
        ]
