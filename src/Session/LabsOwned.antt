-- ===== src/Session/LabsOwned.antt =====
-- handler/websocket.go: what a session owns when a lab is started and stopped.
use modigo_runner.Base.{
  ℕ, ◌≡◌, refl, sym, subst, inl, inr, Bool, true, is_some, ℤ, List, [], ◌∷◌, Option, none, some,
  Text, is_empty, if◌then◌else◌, text_eq, Option-cases, Result-cases, Bool-cases, ok,
}
use modigo_runner.Docker.Calls.{Trace, containers, drop_text, remove_dir}
use modigo_runner.Docker.Create.{InteractiveSession}
use modigo_runner.Lab.{LabManager, LabAnswers, LabSession, start_lab, stop_lab, remove_containers}
use modigo_runner.Lab.Left.{target_left, start_lab-containers}
use modigo_runner.Session.{LabConfig, ClientMessage, World, close_session, disconnect}
use modigo_runner.Session.Labs.{
  lab_timeout, session_id_of, stop_current_lab, start_configured, handle_lab_start, handle_lab_stop,
}
use modigo_runner.Session.Owned.{Left, Owns, close_session-Owns, sent-Owns, trace-Owns}

module _ (Base : Text → Type 0) (session : Option InteractiveSession) where
  pub drop_text-shrinks :
      (x : Text) (ids : List Text) → Left Base session ids → Left Base session (drop_text x ids)
  drop_text-shrinks x [] h = tt
  drop_text-shrinks x (y ∷ ys) (h, hs) = elim (Bool-cases (text_eq y x)) [
    | inl e ↦ rw e (drop_text-shrinks x ys hs)
    | inr e ↦ rw e (h, drop_text-shrinks x ys hs)
  ]

  remove_containers-Left :
      (ids : List Text) (es : Trace)
      → Left Base session (containers es)
      → Left Base session (containers (remove_containers ids es))
  unfolding remove_containers
  remove_containers-Left [] es h = h
  remove_containers-Left (id ∷ ids) es h =
      remove_containers-Left ids _ (drop_text-shrinks id (containers es) h)

  -- Stopping a lab creates no container.
  pub stop_lab-Left :
      (lab : Option LabSession) (es : Trace)
      → Left Base session (containers es)
      → Left Base session (containers (stop_lab lab es))
  unfolding stop_lab
  stop_lab-Left none es h = h
  stop_lab-Left (some lab) es h = elim (Bool-cases (is_empty lab.student_id)) [
    | inl e ↦ rw (e, stop_lab) (remove_containers-Left lab.target_ids _ h)
    | inr e ↦
        rw (e, stop_lab)
          (remove_containers-Left lab.target_ids _
            (drop_text-shrinks lab.student_id (containers es) h))
  ]

  target_left-Left :
      (a : LabAnswers) (ids : List Text)
      → ((id : Text) → a.create ≡ ok id → Base id)
      → Left Base session ids
      → Left Base session (target_left a ids)
  target_left-Left a ids targets h = elim (Result-cases a.create_network) [
    | inr (x, e) ↦ rw (e, target_left) h
    | inl (n, e) ↦ elim (Result-cases a.create) [
      | inr (x, c) ↦ rw (e, c, target_left) h
      | inl (id, c) ↦ rw (e, c, target_left) (inr (targets id c), h)
    ]
  ]

module _ (user : Text) (Base : Text → Type 0) (held others : ℕ) where
  abbrev Mine : World → ℕ → ℕ → Type 0
  Mine = Owns user Base held others

  -- The trace and the lab of the state may change, if the containers do not become more.
  pub relab-Owns :
      (w : World) (lab : Option LabSession) (es : Trace) (k r : ℕ)
      → Mine w k r
      → Left Base w.st.session (containers es)
      → Mine (record w { st = record w.st { lab = lab }; trace = es }) k r
  relab-Owns w lab es k r o h = record {
    is_user = o.is_user;
    slots = o.slots;
    count = o.count;
    untracked = o.untracked;
    left = h;
  }

  stop_current_lab-Mine : (w : World) (k r : ℕ) → Mine w k r → Mine (stop_current_lab w) k r
  unfolding stop_current_lab
  stop_current_lab-Mine w k r o =
      relab-Owns w none _ k r o (stop_lab-Left Base w.st.session w.st.lab w.trace o.left)

  pub handle_lab_stop-Mine :
      (has_labs : Bool) (w : World) (k r : ℕ) → Mine w k r → Mine (handle_lab_stop has_labs w) k r
  unfolding handle_lab_stop
  handle_lab_stop-Mine has_labs w k r o = elim (Option-cases w.st.lab) [
    | inl e ↦ rw (e, handle_lab_stop) (sent-Owns user Base held others w k r _ o)
    | inr (lab, e) ↦
        let w1 : World = record w { st = record w.st { lab = none } } in
        elim (Bool-cases has_labs) [
          | inl b ↦
              let w2 : World = record w1 { trace = stop_lab (some lab) w.trace } in
              rw (e, b, handle_lab_stop)
                (sent-Owns user Base held others w2 k r _ (
                  relab-Owns w none _ k r o
                    (stop_lab-Left Base w.st.session (some lab) w.trace o.left)))
          | inr b ↦
              rw (e, b, handle_lab_stop)
                (sent-Owns user Base held others w1 k r _ (relab-Owns w none _ k r o o.left))
        ]
  ]

  pub disconnect-Mine :
      (has_labs : Bool) (w : World) (k r : ℕ) → Mine w k r → Mine (disconnect has_labs w) k r
  unfolding disconnect
  disconnect-Mine has_labs w k r o =
      let w1 = close_session w in
      let o1 = close_session-Owns user Base held others w k r o in
      let without : (w2 : World)
          → Mine w2 k r
          → Mine
              (if has_labs
                then record w2 {
                  st = record w2.st { lab = none };
                  trace = stop_lab w2.st.lab w2.trace;
                }
                else w2)
              k r =
        λ w2 o2. elim (Bool-cases has_labs) [
          | inl b ↦ rw b (
              relab-Owns w2 none _ k r o2
                (stop_lab-Left Base w2.st.session w2.st.lab w2.trace o2.left))
          | inr b ↦ rw b o2
        ] in
      elim (Bool-cases (is_empty w1.st.temp_dir)) [
        | inl e ↦ rw (e, disconnect) (without w1 o1)
        | inr e ↦
            rw (e, disconnect)
              (without (record w1 { trace = remove_dir w1.st.temp_dir ∷ w1.trace })
                (trace-Owns user Base held others w1 k r (remove_dir w1.st.temp_dir ∷ w1.trace) o1
                  refl))
      ]

  module _ (parse_duration : Text → Option ℤ) (a : LabAnswers) (now : ℕ) where
    start_configured-Mine :
        (lm : LabManager) (c : LabConfig) (w : World) (k r : ℕ)
        → ((id : Text) → a.create ≡ ok id → Base id)
        → Mine w k r
        → Mine (start_configured parse_duration a now lm c w) k r
    unfolding start_configured
    start_configured-Mine lm c w k r targets o =
        let timeout = lab_timeout parse_duration c.timeout in
        let id = session_id_of now w.st.generation in
        let s = start_lab lm a id c.target timeout w.trace in
        let h : Left Base w.st.session (containers s.0) =
          subst (Left Base w.st.session)
            (sym (start_lab-containers lm a id c.target timeout w.trace))
            (target_left-Left Base w.st.session a (containers w.trace) targets o.left) in
        elim (Result-cases s.1) [
          | inl (lab, e) ↦
              rw (e, start_configured)
                (sent-Owns user Base held others _ k r _ (relab-Owns w (some lab) s.0 k r o h))
          | inr (x, e) ↦
              rw (e, start_configured)
                (sent-Owns user Base held others _ k r _ (relab-Owns w w.st.lab s.0 k r o h))
        ]

    pub handle_lab_start-Mine :
        (labs : Option LabManager) (m : ClientMessage) (w : World) (k r : ℕ)
        → ((id : Text) → is_some labs ≡ true → a.create ≡ ok id → Base id)
        → Mine w k r
        → Mine (handle_lab_start parse_duration a now labs m w) k r
    unfolding handle_lab_start
    handle_lab_start-Mine none m w k r targets o = sent-Owns user Base held others w k r _ o
    handle_lab_start-Mine (some lm) m w k r targets o =
        let stopped = stop_current_lab-Mine w k r o in
        elim (Option-cases m.lab) [
          | inl e ↦ rw (e, handle_lab_start) (sent-Owns user Base held others _ k r _ stopped)
          | inr (c, e) ↦
              rw (e, handle_lab_start)
                (start_configured-Mine lm c _ k r (λ id. targets id refl) stopped)
        ]
