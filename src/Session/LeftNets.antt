-- ===== src/Session/LeftNets.antt =====
-- handler/websocket.go: the lab networks that the handlers and others leave.
use modigo_runner.Base.{
  ℕ, ◌≡◌, refl, ap, subst, sym, Bool, true, false, List, [], ◌∷◌, Option, none, some, ℤ, Text, ◌⊎◌,
  text_eq_iff, All, codes, text_eq, is_empty, if◌then◌else◌, arith, Result, ok, Option-cases,
  Result-cases, Bool-cases, inl, inr,
}
use modigo_runner.Docker.{DockerClient}
use modigo_runner.Docker.Calls.{
  Event, Trace, networks, Absent, drop_text, create_network, remove_network,
}
use modigo_runner.Lab.{LabSession, LabManager, LabAnswers, start_lab, stop_lab, remove_containers}
use modigo_runner.Lab.Left.{LeftNetworks, start_lab-left}
use modigo_runner.Session.{LabConfig, ClientMessage, World, close_session, disconnect}
use modigo_runner.Session.Run.{Handled, handle_run}
use modigo_runner.Session.Shell.{handle_shell}
use modigo_runner.Session.Files.{handle_input, handle_write, handle_read_files}
use modigo_runner.Session.Labs.{
  lab_timeout, session_id_of, stop_current_lab, start_configured, handle_lab_start, handle_lab_stop,
}
use modigo_runner.Session.Dispatch.{MessageAnswers, dispatch, receive}
use modigo_runner.Session.Threads.{IsNewNetwork, IsForeign}
use modigo_runner.Session.Networks.{
  network_of, SameLab, handle_run-SameLab, handle_shell-SameLab, handle_input-SameLab,
  close_session-SameLab, handle_write-SameLab, handle_read_files-SameLab,
}

-- A network is that of the session's lab, if there is one, or one of others.
abbrev pub IsOwn : List Text → Text → Type 0
IsOwn [] x = ⊥
IsOwn (n ∷ ns) x = (x ≡ n) ⊎ IsOwn ns x

abbrev pub LeftNets : (Nets : Text → Type 0) → (own left : List Text) → Type 0
LeftNets Nets own left = All (λ x. IsOwn own x ⊎ Nets x) left

remove_containers-networks :
    (ids : List Text) (es : Trace) → networks (remove_containers ids es) ≡ networks es
unfolding remove_containers
remove_containers-networks [] es = refl
remove_containers-networks (id ∷ ids) es = remove_containers-networks ids _

-- Stopping a lab only takes its network away.
stop_lab-networks :
    (lab : LabSession) (es : Trace)
    → networks (stop_lab (some lab) es) ≡ drop_text lab.network_id (networks es)
unfolding stop_lab
stop_lab-networks lab es = elim (Bool-cases (is_empty lab.student_id)) [
  | inl b ↦
      rw (b, stop_lab) (ap (drop_text lab.network_id) (remove_containers-networks lab.target_ids _))
  | inr b ↦
      rw (b, stop_lab) (ap (drop_text lab.network_id) (remove_containers-networks lab.target_ids _))
]

drop_text-All :
    (P : Text → Type 0) (x : Text) (ids : List Text) → All P ids → All P (drop_text x ids)
drop_text-All P x [] h = tt
drop_text-All P x (y ∷ ys) (h, hs) = elim (Bool-cases (text_eq y x)) [
  | inl e ↦ rw e (drop_text-All P x ys hs)
  | inr e ↦ rw e (h, drop_text-All P x ys hs)
]

module _ (Nets : Text → Type 0) where
  drop_own-LeftNets :
      (n : Text) (ids : List Text) → LeftNets Nets (n ∷ []) ids → LeftNets Nets [] (drop_text n ids)
  drop_own-LeftNets n [] h = tt
  drop_own-LeftNets n (y ∷ ys) (h, hs) = elim (Bool-cases (text_eq y n)) [
    | inl e ↦ rw e (drop_own-LeftNets n ys hs)
    | inr e ↦ rw e (
      (elim h [
        | inl own ↦ elim own [
          | inl same ↦ absurd (ground (arith, text_eq_iff y n))
          | inr never ↦ absurd never
        ]
        | inr other ↦ inr other
      ]),
      drop_own-LeftNets n ys hs,
    )
  ]

  widen-LeftNets : (own ids : List Text) → LeftNets Nets [] ids → LeftNets Nets own ids
  widen-LeftNets own [] h = tt
  widen-LeftNets own (y ∷ ys) (h, hs) =
      ((elim h [ inl never ↦ absurd never | inr other ↦ inr other ]), widen-LeftNets own ys hs)

  pub others-LeftNets : (ids : List Text) → LeftNets Nets [] ids → All Nets ids
  others-LeftNets [] h = tt
  others-LeftNets (y ∷ ys) (h, hs) =
      ((elim h [ inl never ↦ absurd never | inr other ↦ other ]), others-LeftNets ys hs)

  abbrev Networked : World → Type 0
  Networked w = LeftNets Nets (network_of w.st.lab) (networks w.trace)

  stopped-LeftNets :
      (lab : Option LabSession) (es : Trace)
      → LeftNets Nets (network_of lab) (networks es)
      → LeftNets Nets [] (networks (stop_lab lab es))
  unfolding stop_lab
  stopped-LeftNets none es h = h
  stopped-LeftNets (some lab) es h =
      subst (LeftNets Nets []) (sym (stop_lab-networks lab es))
        (drop_own-LeftNets lab.network_id (networks es) h)

  pub expired-LeftNets :
      (own : List Text) (lab : LabSession) (es : Trace)
      → LeftNets Nets own (networks es)
      → LeftNets Nets own (networks (stop_lab (some lab) es))
  expired-LeftNets own lab es h =
      subst (LeftNets Nets own) (sym (stop_lab-networks lab es))
        (drop_text-All (λ x. IsOwn own x ⊎ Nets x) lab.network_id (networks es) h)

  pub foreign-LeftNets :
      (Base : Text → Type 0) (own : List Text) (e : Event) (es : Trace)
      → IsForeign Base Nets e
      → LeftNets Nets own (networks es)
      → LeftNets Nets own (networks (e ∷ es))
  foreign-LeftNets Base own (create_network id name) es f h = (inr f, h)
  foreign-LeftNets Base own (remove_network id) es f h =
      drop_text-All (λ x. IsOwn own x ⊎ Nets x) id (networks es) h
  foreign-LeftNets Base own e es f h = h

  pub SameLab-Networked : (w w' : World) → SameLab w w' → Networked w → Networked w'
  SameLab-Networked w w' (n, l) p =
      subst (λ own. LeftNets Nets own (networks w'.trace)) (sym l)
        (subst (LeftNets Nets (network_of w.st.lab)) (sym n) p)

  handle_lab_stop-Networked : (w : World) → Networked w → Networked (handle_lab_stop true w)
  unfolding handle_lab_stop
  handle_lab_stop-Networked w n = elim (Option-cases w.st.lab) [
    | inl e ↦ rw (e, handle_lab_stop) n
    | inr (lab, e) ↦
        rw (e, handle_lab_stop)
          (stopped-LeftNets (some lab) w.trace
            (subst (λ l. LeftNets Nets (network_of l) (networks w.trace)) e n))
  ]

  -- Closing the connection stops the lab.
  pub disconnect-Networked :
      (w : World) → Networked w → LeftNets Nets [] (networks (disconnect true w).trace)
  unfolding disconnect
  disconnect-Networked w n =
      let w1 = close_session w in
      let n1 = SameLab-Networked w w1 (close_session-SameLab w) n in
      elim (Bool-cases (is_empty w1.st.temp_dir)) [
        | inl e ↦ rw (e, disconnect) (stopped-LeftNets w1.st.lab _ n1)
        | inr e ↦ rw (e, disconnect) (stopped-LeftNets w1.st.lab _ n1)
      ]

pub disconnect-no_lab : (w : World) → (disconnect true w).st.lab ≡ none
unfolding disconnect
disconnect-no_lab w = refl

abbrev LeftOf : Trace → Trace → Result LabSession → Type 0
LeftOf es es' r = LeftNetworks es (es', r)

module _ (Nets : Text → Type 0) (lm : LabManager) where
  start_configured-Networked :
      (parse_duration : Text → Option ℤ) (a : LabAnswers) (now : ℕ) (c : LabConfig) (w : World)
      → LeftNets Nets [] (networks w.trace)
      → ((id : Text) → a.create_network ≡ ok id → Absent id (networks w.trace))
      → Networked Nets (start_configured parse_duration a now lm c w)
  unfolding start_configured
  start_configured-Networked parse_duration a now c w n new =
      let id = session_id_of now w.st.generation in
      let timeout = lab_timeout parse_duration c.timeout in
      let s = start_lab lm a id c.target timeout w.trace in
      let (nets, _) = start_lab-left lm a id c.target timeout w.trace new in
      elim (Result-cases s.1) [
        | inl (lab, r) ↦
            rw (r, start_configured)
              (subst (LeftNets Nets (lab.network_id ∷ [])) (sym (subst (LeftOf w.trace s.0) r nets))
                (inl (inl refl), widen-LeftNets Nets (lab.network_id ∷ []) (networks w.trace) n))
        | inr (x, r) ↦
            rw (r, start_configured)
              (subst (LeftNets Nets (network_of w.st.lab)) (sym (subst (LeftOf w.trace s.0) r nets))
                (widen-LeftNets Nets (network_of w.st.lab) (networks w.trace) n))
      ]

  handle_lab_start-Networked :
      (parse_duration : Text → Option ℤ) (a : LabAnswers) (now : ℕ) (m : ClientMessage) (w : World)
      → Networked Nets w
      → ((id : Text) → a.create_network ≡ ok id → IsNewNetwork id w)
      → Networked Nets (handle_lab_start parse_duration a now (some lm) m w)
  unfolding handle_lab_start stop_current_lab
  handle_lab_start-Networked parse_duration a now m w n new =
      let stopped = stopped-LeftNets Nets w.st.lab w.trace n in
      elim (Option-cases m.lab) [
        | inl e ↦ rw (e, handle_lab_start) stopped
        | inr (c, e) ↦
            rw (e, handle_lab_start)
              (start_configured-Networked parse_duration a now c _ stopped new)
      ]

  Networked-if :
      (b : Bool) (h h' : Handled)
      → Networked Nets h.0
      → Networked Nets h'.0
      → Networked Nets (if b then h else h').0
  Networked-if true h h' p p' = p
  Networked-if false h h' p p' = p'

  pub receive-Networked :
      (d : DockerClient) (a : MessageAnswers) (m : Option ClientMessage) (w : World)
      → Networked Nets w
      → ((id : Text) → a.lab.create_network ≡ ok id → IsNewNetwork id w)
      → Networked Nets (receive d (some lm) a m w).0
  unfolding receive dispatch
  receive-Networked d a none w n new = n
  receive-Networked d a (some m) w n new =
      let same : (w' : World) → SameLab w w' → Networked Nets w' =
        λ w' p. SameLab-Networked Nets w w' p n in
      let is_type : Text → Bool = text_eq m.message_type in
      let if_type : (t : Text) (h h' : Handled)
          → Networked Nets h.0
          → Networked Nets h'.0
          → Networked Nets (if is_type t then h else h').0 =
        λ t h h' p p'. Networked-if (is_type t) h h' p p' in
      if_type (codes "run") _ _
        (same (handle_run d true a.handler m w).0 (handle_run-SameLab d a.handler m true w))
        (if_type (codes "input") _ _
          (same (handle_input a.handler.now m w) (handle_input-SameLab a.handler.now m w))
          (if_type (codes "resize") _ _ n (
            if_type (codes "lab_start") _ _
              (handle_lab_start-Networked a.parse_duration a.lab a.handler.now m w n new)
              (if_type (codes "lab_stop") _ _ (handle_lab_stop-Networked Nets w n) (
                if_type (codes "shell") _ _
                  (same (handle_shell d a.handler a.shell_cmd m w).0
                    (handle_shell-SameLab d a.handler m a.shell_cmd w))
                  (if_type (codes "write") _ _
                    (same (handle_write a.write m w) (handle_write-SameLab a.write m w))
                    (if_type (codes "read_files") _ _
                      (same (handle_read_files a.read w) (handle_read_files-SameLab a.read w))
                      (if_type (codes "ping") _ _ n n))))))))
