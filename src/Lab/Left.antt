-- ===== src/Lab/Left.antt =====
-- executor/lab.go: what `StartLab` and `StopLab` leave behind at the daemon.
use modigo_runner.Base.{
  ℕ, ◌+ℤ◌, ℤ, codes, ◌≡◌, refl, ◌∙◌, ap, List, [], ◌∷◌, none, some, Text, arith, ok, err,
  Result-cases, inl, inr,
}
use modigo_runner.Docker.Calls.{
  Trace, ContainerConfig, HostConfig, create, containers, networks, Absent, drop_text,
  drop_text-cons,
}
use modigo_runner.Lab.{
  LabTarget, LabSession, LabManager, LabAnswers, Started, fail_lab, start_target, connect_target,
  create_target, start_lab, stop_lab, remove_containers,
}

-- The networks of a failed start are those before it; of a successful one, one more.
abbrev pub LeftNetworks : Trace → Started → Type 0
LeftNetworks es (es', err e) = networks es' ≡ networks es
LeftNetworks es (es', ok lab) = networks es' ≡ lab.network_id ∷ networks es

-- The containers that a start leaves: a target that was created stays in every case.
abbrev pub target_left : LabAnswers → List Text → List Text
target_left a ids = elim a.create_network [
  | err e ↦ ids
  | ok n ↦ elim a.create [ err e ↦ ids | ok id ↦ id ∷ ids ]
]

module _ (lm : LabManager) (a : LabAnswers) where
  create_target-left :
      (network_id session_id : Text) (target : LabTarget) (timeout : ℤ) (es0 es : Trace)
      → Absent network_id (networks es0)
      → networks es ≡ network_id ∷ networks es0
      → LeftNetworks es0 (create_target lm a network_id session_id target timeout es)
  unfolding create_target connect_target start_target fail_lab
  create_target-left network_id session_id target timeout es0 es fresh e =
      ground (arith, drop_text-cons network_id (networks es0) fresh)

  create_target-containers :
      (network_id session_id : Text) (target : LabTarget) (timeout : ℤ) (es : Trace)
      → containers (create_target lm a network_id session_id target timeout es).0
        ≡ elim a.create [ err e ↦ containers es | ok id ↦ id ∷ containers es ]
  unfolding create_target connect_target start_target fail_lab
  create_target-containers network_id session_id target timeout es = ground arith

  pub start_lab-containers :
      (session_id : Text) (target : LabTarget) (timeout : ℤ) (es : Trace)
      → containers (start_lab lm a session_id target timeout es).0 ≡ target_left a (containers es)
  unfolding start_lab
  start_lab-containers session_id target timeout es = elim (Result-cases a.create_network) [
    | inl (id, e) ↦ rw (e, start_lab) (create_target-containers id session_id target timeout _)
    | inr (x, e) ↦ rw (e, start_lab) refl
  ]

  -- `StartLab` gives the network back on each of its failures, and keeps exactly one more network
  -- when it succeeds (for a network id that is new). A target container that was created is left at
  -- the daemon in every case, also when connecting it or starting it fails.
  pub start_lab-left :
      (session_id : Text) (target : LabTarget) (timeout : ℤ) (es : Trace)
      → ((id : Text) → a.create_network ≡ ok id → Absent id (networks es))
      → LeftNetworks es (start_lab lm a session_id target timeout es)
        × (containers (start_lab lm a session_id target timeout es).0
            ≡ target_left a (containers es))
  unfolding start_lab
  start_lab-left session_id target timeout es fresh = elim (Result-cases a.create_network) [
    | inl (id, e) ↦
        rw (e, start_lab)
          (
            create_target-left id session_id target timeout es _ (fresh id e) refl,
            create_target-containers id session_id target timeout _,
          )
    | inr (x, e) ↦ rw (e, start_lab) (refl, refl)
  ]

  -- The session of a start at which the daemon named a network and a target.
  abbrev session_of : (network_id id session_id : Text) → ℤ → LabSession
  session_of network_id id session_id timeout = record {
    session_id = session_id;
    network_id = network_id;
    student_id = [];
    target_ids = id ∷ [];
    target_hostname = codes "target";
    expires_at = a.now +ℤ timeout;
  }

  both_gone :
      (s id : Text) (ids : List Text)
      → Absent id ids
      → Absent s (id ∷ ids)
      → drop_text id (drop_text s (s ∷ id ∷ ids)) ≡ ids
  both_gone s id ids fresh fresh_student =
      ap (drop_text id) (drop_text-cons s (id ∷ ids) fresh_student) ∙ drop_text-cons id ids fresh

  -- When the daemon carries out each step of `StartLab`, the lab is started, and `StopLab`, after the
  -- student's container has been created and recorded, has removed that container, the target and the
  -- network, and nothing else (for ids that are new, and a student's id that is not empty).
  pub stop_lab-start_lab :
      (session_id : Text) (target : LabTarget) (timeout : ℤ) (network_id id : Text) (c : ℕ)
      (student : Text) (cfg : ContainerConfig) (host : HostConfig) (es : Trace)
      → a.create_network ≡ ok network_id
      → a.create ≡ ok id
      → a.connect ≡ none
      → a.start ≡ none
      → Absent network_id (networks es)
      → Absent id (containers es)
      → Absent (c ∷ student) (id ∷ containers es)
      → let started = start_lab lm a session_id target timeout es in
        let lab = record (session_of network_id id session_id timeout) {
          student_id = c ∷ student;
        } in
        let stopped = stop_lab (some lab) (create (c ∷ student) cfg host ∷ started.0) in
        (started.1 ≡ ok (session_of network_id id session_id timeout))
        × (containers stopped ≡ containers es)
        × (networks stopped ≡ networks es)
  unfolding start_lab create_target connect_target start_target stop_lab remove_containers
  stop_lab-start_lab session_id target timeout network_id id c student cfg host es e1 e2 e3 e4 n i
        s =
      rw (e1, e2, e3, e4, start_lab, create_target, connect_target, start_target)
        (
          refl,
          both_gone (c ∷ student) id (containers es) i s,
          drop_text-cons network_id (networks es) n,
        )
