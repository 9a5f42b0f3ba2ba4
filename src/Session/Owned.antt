-- ===== src/Session/Owned.antt =====
-- handler/websocket.go: what a session owns while its handlers run: slots, counted containers, and
-- the container of the session.
use modigo_runner.Base.{
  ℕ, suc, ◌+◌, ◌≡◌, ◌⊎◌, refl, ◌∙◌, ap, subst, sym, pos, Bool, true, false, List, [], ◌∷◌, Option,
  none, some, Text, All, lookup, text_eq, text_eq_iff, arith, Bool-cases, Option-cases, inl, inr,
}
use modigo_runner.Docker.Calls.{Trace, containers, drop_text}
use modigo_runner.Docker.Create.{InteractiveSession}
use modigo_runner.Users.{
  Users, count_of, runs_of, oldest_run, inc_user_containers, dec_user_containers,
  evict_oldest_user_container,
}
use modigo_runner.Users.Count.{inc_iff, dec-pos}
use modigo_runner.Session.{
  ServerMessage, SessionState, World, close_calls, close_session, acquire_slot, release_slot,
  next_generation,
}
use modigo_runner.Session.Run.{dec_user, take_user_slot}

abbrev pub IsOf : Option InteractiveSession → Text → Type 0
IsOf none x = ⊥
IsOf (some s) x = x ≡ s.container_id

-- A container is that of the session, or one of those that the session has nothing to do with.
abbrev pub Left : (Text → Type 0) → Option InteractiveSession → List Text → Type 0
Left Base session ids = All (λ x. IsOf session x ⊎ Base x) ids

drop_text-Left :
    (Base : Text → Type 0) (s : InteractiveSession) (ids : List Text)
    → Left Base (some s) ids
    → Left Base none (drop_text s.container_id ids)
drop_text-Left Base s [] h = tt
drop_text-Left Base s (x ∷ xs) (h, hs) = elim (Bool-cases (text_eq x s.container_id)) [
  | inl e ↦ rw e (drop_text-Left Base s xs hs)
  | inr e ↦ rw e (
    (elim h [ inl same ↦ absurd (ground (arith, text_eq_iff x s.container_id)) | inr m ↦ inr m ]),
    drop_text-Left Base s xs hs,
  )
]

-- With `k` slots in the hands of its goroutines and handlers, beside `held` others, and `r`
-- containers counted for the user, beside `others`.
pub record Owns (user : Text) (Base : Text → Type 0) (held others : ℕ) (w : World) (k r : ℕ)
    : Type 0 where
  pub is_user : w.st.user_id ≡ user
  pub slots : w.slots ≡ held + k
  pub count : count_of user w.users ≡ pos (others + r)
  pub untracked : lookup user w.users.runs ≡ none
  pub left : Left Base w.st.session (containers w.trace)

module _ (user : Text) (Base : Text → Type 0) (held others : ℕ) where
  close_session-Left :
      (w : World)
      → Left Base w.st.session (containers w.trace)
      → Left Base (close_session w).st.session (containers (close_session w).trace)
  unfolding close_session close_calls
  close_session-Left w h = elim (Option-cases w.st.session) [
    | inl e ↦ rw (e, close_session) h
    | inr (s, e) ↦
        let closed =
          drop_text-Left Base s (containers w.trace)
            (subst (λ o. Left Base o (containers w.trace)) e h) in
        elim (Bool-cases s.has_conn) [
          | inl c ↦ rw (e, c, close_session, close_calls) closed
          | inr c ↦ rw (e, c, close_session, close_calls) closed
        ]
  ]

  close_session-rest :
      (w : World)
      → ((close_session w).st.user_id ≡ w.st.user_id)
        × ((close_session w).slots ≡ w.slots)
        × ((close_session w).users ≡ w.users)
  unfolding close_session
  close_session-rest w = elim (Option-cases w.st.session) [
    | inl e ↦ rw (e, close_session) (refl, refl, refl)
    | inr (s, e) ↦ rw (e, close_session) (refl, refl, refl)
  ]

  pub close_session-Owns :
      (w : World) (k r : ℕ)
      → Owns user Base held others w k r
      → Owns user Base held others (close_session w) k r
  close_session-Owns w k r o =
      let (u, slots, users) = close_session-rest w in
      record {
        is_user = u ∙ o.is_user;
        slots = slots ∙ o.slots;
        count = ap (count_of user) users ∙ o.count;
        untracked = ap (λ v. lookup user v.runs) users ∙ o.untracked;
        left = close_session-Left w o.left;
      }

  pub next_generation-Owns :
      (w : World) (k r : ℕ)
      → Owns user Base held others w k r
      → Owns user Base held others (next_generation w) k r
  unfolding next_generation
  next_generation-Owns w k r o =
      let c = close_session-Owns w k r o in
      record {
        is_user = c.is_user;
        slots = c.slots;
        count = c.count;
        untracked = c.untracked;
        left = c.left;
      }

  pub acquire_slot-Owns :
      (w : World) (k r : ℕ)
      → Owns user Base held others w k r
      → Owns user Base held others (acquire_slot w) (suc k) r
  unfolding acquire_slot
  acquire_slot-Owns w k r o = record {
    is_user = o.is_user;
    slots = ground (arith, o.slots);
    count = o.count;
    untracked = o.untracked;
    left = o.left;
  }

  pub release_slot-Owns :
      (w : World) (k r : ℕ)
      → Owns user Base held others w (suc k) r
      → Owns user Base held others (release_slot w) k r
  unfolding release_slot
  release_slot-Owns w k r o = record {
    is_user = o.is_user;
    slots = ground (arith, o.slots);
    count = o.count;
    untracked = o.untracked;
    left = o.left;
  }

  -- Only the counts of the users change.
  count-Owns :
      (w : World) (users : Users) (k r r' : ℕ)
      → Owns user Base held others w k r
      → count_of user users ≡ pos (others + r')
      → users.runs ≡ w.users.runs
      → Owns user Base held others (record w { users = users }) k r'
  count-Owns w users k r r' o e runs = record {
    is_user = o.is_user;
    slots = o.slots;
    count = e;
    untracked = ap (lookup user) runs ∙ o.untracked;
    left = o.left;
  }

  pub dec_user-Owns :
      (w : World) (k r : ℕ)
      → Owns user Base held others w k (suc r)
      → Owns user Base held others (dec_user w) k r
  unfolding dec_user dec_user_containers
  dec_user-Owns w k r o =
      let e : count_of user w.users ≡ pos (suc (others + r)) = ground (arith, o.count) in
      let left = dec-pos user w.users (others + r) e in
      count-Owns w (dec_user_containers w.st.user_id w.users) k (suc r) r o (rw o.is_user left) refl

  evict-untracked :
      (u : Users) (es : Trace)
      → lookup user u.runs ≡ none
      → evict_oldest_user_container user u es ≡ ([], u, es)
  unfolding evict_oldest_user_container runs_of oldest_run
  evict-untracked u es e = ground (arith, e)

  -- A container is counted, or nothing changes.
  abbrev pub Admits : ℕ → ℕ → Bool × World → Type 0
  Admits k r (true, w) = Owns user Base held others w k (suc r)
  Admits k r (false, w) = Owns user Base held others w k r

  inc-runs : (x : Text) (u : Users) → (inc_user_containers x u).1.runs ≡ u.runs
  unfolding inc_user_containers
  inc-runs x u = ground arith

  pub take_user_slot-Owns :
      (w : World) (k r : ℕ) → Owns user Base held others w k r → Admits k r (take_user_slot w)
  unfolding take_user_slot
  take_user_slot-Owns w k r o =
      let same : inc_user_containers w.st.user_id w.users ≡ inc_user_containers user w.users =
        ap (λ x. inc_user_containers x w.users) o.is_user in
      let found : evict_oldest_user_container w.st.user_id w.users w.trace
          ≡ ([], w.users, w.trace) =
        ap (λ x. evict_oldest_user_container x w.users w.trace) o.is_user
        ∙ evict-untracked w.users w.trace o.untracked in
      let one_more : suc (others + r) ≡ others + suc r = omega arith in
      elim (inc_iff user w.users (others + r) o.count) [
        | inl (below, free, counted) ↦
            rw (ap (λ p. p.0) same ∙ free, take_user_slot)
              (count-Owns w (inc_user_containers w.st.user_id w.users).1 k r (suc r) o
                (ap (λ p. count_of user p.1) same ∙ counted ∙ ap pos one_more)
                (inc-runs w.st.user_id w.users))
        | inr (above, full) ↦ rw (found, same ∙ full, take_user_slot) o
      ]

  -- Without tracked runs nothing is evicted: only the counts change.
  pub take_user_slot-same :
      (w : World) (k r : ℕ)
      → Owns user Base held others w k r
      → (take_user_slot w).1 ≡ record w { users = (take_user_slot w).1.users }
  unfolding take_user_slot
  take_user_slot-same w k r o =
      let found : evict_oldest_user_container w.st.user_id w.users w.trace
          ≡ ([], w.users, w.trace) =
        ap (λ x. evict_oldest_user_container x w.users w.trace) o.is_user
        ∙ evict-untracked w.users w.trace o.untracked in
      elim (Bool-cases (inc_user_containers w.st.user_id w.users).0) [
        | inl e ↦ rw (found, e, take_user_slot) refl
        | inr e ↦ rw (found, e, take_user_slot) refl
      ]

  pub admitted_Owns :
      (k r : ℕ) (p : Bool × World)
      → p.0 ≡ true
      → Admits k r p
      → Owns user Base held others p.1 k (suc r)
  admitted_Owns k r (true, w) e o = o
  admitted_Owns k r (false, w) e o = absurd (ground arith)

  pub refused_Owns :
      (k r : ℕ) (p : Bool × World) → p.0 ≡ false → Admits k r p → Owns user Base held others p.1 k r
  refused_Owns k r (true, w) e o = absurd (ground arith)
  refused_Owns k r (false, w) e o = o

  -- What only logs, or only sends, keeps what is owned.
  pub sent-Owns :
      (w : World) (k r : ℕ) (sent : List ServerMessage)
      → Owns user Base held others w k r
      → Owns user Base held others (record w { sent = sent }) k r
  sent-Owns w k r sent o = record {
    is_user = o.is_user;
    slots = o.slots;
    count = o.count;
    untracked = o.untracked;
    left = o.left;
  }

  pub trace-Owns :
      (w : World) (k r : ℕ) (es : Trace)
      → Owns user Base held others w k r
      → containers es ≡ containers w.trace
      → Owns user Base held others (record w { trace = es }) k r
  trace-Owns w k r es o same = record {
    is_user = o.is_user;
    slots = o.slots;
    count = o.count;
    untracked = o.untracked;
    left = subst (Left Base w.st.session) (sym same) o.left;
  }

  pub st-Owns :
      (w : World) (k r : ℕ) (st : SessionState)
      → Owns user Base held others w k r
      → st.user_id ≡ w.st.user_id
      → st.session ≡ w.st.session
      → Owns user Base held others (record w { st = st }) k r
  st-Owns w k r st o same_user same_session = record {
    is_user = same_user ∙ o.is_user;
    slots = o.slots;
    count = o.count;
    untracked = o.untracked;
    left = subst (λ c. Left Base c (containers w.trace)) (sym same_session) o.left;
  }
