-- ===== src/Session/Opened.antt =====
-- handler/websocket.go: what a session owns when a container is opened for it.
use modigo_runner.Base.{
  ℕ, ◌+◌, ◌≡◌, refl, ◌∙◌, ap, subst, sym, List, [], ◌∷◌, none, some, Text, text_eq_refl, length,
  lookup, insert, erase, lookup-insert_self, lookup-erase_self, arith, ok, err, inl, inr,
}
use modigo_runner.Docker.Calls.{Trace, containers}
use modigo_runner.Docker.Create.{Creation, InteractiveSession}
use modigo_runner.Docker.Leaks.{Settled}
use modigo_runner.Users.{Users, track_user_run, delete_user_run, runs_of, count_of}
use modigo_runner.Users.Evict.{count-delete}
use modigo_runner.Session.{World, SessionState, close_session, next_generation}
use modigo_runner.Session.Run.{Goroutine, Handled}
use modigo_runner.Session.Threads.{counts}
use modigo_runner.Session.Owned.{Left, Owns}

abbrev pub run_count : List Goroutine → ℕ
run_count [] = 0
run_count (g ∷ gs) = counts g + run_count gs

pub Settled-ok :
    (es : Trace) (c : Creation) (s : InteractiveSession)
    → c.1 ≡ ok s
    → Settled es c
    → containers c.0 ≡ s.container_id ∷ containers es
Settled-ok es (es', err x) s e h = ground arith
Settled-ok es (es', ok t) s e (h, _) = ground arith

pub Settled-err :
    (es : Trace) (c : Creation) (x : Text)
    → c.1 ≡ err x
    → Settled es c
    → containers c.0 ≡ containers es
Settled-err es (es', err y) x e (h, _) = h
Settled-err es (es', ok t) x e h = ground arith

-- The session that a handler closes is gone.
pub next_generation-session : (w : World) → (next_generation w).st.session ≡ none
unfolding next_generation close_session
next_generation-session w = ground arith

Left-new :
    (Base : Text → Type 0) (s : InteractiveSession) (ids : List Text)
    → Left Base none ids
    → Left Base (some s) ids
Left-new Base s [] h = tt
Left-new Base s (x ∷ xs) (inl h, hs) = absurd h
Left-new Base s (x ∷ xs) (inr h, hs) = (inr h, Left-new Base s xs hs)

untracked-runs : (user : Text) (u : Users) → lookup user u.runs ≡ none → runs_of user u ≡ []
unfolding runs_of
untracked-runs user u e = rw (e, runs_of) refl

delete-single :
    (user id : Text) (now : ℕ) (u : Users)
    → lookup user u.runs ≡ some ((id, now) ∷ [])
    → lookup user (delete_user_run user id u).runs ≡ none
unfolding delete_user_run erase
delete-single user id now u e =
    rw (e, text_eq_refl id, delete_user_run) (lookup-erase_self user u.runs)

-- A run that is tracked and forgotten leaves nothing behind.
pub delete-track :
    (user id : Text) (now : ℕ) (u : Users)
    → lookup user u.runs ≡ none
    → lookup user (delete_user_run user id (track_user_run user id now u)).runs ≡ none
unfolding track_user_run insert
delete-track user id now u e =
    let no_runs : runs_of user u ≡ [] = untracked-runs user u e in
    delete-single user id now (track_user_run user id now u) (
      lookup-insert_self user (insert id now (runs_of user u)) u.runs
      ∙ ap (λ m. some (insert id now m)) no_runs)

module _ (user : Text) (Base : Text → Type 0) (held others : ℕ) where
  -- Of what a handler gives: each goroutine has a slot, and that of a run a counted container.
  abbrev pub Kept : ℕ → ℕ → Handled → Type 0
  Kept k r (w, gs) = Owns user Base held others w (length gs + k) (run_count gs + r)

  -- The session gets the container that was created.
  pub opened-Owns :
      (w : World) (k r : ℕ) (st : SessionState) (s : InteractiveSession) (es : Trace)
      → Owns user Base held others w k r
      → w.st.session ≡ none
      → st.user_id ≡ w.st.user_id
      → st.session ≡ some s
      → containers es ≡ s.container_id ∷ containers w.trace
      → Owns user Base held others (record w { st = st; trace = es }) k r
  opened-Owns w k r st s es o closed same_user opened one_more =
      let left =
        Left-new Base s (containers w.trace)
          (subst (λ c. Left Base c (containers w.trace)) closed o.left) in
      let both : Left Base (some s) (s.container_id ∷ containers w.trace) = (inl refl, left) in
      record {
        is_user = same_user ∙ o.is_user;
        slots = o.slots;
        count = o.count;
        untracked = o.untracked;
        left =
            subst (λ c. Left Base c (containers es)) (sym opened)
              (subst (Left Base (some s)) (sym one_more) both);
      }

  -- Tracking a run and forgetting it when the handler returns changes no owned thing.
  pub tracked-Owns :
      (w : World) (k r : ℕ) (id : Text) (now : ℕ)
      → Owns user Base held others w k r
      → Owns user Base held others
          (record w {
            users = delete_user_run w.st.user_id id (track_user_run w.st.user_id id now w.users);
          })
          k
          r
  unfolding track_user_run count_of
  tracked-Owns w k r id now o = record {
    is_user = o.is_user;
    slots = o.slots;
    count =
        count-delete w.st.user_id user id (track_user_run w.st.user_id id now w.users) ∙ o.count;
    untracked =
        subst
          (λ x. lookup user (delete_user_run x id (track_user_run x id now w.users)).runs ≡ none)
          (sym o.is_user) (delete-track user id now w.users o.untracked);
    left = o.left;
  }
