-- ===== src/Users/Evict.antt =====
-- handler/websocket.go: the eviction of a user's oldest run.
use modigo_runner.Base.{
  ◌⊎◌, subst, sym, ℕ, ◌∙◌, ◌-◌, ◌<◌, ◌≤◌, ◌≡◌, refl, pos, ltb_ℤ, true, false, List, [], ◌∷◌, Text,
  arith, All, is_empty, ltb, int64_limit, if◌then◌else◌, Bool-cases, inl, inr,
}
use modigo_runner.Docker.Calls.{Trace, remove}
use modigo_runner.Users.{
  Users, count_of, runs_of, oldest_run, delete_user_run, inc_user_containers,
  max_containers_per_user, evict_oldest_user_container,
}
use modigo_runner.Users.Count.{IsBounded, dec-pos, dec-IsBounded}

-- The ids of containers are not empty, and the times are before the end of `int64`.
abbrev pub IsTracked : Text × ℕ → Type 0
IsTracked (id, ts) = (is_empty id ≡ false) × (ts < int64_limit - 1)

oldest_run-le : (m : List (Text × ℕ)) (best : Text × ℕ) → (oldest_run m best).1 ≤ best.1
unfolding oldest_run
oldest_run-le [] (id, ts) = omega arith
oldest_run-le ((j, t) ∷ m) (id, ts) = elim (Bool-cases (ltb t ts)) [
  | inl e ↦ rw (e, oldest_run) (let h = oldest_run-le m (j, t) in ground arith)
  | inr e ↦ rw (e, oldest_run) (oldest_run-le m (id, ts))
]

-- No tracked run is older than the one that the loop finds.
pub oldest_run-least :
    (m : List (Text × ℕ)) (best : Text × ℕ) → All (λ r. (oldest_run m best).1 ≤ r.1) m
unfolding oldest_run
oldest_run-least [] best = tt
oldest_run-least ((j, t) ∷ m) (id, ts) =
    let best : Text × ℕ = if ltb t ts then (j, t) else (id, ts) in
    let younger : best.1 ≤ t = ground arith in
    let h = oldest_run-le m best in (omega arith, oldest_run-least m best)

abbrev pub IsIn : Text × ℕ → List (Text × ℕ) → Type 0
IsIn r [] = ⊥
IsIn r (s ∷ m) = (r ≡ s) ⊎ IsIn r m

oldest_run-IsIn :
    (m : List (Text × ℕ)) (best : Text × ℕ)
    → (oldest_run m best ≡ best) ⊎ IsIn (oldest_run m best) m
unfolding oldest_run
oldest_run-IsIn [] best = inl refl
oldest_run-IsIn ((j, t) ∷ m) (id, ts) = elim (Bool-cases (ltb t ts)) [
  | inl e ↦
      let next : oldest_run ((j, t) ∷ m) (id, ts) ≡ oldest_run m (j, t) = rw (e, oldest_run) refl in
      inr (subst (λ x. IsIn x ((j, t) ∷ m)) (sym next) (oldest_run-IsIn m (j, t)))
  | inr e ↦
      let next : oldest_run ((j, t) ∷ m) (id, ts) ≡ oldest_run m (id, ts) =
        rw (e, oldest_run) refl in
      elim (oldest_run-IsIn m (id, ts)) [
        | inl p ↦ inl (next ∙ p)
        | inr p ↦ inr (inr (subst (λ x. IsIn x m) (sym next) p))
      ]
]

oldest_run-found :
    (m : List (Text × ℕ)) (best : Text × ℕ)
    → All IsTracked m
    → is_empty best.0 ≡ false
    → is_empty (oldest_run m best).0 ≡ false
unfolding oldest_run
oldest_run-found [] best h e = e
oldest_run-found ((j, t) ∷ m) (id, ts) ((hj, ht), h) e = elim (Bool-cases (ltb t ts)) [
  | inl lt ↦ rw (lt, oldest_run) (oldest_run-found m (j, t) h hj)
  | inr ge ↦ rw (ge, oldest_run) (oldest_run-found m (id, ts) h e)
]

oldest_run-start :
    (r : Text × ℕ) (m : List (Text × ℕ))
    → All IsTracked (r ∷ m)
    → is_empty (oldest_run (r ∷ m) ([], int64_limit - 1)).0 ≡ false
unfolding oldest_run
oldest_run-start (j, t) m ((hj, ht), h) =
    let lt : ltb t (int64_limit - 1) ≡ true = ground arith in
    rw (lt, oldest_run) (oldest_run-found m (j, t) h hj)

-- The loop finds one of the runs.
oldest_run-tracked :
    (r : Text × ℕ) (m : List (Text × ℕ))
    → All IsTracked (r ∷ m)
    → IsIn (oldest_run (r ∷ m) ([], int64_limit - 1)) (r ∷ m)
unfolding oldest_run
oldest_run-tracked (j, t) m ((hj, ht), h) =
    let lt : ltb t (int64_limit - 1) ≡ true = ground arith in
    let next : oldest_run ((j, t) ∷ m) ([], int64_limit - 1) ≡ oldest_run m (j, t) =
      rw (lt, oldest_run) refl in
    subst (λ x. IsIn x ((j, t) ∷ m)) (sym next) (oldest_run-IsIn m (j, t))

inc-below :
    (user : Text) (u : Users) → count_of user u ≡ pos 2 → (inc_user_containers user u).0 ≡ true
unfolding inc_user_containers
inc-below user u e = ground (arith, e)

-- Forgetting a run changes no count.
pub count-delete :
    (user j id : Text) (u : Users) → count_of j (delete_user_run user id u) ≡ count_of j u
unfolding delete_user_run count_of
count-delete user j id u = ground arith

-- At the limit of three, with a run of the user tracked: the eviction asks for the removal of one of
-- the user's tracked runs, of which none is older, and the next attempt to count one more container of
-- the user succeeds (for ids that are not empty and times within `int64`).
pub inc-evict :
    (user : Text) (u : Users) (es : Trace) (r : Text × ℕ) (m : List (Text × ℕ))
    → count_of user u ≡ pos 3
    → runs_of user u ≡ r ∷ m
    → All IsTracked (r ∷ m)
    → let (oldest, u', es') = evict_oldest_user_container user u es in
      ((time : ℕ) × IsIn (oldest, time) (r ∷ m) × All (λ s. time ≤ s.1) (r ∷ m))
      × (es' ≡ remove oldest ∷ es)
      × ((inc_user_containers user u').0 ≡ true)
unfolding evict_oldest_user_container
inc-evict user u es r m e runs tracked =
    let found = oldest_run-start r m tracked in
    let (oldest, time) = oldest_run (r ∷ m) ([], int64_limit - 1) in
    let left =
      dec-pos user (delete_user_run user oldest u) 2 (count-delete user user oldest u ∙ e) in
    let name : (evict_oldest_user_container user u es).0 ≡ oldest =
      rw (e, runs, found, evict_oldest_user_container) refl in
    (
      (
        time,
        subst (λ x. IsIn (x, time) (r ∷ m)) (sym name) (oldest_run-tracked r m tracked),
        oldest_run-least (r ∷ m) ([], int64_limit - 1),
      ),
      rw (e, runs, found, evict_oldest_user_container) refl,
      rw (e, runs, found, evict_oldest_user_container) (inc-below user _ left),
    )

-- The counts stay within the limit of three when a run is evicted, and when there is none to evict
-- (for counts that are within it).
pub evict-IsBounded :
    (user : Text) (u : Users) (es : Trace)
    → IsBounded u
    → IsBounded (evict_oldest_user_container user u es).1
unfolding evict_oldest_user_container
evict-IsBounded user u es bounded =
    let oldest = (oldest_run (runs_of user u) ([], int64_limit - 1)).0 in
    let forgotten : IsBounded (delete_user_run user oldest u) =
      λ j. let (n, e, l) = bounded j in (n, count-delete user j oldest u ∙ e, l) in
    elim (Bool-cases (ltb_ℤ (count_of user u) max_containers_per_user)) [
      | inl below ↦ rw (below, evict_oldest_user_container) bounded
      | inr full ↦ elim (Bool-cases (is_empty oldest)) [
        | inl none_found ↦ rw (full, none_found, evict_oldest_user_container) bounded
        | inr found ↦
            rw (full, found, evict_oldest_user_container)
              (dec-IsBounded user (delete_user_run user oldest u) forgotten)
      ]
    ]
