-- ===== src/Users/Order.antt =====
-- handler/websocket.go: the order in which Go goes over the map of a user's runs is not fixed, and
-- makes no difference to the eviction.
use mathlib.Core.List.{Permᴰ}
use modigo_runner.Base.{
  ℕ, ◌-◌, ◌≡◌, refl, ap, subst, ◌∙◌, inl, inr, List, [], ◌∷◌, Text, arith, is_empty, All, ltb, ◌==◌,
  ==_iff, int64_limit, if◌then◌else◌, Bool-cases,
}
use modigo_runner.Docker.Calls.{Trace, remove}
use modigo_runner.Users.{Users, count_of, runs_of, oldest_run, evict_oldest_user_container}

-- No two different runs that satisfy `P` began at the same time.
abbrev pub Apart : (Text × ℕ → Type 0) → Type 0
Apart P = (r s : Text × ℕ) → P r → P s → r.1 ≡ s.1 → r ≡ s

abbrev older : Text × ℕ → Text × ℕ → Text × ℕ
older best r = if ltb r.1 best.1 then r else best

older_comm :
    (best r s : Text × ℕ) → (r.1 ≡ s.1 → r ≡ s) → older (older best r) s ≡ older (older best s) r
older_comm best r s apart = elim (Bool-cases (r.1 == s.1)) [
  | inl e ↦
      subst (λ x. older (older best r) x ≡ older (older best x) r) (apart ((==_iff r.1 s.1).0 e))
        refl
  | inr e ↦ ground (arith, e)
]

oldest_run-older :
    (r : Text × ℕ) (m : List (Text × ℕ)) (best : Text × ℕ)
    → oldest_run (r ∷ m) best ≡ oldest_run m (older best r)
unfolding oldest_run
oldest_run-older r m best = refl

module _ (P : Text × ℕ → Type 0) where
  All-Perm : {m n : List (Text × ℕ)} → Permᴰ m n → All P m → All P n
  All-Perm Permᴰ.nil h = tt
  All-Perm (Permᴰ.cons e p) (h, hs) = (subst P e h, All-Perm p hs)
  All-Perm (Permᴰ.swap e d) (h, (k, hs)) = (subst P d k, (subst P e h, hs))
  All-Perm (Permᴰ.trans p q) h = All-Perm q (All-Perm p h)

  oldest_run-Perm :
      {m n : List (Text × ℕ)}
      → Apart P
      → Permᴰ m n
      → All P m
      → (best : Text × ℕ) → oldest_run m best ≡ oldest_run n best
  unfolding oldest_run
  oldest_run-Perm a Permᴰ.nil h best = refl
  oldest_run-Perm a (Permᴰ.cons {a = r} {b = s} {l₁ = m} {l₂ = n} e p) (h, hs) best =
      oldest_run-Perm a p hs (older best r) ∙ ap (λ x. oldest_run n (older best x)) e
  oldest_run-Perm a (Permᴰ.swap {a = r} {b = s} {a' = x} {b' = y} {l = l} e d) (h, (k, hs)) best =
      ap (oldest_run l) (older_comm best r s (a r s h k))
      ∙ ap (λ z. oldest_run (z ∷ r ∷ l) best) d
      ∙ ap (λ z. oldest_run (x ∷ z ∷ l) best) e
  oldest_run-Perm a (Permᴰ.trans p q) h best =
      oldest_run-Perm a p h best ∙ oldest_run-Perm a q (All-Perm p h) best

-- The only call is the removal of the evicted container, if there is one.
abbrev pub OneRemoved : Trace → Text × Users × Trace → Type 0
OneRemoved es (id, u, es') = es' ≡ (if is_empty id then es else remove id ∷ es)

-- Two maps with the same runs of a user, listed in any order, and the same count of the user: the
-- eviction has the same answer and makes the same calls, and its only call is the removal of the
-- container that it answers, if it answers one (if no two different runs of the user began at the same
-- time).
pub evict-Perm :
    (P : Text × ℕ → Type 0) (user : Text) (u v : Users) (es : Trace)
    → Apart P
    → Permᴰ (runs_of user u) (runs_of user v)
    → All P (runs_of user u)
    → count_of user u ≡ count_of user v
    → ((evict_oldest_user_container user u es).0 ≡ (evict_oldest_user_container user v es).0)
      × ((evict_oldest_user_container user u es).2 ≡ (evict_oldest_user_container user v es).2)
      × OneRemoved es (evict_oldest_user_container user u es)
unfolding evict_oldest_user_container
evict-Perm P user u v es apart same all count =
    let victim : oldest_run (runs_of user u) ([], int64_limit - 1)
        ≡ oldest_run (runs_of user v) ([], int64_limit - 1) =
      oldest_run-Perm P apart same all ([], int64_limit - 1) in
    let name = ap (λ (r : Text × ℕ). r.0) victim in
    (ground (arith, name, count), ground (arith, name, count), ground arith)
