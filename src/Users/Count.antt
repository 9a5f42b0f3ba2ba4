-- ===== src/Users/Count.antt =====
-- handler/websocket.go: the bound on the containers of a user.
use modigo_runner.Base.{
  ℕ, suc, ◌<◌, ◌≤◌, ◌≡◌, ◌⊎◌, ◌-◌, text_eq, lookup-insert, lookup-erase, if◌then◌else◌, refl, ℤ,
  pos, ◌+ℤ◌, ◌-ℤ◌, true, false, Text, insert, erase, arith, lookup-insert_self, lookup-erase_self,
  Bool-cases, inl, inr, leb_ℤ,
}
use modigo_runner.Users.{
  Users, count_of, inc_user_containers, dec_user_containers, max_containers_per_user,
}

abbrev with_count : Text → ℤ → Users → Users
with_count user n u = record u { containers = insert user n u.containers }

abbrev without_count : Text → Users → Users
without_count user u = record u { containers = erase user u.containers }

count-insert : (user : Text) (n : ℤ) (u : Users) → count_of user (with_count user n u) ≡ n
unfolding count_of
count-insert user n u = rw (lookup-insert_self user n u.containers, count_of) refl

count-erase : (user : Text) (u : Users) → count_of user (without_count user u) ≡ pos 0
unfolding count_of
count-erase user u = rw (lookup-erase_self user u.containers, count_of) refl

pub dec-pos :
    (user : Text) (u : Users) (n : ℕ)
    → count_of user u ≡ pos (suc n)
    → count_of user (dec_user_containers user u) ≡ pos n
unfolding dec_user_containers ◌-ℤ◌
dec-pos user u n e = ground (arith, e, count-erase user u, count-insert user (pos n) u)

-- The two outcomes of an attempt to count one more container.
pub inc_iff :
    (user : Text) (u : Users) (n : ℕ)
    → count_of user u ≡ pos n
    → ((n < 3)
        × ((inc_user_containers user u).0 ≡ true)
        × (count_of user (inc_user_containers user u).1 ≡ pos (suc n)))
      ⊎ ((3 ≤ n) × (inc_user_containers user u ≡ (false, u)))
unfolding inc_user_containers ◌+ℤ◌
inc_iff user u n e = ground (arith, e, count-insert user (pos (suc n)) u)

-- Every count is that of at most three containers.
abbrev pub IsBounded : Users → Type 0
IsBounded u = (user : Text) → (n : ℕ) × (count_of user u ≡ pos n) × (n ≤ 3)

-- Whose count a map of counts changes, and to what.
count_other :
    (user j : Text) (n : ℤ) (u : Users)
    → count_of j (with_count user n u) ≡ (if text_eq user j then n else count_of j u)
unfolding count_of
count_other user j n u = rw (lookup-insert user j n u.containers, count_of) (ground arith)

count_erased :
    (user j : Text) (u : Users)
    → count_of j (without_count user u) ≡ (if text_eq user j then pos 0 else count_of j u)
unfolding count_of
count_erased user j u = rw (lookup-erase user j u.containers, count_of) (ground arith)

-- Counting one more container keeps every count within the limit of three, also where it is refused
-- (for counts that are within it).
pub inc-IsBounded :
    (user : Text) (u : Users) → IsBounded u → IsBounded (inc_user_containers user u).1
unfolding inc_user_containers ◌+ℤ◌
inc-IsBounded user u bounded j =
    let (n, e, l) = bounded user in
    let (k, ek, lk) = bounded j in
    elim (Bool-cases (leb_ℤ max_containers_per_user (pos n))) [
      | inl full ↦ rw (e, full, inc_user_containers) (k, ek, lk)
      | inr free ↦ elim (Bool-cases (text_eq user j)) [
        | inl same ↦ (suc n, ground (arith, e, count_other user j (pos (suc n)) u), ground arith)
        | inr other ↦ (k, ground (arith, e, ek, count_other user j (pos (suc n)) u), lk)
      ]
    ]

pub dec-IsBounded : (user : Text) (u : Users) → IsBounded u → IsBounded (dec_user_containers user u)
unfolding dec_user_containers ◌-ℤ◌
dec-IsBounded user u bounded j =
    let (n, e, l) = bounded user in
    let (k, ek, lk) = bounded j in
    elim (Bool-cases (text_eq user j)) [
      | inl same ↦ (
        n - 1,
        ground (arith, e, count_erased user j u, count_other user j (pos (n - 1)) u),
        ground arith,
      )
      | inr other ↦
          (k, ground (arith, e, ek, count_erased user j u, count_other user j (pos (n - 1)) u), lk)
    ]
