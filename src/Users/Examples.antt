-- ===== src/Users/Examples.antt =====
-- A user at the limit, with two tracked runs.
use mathlib.Core.List.{Permᴰ}
use modigo_runner.Base.{
  ◌⊎◌, sym, ap, ◌∙◌, ℕ, ◌≡◌, refl, pos, true, List, [], ◌∷◌, Text, codes, lookup, All, ◌≤◌, arith,
  inl, inr,
}
use modigo_runner.Docker.Calls.{remove}
use modigo_runner.Users.{Users, count_of, runs_of, inc_user_containers, evict_oldest_user_container}
use modigo_runner.Users.Count.{IsBounded}
use modigo_runner.Users.Evict.{IsIn, inc-evict}
use modigo_runner.Users.Calls.{Call, perform_all, no_users, perform_all-no_users}
use modigo_runner.Users.Order.{Apart, OneRemoved, evict-Perm}

abbrev ada : Text
ada = codes "ada"

abbrev runs : List (Text × ℕ)
runs = (codes "c2", 2000) ∷ (codes "c1", 1000) ∷ []

abbrev full : Users
full = record { containers = (ada, pos 3) ∷ []; runs = (ada, runs) ∷ [] }

full_count : count_of ada full ≡ pos 3
unfolding count_of lookup
full_count = refl

full_runs : runs_of ada full ≡ runs
unfolding runs_of lookup
full_runs = refl

inc-evict_example :
    let (oldest, u', es') = evict_oldest_user_container ada full [] in
    ((time : ℕ) × IsIn (oldest, time) runs × All (λ s. time ≤ s.1) runs)
    × (es' ≡ remove oldest ∷ [])
    × ((inc_user_containers ada u').0 ≡ true)
inc-evict_example =
    inc-evict ada full [] (codes "c2", 2000) ((codes "c1", 1000) ∷ []) full_count full_runs
      ((refl, omega arith), ((refl, omega arith), tt))

perform_all-no_users_example : IsBounded (
    perform_all
      (Call.inc ada
        ∷ Call.track ada (codes "c1") 1000
        ∷ Call.dec ada
        ∷ Call.dec ada
        ∷ Call.evict ada
        ∷ [])
      no_users)
perform_all-no_users_example = perform_all-no_users (
    Call.inc ada
    ∷ Call.track ada (codes "c1") 1000
    ∷ Call.dec ada
    ∷ Call.dec ada
    ∷ Call.evict ada
    ∷ [])

-- The same runs in the other order.
abbrev turned : Users
turned = record {
  containers = (ada, pos 3) ∷ [];
  runs = (ada, (codes "c1", 1000) ∷ (codes "c2", 2000) ∷ []) ∷ [];
}

turned_runs : Permᴰ (runs_of ada full) (runs_of ada turned)
unfolding runs_of lookup
turned_runs = Permᴰ.swap refl refl

turned_count : count_of ada full ≡ count_of ada turned
unfolding count_of lookup
turned_count = refl

abbrev IsRun : Text × ℕ → Type 0
IsRun r = (r ≡ (codes "c2", 2000)) ⊎ (r ≡ (codes "c1", 1000))

IsRun-Apart : Apart IsRun
IsRun-Apart r s (inl e) (inl f) h = e ∙ sym f
IsRun-Apart r s (inl e) (inr f) h =
    let bad : ◌≡◌ {A = ℕ} 2000 1000 =
      sym (ap (λ (x : Text × ℕ). x.1) e) ∙ h ∙ ap (λ (x : Text × ℕ). x.1) f in
    ground arith
IsRun-Apart r s (inr e) (inl f) h =
    let bad : ◌≡◌ {A = ℕ} 1000 2000 =
      sym (ap (λ (x : Text × ℕ). x.1) e) ∙ h ∙ ap (λ (x : Text × ℕ). x.1) f in
    ground arith
IsRun-Apart r s (inr e) (inr f) h = e ∙ sym f

full-IsRun : All IsRun (runs_of ada full)
unfolding runs_of lookup
full-IsRun = (inl refl, (inr refl, tt))

evict-Perm_example :
    ((evict_oldest_user_container ada full []).0 ≡ (evict_oldest_user_container ada turned []).0)
    × ((evict_oldest_user_container ada full []).2 ≡ (evict_oldest_user_container ada turned []).2)
    × OneRemoved [] (evict_oldest_user_container ada full [])
evict-Perm_example =
    evict-Perm IsRun ada full turned [] IsRun-Apart turned_runs full-IsRun turned_count
