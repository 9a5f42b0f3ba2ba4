-- ===== src/Pool/Blocked.antt =====
-- executor/pool.go: when a call of `Get` waits for ever.
use modigo_runner.Base.{ℕ, suc, ◌≡◌, true, List, ◌∷◌, some, Text, lookup}
use modigo_runner.Pool.{WarmedContainer, Pool, is_stale_container, Taken, take_warm, get}

-- The next container for the language is stale.
abbrev pub StaleNext : ℕ → Text → Pool → Type 0
StaleNext now lang p =
    (w : WarmedContainer) × (q : List WarmedContainer) × (lookup lang p.warm ≡ some (w ∷ q))
    × (is_stale_container now w ≡ true)

module _ (fuel now : ℕ) (lang : Text) where
  abbrev taken : List WarmedContainer → Pool → Pool × Taken
  taken = take_warm (get (suc fuel) now lang) now lang
