-- ===== src/Pool/Examples.antt =====
-- A pool with one container for Python, of the time 1000.
use modigo_runner.Base.{◌≡◌, refl, true, false, [], ◌∷◌, none, codes, insert, lookup, text_eq}
use modigo_runner.Pool.{
  WarmedContainer, Pool, Taken, is_stale_container, take_warm, unlocked, get, pool_stats, lengths,
}

pool_code : Unit {0}
unfolding is_stale_container take_warm unlocked get pool_stats lengths insert lookup text_eq
pool_code = tt

abbrev warmed : WarmedContainer
warmed = record {
  container_id = codes "0123456789ab";
  language = codes "python";
  created_at = 1000;
  code_dir = [];
}

abbrev pool : Pool
pool = record {
  locked = false;
  warm = (codes "python", warmed ∷ []) ∷ [];
  size = 3;
  langs = codes "python" ∷ [];
  ready = true;
}

served_in_time : (get 2 2000 (codes "python") pool).1 ≡ Taken.served warmed
unfolding pool_code
served_in_time = refl

waits_for_ever : pool_stats (get 2 300_000_002_000 (codes "python") pool).0 ≡ none
unfolding pool_code
waits_for_ever = refl

abbrev stuck : Pool
stuck = (get 2 300_000_002_000 (codes "python") pool).0
