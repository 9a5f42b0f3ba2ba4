-- ===== src/Pool.antt =====
-- executor/pool.go: the containers that are kept warm, and the images that are pulled beforehand.
-- `sync.Mutex` is not reentrant: a call that finds it locked waits, and here that is the outcome
-- `blocked`. Removing a container in a goroutine of its own is left out of `get`.
pub mod Blocked
mod Examples
use modigo_runner.Base.{
  ℕ, zero, suc, ◌-◌, ◌≡◌, Bool, true, false, List, [], ◌∷◌, Option, none, some, Text, ltb, length,
  lookup, insert, if◌then◌else◌,
}
use modigo_runner.Docker.{DockerClient, language_to_image}
use modigo_runner.Docker.Calls.{Trace}
use modigo_runner.Docker.Image.{ensure_image}

pub record WarmedContainer : Type 0 where
  pub container_id : Text
  pub language : Text
  pub created_at : ℕ
  pub code_dir : Text

pub record Pool : Type 0 where
  pub locked : Bool
  pub warm : List (Text × List WarmedContainer)
  pub size : ℕ
  pub langs : List Text
  pub ready : Bool

-- How a call of `Get` ends.
pub data Taken : Type 0 where
  nothing blocked out_of_fuel : Taken
  served : WarmedContainer → Taken

unfoldable pub new_pool : (size : ℕ) → (langs : List Text) → Pool
new_pool size langs = record {
  locked = false;
  warm = [];
  size = size;
  langs = langs;
  ready = false;
}

abbrev pub five_minutes : ℕ
five_minutes = 300_000_000_000

-- "Discard stale (> 5 min old)"
unfoldable pub is_stale_container : ℕ → WarmedContainer → Bool
is_stale_container now w = ltb five_minutes (now - w.created_at)

-- The deferred `Unlock`, which a call that waits for ever never comes to.
unfoldable pub unlocked : Pool × Taken → Pool × Taken
unlocked (p, blocked) = (p, blocked)
unlocked (p, out_of_fuel) = (p, out_of_fuel)
unlocked (p, nothing) = (record p { locked = false }, nothing)
unlocked (p, served w) = (record p { locked = false }, served w)

-- What follows the lock. A stale container is dropped, and `p.Get(lang)`, here `again`, is called with
-- the mutex held.
unfoldable pub take_warm :
    (again : Pool → Pool × Taken)
    → (now : ℕ) → (lang : Text) → List WarmedContainer
    → Pool
    → Pool × Taken
take_warm again now lang [] p = unlocked (p, nothing)
take_warm again now lang (w ∷ q) p =
    let p1 : Pool = record p { warm = insert lang q p.warm } in
    if is_stale_container now w then unlocked (again p1) else unlocked (p1, served w)

-- On fuel, of which two units are enough.
unfoldable pub get : (fuel now : ℕ) → (lang : Text) → Pool → Pool × Taken
get zero now lang p = (p, out_of_fuel)
get (suc fuel) now lang p =
    let again = get fuel now lang in
    let p1 : Pool = record p { locked = true } in
    if p.locked then (p, blocked) else elim (lookup lang p.warm) [
      | none ↦ unlocked (p1, nothing)
      | some q ↦ take_warm again now lang q p1
    ]

unfoldable pub lengths : List (Text × List WarmedContainer) → List (Text × ℕ)
lengths [] = []
lengths ((lang, q) ∷ m) = (lang, length q) ∷ lengths m

-- `Stats`, or none if the call waits for the mutex.
unfoldable pub pool_stats : Pool → Option (List (Text × ℕ))
pool_stats p = if p.locked then none else some (lengths p.warm)

unfoldable pub is_ready : Pool → Bool
is_ready p = p.ready

-- What the daemon answers about an image: whether it is there, and each attempt to pull it.
pub record ImageAnswers : Type 0 where
  pub inspect : Option Text
  pub pull : ℕ → Option Text

module _ (d : DockerClient) (answers : (image : Text) → ImageAnswers) where
  -- The loop over the languages; an image that cannot be had is only logged.
  unfoldable pub ensure_images : List Text → Trace → Trace
  ensure_images [] es = es
  ensure_images (lang ∷ langs) es =
      let image = language_to_image d lang in
      let a = answers image in ensure_images langs (ensure_image a.inspect a.pull image es).0

  -- `warmUpLoop` up to its ticker; a tick is `ensure_images` again.
  unfoldable pub warm_up : Pool → Trace → Pool × Trace
  warm_up p es = (record p { ready = true }, ensure_images p.langs es)
