-- ===== src/Cleanup.antt =====
-- executor/cleanup.go: the removal of old containers, at the start and by the reaper
-- (executor/reaper.go).
pub mod Due
mod Examples
use modigo_runner.Base.{
  ℕ, ◌*◌, ◌-◌, ◌≡◌, Bool, true, false, not, ◌&&◌, List, [], ◌∷◌, ◌++◌, Option, none, some, Text,
  codes, any, text_eq, is_empty, has_prefix, contains, leb, ltb, if◌then◌else◌, Result, ok, err,
}
use modigo_runner.Ratelimit.{second}
use modigo_runner.Docker.Calls.{Trace, remove}

-- What the code uses of a container that the daemon lists; it was created at a time in seconds.
pub record Found : Type 0 where
  pub id : Text
  pub image : Text
  pub created : ℕ

-- What the daemon lists for the label, and for each image.
abbrev pub Listing : Type 0
Listing = Option Text → Result (List Found)

-- `studentImageLangs`
abbrev pub student_image_langs : List Text
student_image_langs =
    codes "python"
    ∷ codes "javascript"
    ∷ codes "c"
    ∷ codes "cpp"
    ∷ codes "go"
    ∷ codes "java"
    ∷ codes "rust"
    ∷ codes "php"
    ∷ []

-- A container whose id has been seen is left out.
unfoldable pub add_new : Found → List Found → List Found
add_new c all = if any (λ d. text_eq d.id c.id) all then all else all ++ c ∷ []

unfoldable pub add_all : List Found → List Found → List Found
add_all [] all = all
add_all (c ∷ cs) all = add_all cs (add_new c all)

unfoldable pub list_images : Listing → Text → List Text → List Found → Result (List Found)
list_images listing prefix [] all = ok all
list_images listing prefix (lang ∷ langs) all = elim (listing (some (prefix ++ lang))) [
  | err e ↦ err e
  | ok cs ↦ list_images listing prefix langs (add_all cs all)
]

unfoldable pub list_student_containers : Listing → Text → Result (List Found)
list_student_containers listing prefix = elim (listing none) [
  | err e ↦ err e
  | ok cs ↦
      if is_empty prefix
      then ok (add_all cs [])
      else list_images listing prefix student_image_langs (add_all cs [])
]

unfoldable pub is_student_container_image : Found → Text → Bool
is_student_container_image c prefix =
    if is_empty c.image
    then false
    else if not (is_empty prefix) && has_prefix c.image prefix
    then not (has_prefix c.image (prefix ++ codes "target-"))
    else not (contains c.image (codes "target-"))

module _ (prefix : Text) (now age_threshold : ℕ) where
  -- What the loop of `cleanupAged` does not skip; the times are in nanoseconds.
  unfoldable pub is_due : Found → Bool
  is_due c = is_student_container_image c prefix && leb age_threshold (now - c.created * second)

  unfoldable pub remove_due : List Found → Trace → Trace
  remove_due [] es = es
  remove_due (c ∷ cs) es = remove_due cs (if is_due c then remove c.id ∷ es else es)

  unfoldable pub cleanup_aged : Listing → Trace → Trace
  cleanup_aged listing es = elim (list_student_containers listing prefix) [
    | err e ↦ es
    | ok cs ↦ remove_due cs es
  ]

-- `CleanupOrphanedContainers`, and the reaper's `cleanupAged` after `zombieMaxAge`.
unfoldable pub cleanup_orphaned_containers : Text → ℕ → Listing → Trace → Trace
cleanup_orphaned_containers prefix now = cleanup_aged prefix now (120 * second)

unfoldable pub reap_zombies : Text → ℕ → Listing → Trace → Trace
reap_zombies prefix now = cleanup_aged prefix now (1200 * second)
