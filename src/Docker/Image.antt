-- ===== src/Docker/Image.antt =====
-- executor/container.go: `ensureImage`.
use modigo_runner.Base.{ℕ, zero, suc, ◌+◌, ◌++◌, Option, none, some, ◌∷◌, Text, codes}
use modigo_runner.Docker.Calls.{Trace, inspect_image, pull_image}

unfoldable pub not_available : Text → Option Text → Text
not_available name none = codes "image " ++ name ++ codes " not available"
not_available name (some e) =
    codes "image "
    ++ name
    ++ codes " not available (pull failed after 2 attempts: "
    ++ e
    ++ codes ") — make sure the Docker image is built locally"

-- `for attempt := 1; attempt <= 2; attempt++`: `left` attempts remain, `pull` is what each answers.
unfoldable pub pull_loop :
    (ℕ → Option Text) → Text → ℕ → ℕ → Option Text → Trace → Trace × Option Text
pull_loop pull name zero attempt last es = (es, some (not_available name last))
pull_loop pull name (suc left) attempt last es = elim (pull attempt) [
  | none ↦ (pull_image name ∷ es, none)
  | some e ↦ pull_loop pull name left (attempt + 1) (some e) (pull_image name ∷ es)
]

-- The result is the error, if there is one.
unfoldable pub ensure_image : Option Text → (ℕ → Option Text) → Text → Trace → Trace × Option Text
ensure_image none pull name es = (inspect_image name ∷ es, none)
ensure_image (some e) pull name es = pull_loop pull name 2 1 none (inspect_image name ∷ es)
