-- ===== src/Docker/Confinement.antt =====
-- executor/container.go: what `CreateInteractive` does while it stages, creates and starts a container.
use modigo_runner.Base.{
  ℕ, ◌≡◌, refl, Bool, true, false, List, [], ◌∷◌, Text, text_eq, arith, codes, contains, All, none,
  Bool-cases, inl, inr, ◌||◌, is_empty, one_of, has_prefix,
}
use modigo_runner.Paths.{dot_dot, join, render, is_rooted, clean_stack}
use modigo_runner.Paths.Inside.{Extends, join-Extends}
use modigo_runner.Docker.{is_cyber_lang, language_to_main_file, switch, main_files, normal}
use modigo_runner.Docker.Calls.{Trace, HostConfig, create, start, copy_files, write_file}
use modigo_runner.Docker.Stage.{is_unsafe_name}
use modigo_runner.Docker.Create.{tmpfs_mounts}

-- Not privileged, no new privileges, no mount but a tmpfs, and no network for a language that is not
-- for security work, unless the container joins a lab.
abbrev pub IsConfined : (lang lab : Text) → HostConfig → Type 0
IsConfined lang lab host =
    (host.privileged ≡ false)
    × (host.security_opt ≡ codes "no-new-privileges" ∷ [])
    × (host.mounts ≡ tmpfs_mounts)
    × (is_cyber_lang lang ≡ false → lab ≡ [] → host.network_mode ≡ codes "none")

-- Whether files have been copied into the container without an error.
abbrev pub injected : Text → Trace → Bool
injected id [] = false
injected id (copy_files j d none ∷ es) = let rest = injected id es in text_eq j id || rest
injected id (e ∷ es) = injected id es

-- The path is that of the directory with segments added, none of which is "..".
abbrev pub IsInside : Text → Text → Type 0
IsInside code_dir path =
    (stack : List Text) × (path ≡ render (is_rooted code_dir) stack)
    × Extends stack (clean_stack code_dir)

-- Every container is confined, none is started before its files are injected, and every file is
-- written inside the staging directory.
abbrev pub IsSafe : (code_dir lang lab : Text) → Trace → Type 0
IsSafe code_dir lang lab [] = Unit
IsSafe code_dir lang lab (create id cfg host ∷ es) =
    IsConfined lang lab host × IsSafe code_dir lang lab es
IsSafe code_dir lang lab (start id ∷ es) = (injected id es ≡ true) × IsSafe code_dir lang lab es
IsSafe code_dir lang lab (write_file path content ∷ es) =
    IsInside code_dir path × IsSafe code_dir lang lab es
IsSafe code_dir lang lab (e ∷ es) = IsSafe code_dir lang lab es

-- A switch gives one of its values.
switch-All {ℓ} :
    {A : Type 0} (P : A → Type ℓ) (name : Text) (cases : List (List Text × A)) (default : A)
    → All (λ c. P c.1) cases
    → P default
    → P (switch name cases default)
unfolding switch
switch-All P name [] default h p = p
switch-All P name ((names, a) ∷ cases) default (h, hs) p = elim (Bool-cases (one_of name names)) [
  | inl e ↦ rw e h
  | inr e ↦ rw e (switch-All P name cases default hs p)
]

abbrev pub IsPlainName : Text → Type 0
IsPlainName name = (is_empty name ≡ false) × (contains name dot_dot ≡ false)

pub main_file-IsPlainName : (lang : Text) → IsPlainName (language_to_main_file lang)
unfolding language_to_main_file contains has_prefix
main_file-IsPlainName lang =
    switch-All IsPlainName (normal lang) main_files (codes "main.txt")
      (
        (refl, refl),
        (
          (refl, refl),
          (
            (refl, refl),
            (
              (refl, refl),
              ((refl, refl), ((refl, refl), ((refl, refl), ((refl, refl), ((refl, refl), tt))))),
            ),
          ),
        ),
      )
      (refl, refl)

pub join-IsInside :
    (c : ℕ) (folder name : Text) → IsPlainName name → IsInside (c ∷ folder) (join (c ∷ folder) name)
join-IsInside c folder [] (p, q) = cc
join-IsInside c folder (e ∷ name) (p, q) =
    let (path, x) = join-Extends c folder e name q in (_, path, x)

pub safe_name-IsPlainName : (name : Text) → is_unsafe_name name ≡ false → IsPlainName name
unfolding is_unsafe_name
safe_name-IsPlainName name h = ground arith
