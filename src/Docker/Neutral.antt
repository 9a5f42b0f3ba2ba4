-- ===== src/Docker/Neutral.antt =====
-- executor/container.go: the stretches that neither create nor remove a container or a directory.
use modigo_runner.Base.{
  ℕ, zero, suc, ◌+◌, ◌≡◌, refl, ◌∙◌, List, [], ◌∷◌, Option, none, some, Text, arith, Option-cases,
  inl, inr,
}
use modigo_runner.Paths.{join, dir}
use modigo_runner.Docker.Calls.{Trace, containers, temp_dirs, pull_image, write_file, make_dirs}
use modigo_runner.Docker.Image.{pull_loop, ensure_image}
use modigo_runner.Docker.Stage.{
  File, HostFiles, write_extra, write_extras, write_go_mod, write_default_go_mod,
  create_compile_wrapper,
}
use modigo_runner.Docker.Rest.{write_files}

-- The same containers and directories are left over.
abbrev pub SameLeft : Trace → Trace → Type 0
SameLeft es es' = (containers es' ≡ containers es) × (temp_dirs es' ≡ temp_dirs es)

pub pull_loop-SameLeft :
    (pull : ℕ → Option Text) (name : Text) (left attempt : ℕ) (last : Option Text) (es : Trace)
    → SameLeft es (pull_loop pull name left attempt last es).0
unfolding pull_loop
pull_loop-SameLeft pull name zero attempt last es = (refl, refl)
pull_loop-SameLeft pull name (suc left) attempt last es = elim (Option-cases (pull attempt)) [
  | inl e ↦ rw (e, pull_loop) (refl, refl)
  | inr (x, e) ↦
      rw (e, pull_loop)
        (pull_loop-SameLeft pull name left (attempt + 1) (some x) (pull_image name ∷ es))
]

pub ensure_image-SameLeft :
    (inspected : Option Text) (pull : ℕ → Option Text) (name : Text) (es : Trace)
    → SameLeft es (ensure_image inspected pull name es).0
unfolding ensure_image
ensure_image-SameLeft none pull name es = (refl, refl)
ensure_image-SameLeft (some e) pull name es = pull_loop-SameLeft pull name 2 1 none _

module _ (h : HostFiles) where
  pub write_extra-SameLeft :
      (code_dir code_path : Text) (f : File) (es : Trace)
      → SameLeft es (write_extra h code_dir code_path f es)
  unfolding write_extra
  write_extra-SameLeft code_dir code_path f es = ground arith

  pub write_extras-SameLeft :
      (code_dir code_path : Text) (fs : List File) (es : Trace)
      → SameLeft es (write_extras h code_dir code_path fs es)
  unfolding write_extras
  write_extras-SameLeft code_dir code_path [] es = (refl, refl)
  write_extras-SameLeft code_dir code_path (f ∷ fs) es =
      let (c1, d1) = write_extra-SameLeft code_dir code_path f es in
      let (c2, d2) =
        write_extras-SameLeft code_dir code_path fs (write_extra h code_dir code_path f es) in
      (c2 ∙ c1, d2 ∙ d1)

  pub write_go_mod-SameLeft :
      (lang code_dir : Text) (fs : List File) (es : Trace)
      → SameLeft es (write_go_mod h lang code_dir fs es)
  unfolding write_go_mod
  write_go_mod-SameLeft lang code_dir fs es = ground arith

  pub write_default_go_mod-SameLeft :
      (lang code_dir : Text) (es : Trace) → SameLeft es (write_default_go_mod h lang code_dir es)
  unfolding write_default_go_mod
  write_default_go_mod-SameLeft lang code_dir es = ground arith

  pub create_compile_wrapper-SameLeft :
      (code_dir lang main_file : Text) (es : Trace)
      → SameLeft es (create_compile_wrapper h code_dir lang main_file es).0
  unfolding create_compile_wrapper
  create_compile_wrapper-SameLeft code_dir lang main_file es =
      ground (arith, write_default_go_mod-SameLeft lang code_dir es)

  pub write_files-SameLeft :
      (code_dir : Text) (fs : List File) (es : Trace) → SameLeft es (write_files h code_dir fs es).0
  unfolding write_files
  write_files-SameLeft code_dir [] es = (refl, refl)
  write_files-SameLeft code_dir (f ∷ fs) es = ground (
    arith,
    write_files-SameLeft code_dir fs
        (write_file (join code_dir f.name) f.content ∷ make_dirs (dir (join code_dir f.name)) ∷ es),
  )
