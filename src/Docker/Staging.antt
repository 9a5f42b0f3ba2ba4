-- ===== src/Docker/Staging.antt =====
-- executor/container.go: `CreateInteractive` is safe, stretch by stretch.
use modigo_runner.Base.{
  ℕ, zero, suc, ◌+◌, ◌≡◌, refl, Bool, true, false, List, [], ◌∷◌, Option, none, some, Text,
  text_eq_refl, arith, codes, contains, ok, Bool-cases, Option-cases, Result-cases, inl, inr,
  if◌then◌else◌, has_prefix, is_some, text_eq, ◌||◌,
}
use modigo_runner.Paths.{join, dir}
use modigo_runner.Docker.{
  DockerClient, is_compiled, network_mode_or_lab, network_mode_for_lang, limits_for_lang,
  language_to_main_file, language_to_image,
}
use modigo_runner.Docker.Calls.{
  Trace, copy_files, write_file, make_dirs, remove_dir, pull_image, inspect_image,
}
use modigo_runner.Docker.Image.{pull_loop, ensure_image}
use modigo_runner.Docker.Stage.{
  File, is_unsafe_name, leaves_dir, write_extra, write_extras, write_go_mod, write_default_go_mod,
  create_compile_wrapper, compile_script,
}
use modigo_runner.Docker.Create.{
  Answers, fail, host_config, attach_container, start_container, inject, create_container,
  wrap_code, write_code, stage_code, create_interactive,
}
use modigo_runner.Docker.Confinement.{
  IsConfined, injected, IsInside, IsSafe, main_file-IsPlainName, join-IsInside,
  safe_name-IsPlainName,
}

-- The stretches that create and start nothing.
module _ (code_dir lang lab : Text) where
  pull_loop-IsSafe :
      (pull : ℕ → Option Text) (name : Text) (left attempt : ℕ) (last : Option Text) (es : Trace)
      → IsSafe code_dir lang lab es
      → IsSafe code_dir lang lab (pull_loop pull name left attempt last es).0
  unfolding pull_loop
  pull_loop-IsSafe pull name zero attempt last es s = s
  pull_loop-IsSafe pull name (suc left) attempt last es s = elim (Option-cases (pull attempt)) [
    | inl e ↦ rw (e, pull_loop) s
    | inr (x, e) ↦
        rw (e, pull_loop)
          (pull_loop-IsSafe pull name left (attempt + 1) (some x) (pull_image name ∷ es) s)
  ]

  ensure_image-IsSafe :
      (inspected : Option Text) (pull : ℕ → Option Text) (name : Text) (es : Trace)
      → IsSafe code_dir lang lab es
      → IsSafe code_dir lang lab (ensure_image inspected pull name es).0
  unfolding ensure_image
  ensure_image-IsSafe none pull name es s = s
  ensure_image-IsSafe (some e) pull name es s =
      pull_loop-IsSafe pull name 2 1 none (inspect_image name ∷ es) s

module _ (d : DockerClient) (a : Answers) (c : ℕ) (folder lang lab : Text) where
  abbrev Safe : Trace → Type 0
  Safe = IsSafe (c ∷ folder) lang lab

  Safe-if : (b : Bool) (es es' : Trace) → Safe es → Safe es' → Safe (if b then es else es')
  Safe-if true es es' s s' = s
  Safe-if false es es' s s' = s'

  write_if-IsSafe :
      (b : Bool) (path content : Text) (es : Trace)
      → IsInside (c ∷ folder) path
      → Safe es
      → Safe (if b then write_file path content ∷ es else es)
  write_if-IsSafe true path content es inside s = (inside, s)
  write_if-IsSafe false path content es inside s = s

  write_extra-IsSafe :
      (code_path : Text) (f : File) (es : Trace)
      → Safe es
      → Safe (write_extra a.host (c ∷ folder) code_path f es)
  unfolding write_extra
  write_extra-IsSafe code_path f es s = elim (Bool-cases (is_unsafe_name f.name)) [
    | inl skipped ↦ rw skipped s
    | inr plain ↦
        let inside = join-IsInside c folder f.name (safe_name-IsPlainName f.name plain) in
        let path = join (c ∷ folder) f.name in
        let made : Trace = make_dirs (dir path) ∷ es in
        let refused = is_some (a.host.make_dirs (dir path)) in
        let written : Trace = if refused then made else write_file path f.content ∷ made in
        rw plain (
          Safe-if (false || leaves_dir (c ∷ folder) path || text_eq path code_path) es written s
            (Safe-if refused made (write_file path f.content ∷ made) s (inside, s)))
  ]

  write_extras-IsSafe :
      (code_path : Text) (fs : List File) (es : Trace)
      → Safe es
      → Safe (write_extras a.host (c ∷ folder) code_path fs es)
  unfolding write_extras
  write_extras-IsSafe code_path [] es s = s
  write_extras-IsSafe code_path (f ∷ fs) es s =
      write_extras-IsSafe code_path fs (write_extra a.host (c ∷ folder) code_path f es)
        (write_extra-IsSafe code_path f es s)

  write_go_mod-IsSafe :
      (fs : List File) (es : Trace) → Safe es → Safe (write_go_mod a.host lang (c ∷ folder) fs es)
  unfolding write_go_mod contains has_prefix
  write_go_mod-IsSafe fs es s =
      write_if-IsSafe _ _ _ es (join-IsInside c folder (codes "go.mod") (refl, refl)) s

  write_default_go_mod-IsSafe :
      (es : Trace) → Safe es → Safe (write_default_go_mod a.host lang (c ∷ folder) es)
  unfolding write_default_go_mod contains has_prefix
  write_default_go_mod-IsSafe es s =
      write_if-IsSafe _ _ _ es (join-IsInside c folder (codes "go.mod") (refl, refl)) s

  create_compile_wrapper-IsSafe :
      (main_file : Text) (es : Trace)
      → Safe es
      → Safe (create_compile_wrapper a.host (c ∷ folder) lang main_file es).0
  unfolding create_compile_wrapper contains has_prefix
  create_compile_wrapper-IsSafe main_file es s =
      let path = join (c ∷ folder) (codes "run.sh") in
      let inside : IsInside (c ∷ folder) path =
        join-IsInside c folder (codes "run.sh") (refl, refl) in
      let s1 = write_default_go_mod-IsSafe es s in
      elim (Option-cases (compile_script lang main_file)) [
        | inl e ↦ rw (e, create_compile_wrapper) s
        | inr (script, e) ↦ elim (Option-cases (a.host.write path)) [
          | inl q ↦ rw (e, q, create_compile_wrapper) (inside, s1)
          | inr (x, q) ↦ rw (e, q, create_compile_wrapper) (inside, s1)
        ]
      ]

  start_container-IsSafe :
      (id : Text) (es : Trace)
      → injected id es ≡ true
      → Safe es
      → Safe (start_container d a id es).0
  unfolding start_container attach_container fail
  start_container-IsSafe id es i s = ground arith

  inject-IsSafe : (id : Text) (es : Trace) → Safe es → Safe (inject d a (c ∷ folder) id es).0
  unfolding inject fail
  inject-IsSafe id es s = elim (Option-cases a.copy) [
    | inr (x, e) ↦ rw (e, inject) s
    | inl e ↦
        rw (e, inject)
          (start_container-IsSafe id
            (remove_dir (c ∷ folder) ∷ copy_files id (c ∷ folder) a.copy ∷ es)
            (ground (arith, e, text_eq_refl id)) s)
  ]

  host_config-IsConfined :
      IsConfined lang lab (host_config (limits_for_lang d lang) (network_mode_or_lab lang lab))
  unfolding host_config network_mode_or_lab network_mode_for_lang
  host_config-IsConfined = (refl, refl, refl, λ q e. rw (e, q))

  create_container-IsSafe :
      (wrapper : Option Text) (es : Trace)
      → Safe es
      → Safe (create_container d a (c ∷ folder) lang lab wrapper es).0
  unfolding create_container fail
  create_container-IsSafe wrapper es s = elim (Result-cases a.create) [
    | inl (id, e) ↦ rw (e, create_container) (inject-IsSafe id _ (host_config-IsConfined, s))
    | inr (x, e) ↦ rw (e, create_container) s
  ]

  wrap_code-IsSafe : (es : Trace) → Safe es → Safe (wrap_code d a (c ∷ folder) lang lab es).0
  unfolding wrap_code fail
  wrap_code-IsSafe es s =
      let main_file = language_to_main_file lang in
      let s1 = create_compile_wrapper-IsSafe main_file es s in
      elim (Bool-cases (is_compiled lang)) [
        | inl compiled ↦
            rw compiled
              (elim (Result-cases
                (create_compile_wrapper a.host (c ∷ folder) lang main_file es).1) [
                  | inl (path, e) ↦ rw (e, wrap_code) (create_container-IsSafe (some path) _ s1)
                  | inr (x, e) ↦ rw (e, wrap_code) s1
                ])
        | inr interpreted ↦ rw interpreted (create_container-IsSafe none es s)
      ]

  write_code-IsSafe :
      (code : Text) (extra : List File) (es : Trace)
      → Safe es
      → Safe (write_code d a (c ∷ folder) lang code lab extra es).0
  unfolding write_code fail
  write_code-IsSafe code extra es s =
      let code_path = join (c ∷ folder) (language_to_main_file lang) in
      let inside : IsInside (c ∷ folder) code_path =
        join-IsInside c folder (language_to_main_file lang) (main_file-IsPlainName lang) in
      let s1 : Safe (write_file code_path code ∷ es) = (inside, s) in
      let s2 = write_extras-IsSafe code_path extra _ s1 in
      elim (Option-cases (a.host.write code_path)) [
        | inl e ↦ rw (e, write_code) (wrap_code-IsSafe _ (write_go_mod-IsSafe extra _ s2))
        | inr (x, e) ↦ rw (e, write_code) s1
      ]

  -- Every container that `CreateInteractive` creates is confined; a container is started only after
  -- files were copied into it without an error; and whatever the names of the additional files, every file is written
  -- inside the staging directory (for a directory name that is not empty, and events that are safe).
  pub create_interactive-IsSafe :
      (code : Text) (extra : List File) (es : Trace)
      → a.temp_dir ≡ ok (c ∷ folder)
      → Safe es
      → Safe (create_interactive d a lang code lab extra es).0
  unfolding create_interactive stage_code fail
  create_interactive-IsSafe code extra es made s =
      let image = language_to_image d lang in
      let s1 = ensure_image-IsSafe (c ∷ folder) lang lab a.inspect_image a.pull image es s in
      elim (Option-cases (ensure_image a.inspect_image a.pull image es).1) [
        | inl e ↦ rw (e, made, create_interactive, stage_code) (write_code-IsSafe code extra _ s1)
        | inr (x, e) ↦ rw (e, create_interactive) s1
      ]
