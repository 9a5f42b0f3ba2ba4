-- ===== src/Docker/Networkless.antt =====
-- executor/container.go: the creation of a container neither creates nor removes a network.
use modigo_runner.Base.{
  ℕ, zero, suc, ◌+◌, ◌≡◌, refl, ◌∙◌, List, [], ◌∷◌, Option, none, some, Text, arith, Option-cases,
  Result-cases, Bool-cases, inl, inr,
}
use modigo_runner.Paths.{join}
use modigo_runner.Docker.{DockerClient, language_to_main_file, language_to_image, is_compiled}
use modigo_runner.Docker.Calls.{Trace, networks, pull_image}
use modigo_runner.Docker.Image.{pull_loop, ensure_image}
use modigo_runner.Docker.Stage.{
  File, HostFiles, write_extra, write_extras, write_go_mod, write_default_go_mod,
  create_compile_wrapper,
}
use modigo_runner.Docker.Create.{
  Answers, fail, attach_container, start_container, inject, create_container, wrap_code, write_code,
  stage_code, create_interactive,
}
use modigo_runner.Docker.Shell.{create_shell_container, create_shell}

-- The same networks are left over.
abbrev pub SameNets : Trace → Trace → Type 0
SameNets es es' = networks es' ≡ networks es

pull_loop-SameNets :
    (pull : ℕ → Option Text) (name : Text) (left attempt : ℕ) (last : Option Text) (es : Trace)
    → SameNets es (pull_loop pull name left attempt last es).0
unfolding pull_loop
pull_loop-SameNets pull name zero attempt last es = refl
pull_loop-SameNets pull name (suc left) attempt last es = elim (Option-cases (pull attempt)) [
  | inl e ↦ rw (e, pull_loop) refl
  | inr (x, e) ↦
      rw (e, pull_loop)
        (pull_loop-SameNets pull name left (attempt + 1) (some x) (pull_image name ∷ es))
]

ensure_image-SameNets :
    (inspected : Option Text) (pull : ℕ → Option Text) (name : Text) (es : Trace)
    → SameNets es (ensure_image inspected pull name es).0
unfolding ensure_image
ensure_image-SameNets none pull name es = refl
ensure_image-SameNets (some e) pull name es = pull_loop-SameNets pull name 2 1 none _

module _ (h : HostFiles) where
  write_extras-SameNets :
      (code_dir code_path : Text) (fs : List File) (es : Trace)
      → SameNets es (write_extras h code_dir code_path fs es)
  unfolding write_extras write_extra
  write_extras-SameNets code_dir code_path [] es = refl
  write_extras-SameNets code_dir code_path (f ∷ fs) es =
      write_extras-SameNets code_dir code_path fs (write_extra h code_dir code_path f es)
      ∙ ground arith

  write_go_mod-SameNets :
      (lang code_dir : Text) (fs : List File) (es : Trace)
      → SameNets es (write_go_mod h lang code_dir fs es)
  unfolding write_go_mod
  write_go_mod-SameNets lang code_dir fs es = ground arith

  create_compile_wrapper-SameNets :
      (code_dir lang main_file : Text) (es : Trace)
      → SameNets es (create_compile_wrapper h code_dir lang main_file es).0
  unfolding create_compile_wrapper write_default_go_mod
  create_compile_wrapper-SameNets code_dir lang main_file es = ground arith

module _ (d : DockerClient) (a : Answers) where
  start_container-SameNets : (id : Text) (es : Trace) → SameNets es (start_container d a id es).0
  unfolding start_container attach_container fail
  start_container-SameNets id es = ground arith

  create_container-SameNets :
      (code_dir lang lab_network_id : Text) (wrapper : Option Text) (es : Trace)
      → SameNets es (create_container d a code_dir lang lab_network_id wrapper es).0
  unfolding create_container inject fail
  create_container-SameNets code_dir lang lab_network_id wrapper es = elim (Result-cases a.create) [
    | inr (x, e) ↦ rw (e, create_container) refl
    | inl (id, e) ↦ elim (Option-cases a.copy) [
      | inl c ↦ rw (e, c, create_container, inject) (start_container-SameNets id _)
      | inr (x, c) ↦ rw (e, c, create_container, inject) refl
    ]
  ]

  wrap_code-SameNets :
      (code_dir lang lab_network_id : Text) (es : Trace)
      → SameNets es (wrap_code d a code_dir lang lab_network_id es).0
  unfolding wrap_code fail
  wrap_code-SameNets code_dir lang lab es =
      let same =
        create_compile_wrapper-SameNets a.host code_dir lang (language_to_main_file lang) es in
      let wrapper = create_compile_wrapper a.host code_dir lang (language_to_main_file lang) es in
      elim (Bool-cases (is_compiled lang)) [
        | inr b ↦ rw (b, wrap_code) (create_container-SameNets code_dir lang lab none es)
        | inl b ↦ elim (Result-cases wrapper.1) [
          | inr (x, e) ↦ rw (b, e, wrap_code) same
          | inl (path, e) ↦
              rw (b, e, wrap_code)
                (create_container-SameNets code_dir lang lab (some path) wrapper.0 ∙ same)
        ]
      ]

  stage_code-SameNets :
      (lang code lab : Text) (extra : List File) (es : Trace)
      → SameNets es (stage_code d a lang code lab extra es).0
  unfolding stage_code write_code fail
  stage_code-SameNets lang code lab extra es = elim (Result-cases a.temp_dir) [
    | inr (x, e) ↦ rw (e, stage_code) refl
    | inl (path, e) ↦
        let file = join path (language_to_main_file lang) in
        elim (Option-cases (a.host.write file)) [
          | inr (x, w) ↦ rw (e, w, stage_code, write_code) refl
          | inl w ↦
              rw (e, w, stage_code, write_code)
                (wrap_code-SameNets path lang lab _
                  ∙ write_go_mod-SameNets a.host lang path extra _
                  ∙ write_extras-SameNets a.host path file extra _)
        ]
  ]

  pub create_interactive-SameNets :
      (lang code lab : Text) (extra : List File) (es : Trace)
      → SameNets es (create_interactive d a lang code lab extra es).0
  unfolding create_interactive fail
  create_interactive-SameNets lang code lab extra es =
      let image = language_to_image d lang in
      let same = ensure_image-SameNets a.inspect_image a.pull image es in
      elim (Option-cases (ensure_image a.inspect_image a.pull image es).1) [
        | inl e ↦ rw (e, create_interactive) (stage_code-SameNets lang code lab extra _ ∙ same)
        | inr (x, e) ↦ rw (e, create_interactive) same
      ]

  pub create_shell-SameNets :
      (shell_cmd lang lab : Text) (es : Trace)
      → SameNets es (create_shell d a shell_cmd lang lab es).0
  unfolding create_shell create_shell_container fail
  create_shell-SameNets shell_cmd lang lab es =
      let image = language_to_image d lang in
      let same = ensure_image-SameNets a.inspect_image a.pull image es in
      elim (Option-cases (ensure_image a.inspect_image a.pull image es).1) [
        | inr (x, e) ↦ rw (e, create_shell) same
        | inl e ↦ elim (Result-cases a.create) [
          | inr (x, c) ↦ rw (e, c, create_shell, create_shell_container) same
          | inl (id, c) ↦
              rw (e, c, create_shell, create_shell_container) (start_container-SameNets id _ ∙ same)
        ]
      ]
