-- ===== src/Docker/Leaks.antt =====
-- executor/container.go: what `CreateInteractive` and `CreateShell` leave behind.
use modigo_runner.Base.{
  ◌≡◌, refl, ◌∙◌, ap, List, ◌∷◌, Option, none, some, Text, arith, Result, ok, err, Bool-cases,
  Option-cases, Result-cases, inl, inr,
}
use modigo_runner.Paths.{join}
use modigo_runner.Docker.{language_to_image, language_to_main_file, DockerClient, is_compiled}
use modigo_runner.Docker.Calls.{
  Trace, containers, temp_dirs, Absent, drop_text, drop_text-cons, write_file, remove_dir,
  copy_files,
}
use modigo_runner.Docker.Image.{ensure_image}
use modigo_runner.Docker.Stage.{File, write_extras, write_go_mod, create_compile_wrapper}
use modigo_runner.Docker.Create.{
  Answers, Creation, fail, attach_container, start_container, inject, create_container, wrap_code,
  write_code, stage_code, create_interactive,
}
use modigo_runner.Docker.Shell.{create_shell_container, create_shell}
use modigo_runner.Docker.Neutral.{
  SameLeft, ensure_image-SameLeft, write_extras-SameLeft, write_go_mod-SameLeft,
  create_compile_wrapper-SameLeft,
}

-- A failed creation leaves nothing more behind, and a successful one its container.
abbrev pub Settled : Trace → Creation → Type 0
Settled es (es', err e) = SameLeft es es'
Settled es (es', ok s) =
    (containers es' ≡ s.container_id ∷ containers es) × (temp_dirs es' ≡ temp_dirs es)

-- The daemon names a new container by a new id, and the host a new directory by a new name.
abbrev pub NewNames : Trace → Result Text → Result Text → Type 0
NewNames es created made =
    ((id : Text) → created ≡ ok id → Absent id (containers es))
    × ((path : Text) → made ≡ ok path → Absent path (temp_dirs es))

module _ (d : DockerClient) (a : Answers) where
  start_container-Settled :
      (id : Text) (es0 es : Trace)
      → Absent id (containers es0)
      → containers es ≡ id ∷ containers es0
      → temp_dirs es ≡ temp_dirs es0
      → Settled es0 (start_container d a id es)
  unfolding start_container attach_container fail
  start_container-Settled id es0 es fresh e e' =
      ground (arith, drop_text-cons id (containers es0) fresh)

  -- Where the staging directory is still there.
  record Staged (code_dir : Text) (es0 es : Trace) : Type 0 where
    fresh_dir : Absent code_dir (temp_dirs es0)
    same : containers es ≡ containers es0
    one_more : temp_dirs es ≡ code_dir ∷ temp_dirs es0

  Staged-same :
      {code_dir : Text} {es0 es es' : Trace}
      → Staged code_dir es0 es
      → SameLeft es es'
      → Staged code_dir es0 es'
  Staged-same s (c, t) = record {
    fresh_dir = s.fresh_dir;
    same = c ∙ s.same;
    one_more = t ∙ s.one_more;
  }

  dir_gone :
      {code_dir : Text} {es0 es : Trace}
      → Staged code_dir es0 es
      → drop_text code_dir (temp_dirs es) ≡ temp_dirs es0
  dir_gone {code_dir} {es0} s =
      ap (drop_text code_dir) s.one_more ∙ drop_text-cons code_dir (temp_dirs es0) s.fresh_dir

  fail-Staged :
      {code_dir : Text} {es0 es : Trace} (label e : Text)
      → Staged code_dir es0 es
      → Settled es0 (fail (remove_dir code_dir ∷ es) label e)
  unfolding fail
  fail-Staged label e s = (s.same, dir_gone s)

  inject-Settled :
      (code_dir id : Text) (es0 es : Trace)
      → Absent id (containers es0)
      → Absent code_dir (temp_dirs es0)
      → containers es ≡ id ∷ containers es0
      → temp_dirs es ≡ code_dir ∷ temp_dirs es0
      → Settled es0 (inject d a code_dir id es)
  unfolding inject fail
  inject-Settled code_dir id es0 es fresh fresh_dir e e' =
      let gone : drop_text code_dir (temp_dirs es) ≡ temp_dirs es0 =
        ap (drop_text code_dir) e' ∙ drop_text-cons code_dir (temp_dirs es0) fresh_dir in
      elim (Option-cases a.copy) [
        | inl done ↦
            rw (done, inject)
              (start_container-Settled id es0
                (remove_dir code_dir ∷ copy_files id code_dir a.copy ∷ es) fresh e gone)
        | inr (x, failed) ↦
            rw (failed, inject)
              (ap (drop_text id) e ∙ drop_text-cons id (containers es0) fresh, gone)
      ]

  create_container-Settled :
      (code_dir lang lab : Text) (wrapper : Option Text) (es0 es : Trace)
      → ((id : Text) → a.create ≡ ok id → Absent id (containers es0))
      → Staged code_dir es0 es
      → Settled es0 (create_container d a code_dir lang lab wrapper es)
  unfolding create_container
  create_container-Settled code_dir lang lab wrapper es0 es fresh s = elim (Result-cases a.create) [
    | inl (id, e) ↦
        rw (e, create_container)
          (inject-Settled code_dir id es0 _ (fresh id e) s.fresh_dir (ap (λ x. id ∷ x) s.same)
            s.one_more)
    | inr (x, e) ↦ rw (e, create_container) (fail-Staged _ x s)
  ]

  wrap_code-Settled :
      (code_dir lang lab : Text) (es0 es : Trace)
      → ((id : Text) → a.create ≡ ok id → Absent id (containers es0))
      → Staged code_dir es0 es
      → Settled es0 (wrap_code d a code_dir lang lab es)
  unfolding wrap_code
  wrap_code-Settled code_dir lang lab es0 es fresh s =
      let main_file = language_to_main_file lang in
      let s1 = Staged-same s (create_compile_wrapper-SameLeft a.host code_dir lang main_file es) in
      elim (Bool-cases (is_compiled lang)) [
        | inl compiled ↦
            rw compiled
              (elim (Result-cases (create_compile_wrapper a.host code_dir lang main_file es).1) [
                | inl (path, e) ↦
                    rw (e, wrap_code)
                      (create_container-Settled code_dir lang lab (some path) es0 _ fresh s1)
                | inr (x, e) ↦ rw (e, wrap_code) (fail-Staged _ x s1)
              ])
        | inr interpreted ↦
            rw interpreted (create_container-Settled code_dir lang lab none es0 es fresh s)
      ]

  write_code-Settled :
      (code_dir lang code lab : Text) (extra : List File) (es0 es : Trace)
      → ((id : Text) → a.create ≡ ok id → Absent id (containers es0))
      → Staged code_dir es0 es
      → Settled es0 (write_code d a code_dir lang code lab extra es)
  unfolding write_code
  write_code-Settled code_dir lang code lab extra es0 es fresh s =
      let code_path = join code_dir (language_to_main_file lang) in
      let written : Trace = write_file code_path code ∷ es in
      let extras : Trace = write_extras a.host code_dir code_path extra written in
      let modules : Trace = write_go_mod a.host lang code_dir extra extras in
      let s1 : Staged code_dir es0 written = Staged-same s (refl, refl) in
      let s2 : Staged code_dir es0 extras =
        Staged-same s1 (write_extras-SameLeft a.host code_dir code_path extra written) in
      let s3 : Staged code_dir es0 modules =
        Staged-same s2 (write_go_mod-SameLeft a.host lang code_dir extra extras) in
      elim (Option-cases (a.host.write code_path)) [
        | inl e ↦ rw (e, write_code) (wrap_code-Settled code_dir lang lab es0 _ fresh s3)
        | inr (x, e) ↦ rw (e, write_code) (fail-Staged _ x s1)
      ]

  stage_code-Settled :
      (lang code lab : Text) (extra : List File) (es0 es : Trace)
      → NewNames es0 a.create a.temp_dir
      → SameLeft es0 es
      → Settled es0 (stage_code d a lang code lab extra es)
  unfolding stage_code fail
  stage_code-Settled lang code lab extra es0 es (fresh, fresh_dir) (c, t) =
      elim (Result-cases a.temp_dir) [
        | inl (path, e) ↦
            rw (e, stage_code)
              (write_code-Settled path lang code lab extra es0 _ fresh (record {
                fresh_dir = fresh_dir path e;
                same = c;
                one_more = ap (λ x. path ∷ x) t;
              }))
        | inr (x, e) ↦ rw (e, stage_code) (c, t)
      ]

  -- `CreateInteractive` leaves no staging directory behind on any path; if it fails it has also asked
  -- for the removal of every container that it created, and if it succeeds it leaves the one container
  -- that it returns (for a container id and a directory name that are new).
  pub create_interactive-Settled :
      (lang code lab : Text) (extra : List File) (es : Trace)
      → NewNames es a.create a.temp_dir
      → Settled es (create_interactive d a lang code lab extra es)
  unfolding create_interactive fail
  create_interactive-Settled lang code lab extra es fresh =
      let image = language_to_image d lang in
      let same = ensure_image-SameLeft a.inspect_image a.pull image es in
      elim (Option-cases (ensure_image a.inspect_image a.pull image es).1) [
        | inl e ↦
            rw (e, create_interactive) (stage_code-Settled lang code lab extra es _ fresh same)
        | inr (x, e) ↦ rw (e, create_interactive) same
      ]

  create_shell_container-Settled :
      (shell_cmd lang lab : Text) (es0 es : Trace)
      → ((id : Text) → a.create ≡ ok id → Absent id (containers es0))
      → SameLeft es0 es
      → Settled es0 (create_shell_container d a shell_cmd lang lab es)
  unfolding create_shell_container fail
  create_shell_container-Settled shell_cmd lang lab es0 es fresh (c, t) =
      elim (Result-cases a.create) [
        | inl (id, e) ↦
            rw (e, create_shell_container)
              (start_container-Settled id es0 _ (fresh id e) (ap (λ x. id ∷ x) c) t)
        | inr (x, e) ↦ rw (e, create_shell_container) (c, t)
      ]

  -- `CreateShell` leaves the one container that it returns if it succeeds, and has asked for the removal
  -- of every container that it created if it fails; it makes no staging directory (for an id that is
  -- new).
  pub create_shell-Settled :
      (shell_cmd lang lab : Text) (es : Trace)
      → ((id : Text) → a.create ≡ ok id → Absent id (containers es))
      → Settled es (create_shell d a shell_cmd lang lab es)
  unfolding create_shell fail
  create_shell-Settled shell_cmd lang lab es fresh =
      let image = language_to_image d lang in
      let same = ensure_image-SameLeft a.inspect_image a.pull image es in
      elim (Option-cases (ensure_image a.inspect_image a.pull image es).1) [
        | inl e ↦
            rw (e, create_shell) (create_shell_container-Settled shell_cmd lang lab es _ fresh same)
        | inr (x, e) ↦ rw (e, create_shell) same
      ]
