-- ===== src/Docker/RestLeaks.antt =====
-- executor/container.go: what `RunNonInteractive` leaves behind.
use modigo_runner.Base.{
  ◌≡◌, refl, ◌∙◌, ap, ◌∷◌, Option, none, some, Text, arith, ok, Bool-cases, Option-cases,
  Result-cases, inl, inr, ◌&&◌, not, is_empty,
}
use modigo_runner.Paths.{join}
use modigo_runner.Docker.{language_to_image, DockerClient, is_compiled}
use modigo_runner.Docker.Calls.{
  Trace, containers, temp_dirs, Absent, drop_text, drop_text-cons, write_file, copy_files, start,
  attach, make_temp_dir,
}
use modigo_runner.Docker.Image.{ensure_image}
use modigo_runner.Docker.Stage.{create_compile_wrapper}
use modigo_runner.Docker.Rest.{
  main_file_of, RestRequest, RestAnswers, collect, wait_for, feed, attach_and_wait,
  inject_and_start, create_and_run, wrap_and_run, write_files, write_single, write_and_run,
  stage_and_run, run_non_interactive,
}
use modigo_runner.Docker.Neutral.{
  SameLeft, ensure_image-SameLeft, create_compile_wrapper-SameLeft, write_files-SameLeft,
}
use modigo_runner.Docker.Leaks.{NewNames}

module _ (d : DockerClient) (a : RestAnswers) (req : RestRequest) where
  wait_for-SameLeft : (id : Text) (es : Trace) → SameLeft es (wait_for d a req id es).0
  unfolding wait_for collect
  wait_for-SameLeft id es = ground arith

  inject_and_start-SameLeft :
      (code_dir id : Text) (es : Trace) → SameLeft es (inject_and_start d a req code_dir id es).0
  unfolding inject_and_start attach_and_wait feed
  inject_and_start-SameLeft code_dir id es = ground (
    arith,
    wait_for-SameLeft id
        (feed d a req id (attach id ∷ start id ∷ copy_files id code_dir a.copy ∷ es)),
  )

  create_and_run-SameLeft :
      (code_dir : Text) (wrapper : Option Text) (es0 es : Trace)
      → ((id : Text) → a.create ≡ ok id → Absent id (containers es0))
      → containers es ≡ containers es0
      → SameLeft es (create_and_run d a req code_dir wrapper es).0
  unfolding create_and_run
  create_and_run-SameLeft code_dir wrapper es0 es fresh c = elim (Result-cases a.create) [
    | inl (id, e) ↦
        let gone : drop_text id (id ∷ containers es) ≡ containers es =
          drop_text-cons id (containers es) (rw c (fresh id e)) in
        let (c1, t1) = inject_and_start-SameLeft code_dir id _ in
        rw (e, create_and_run) (ap (drop_text id) c1 ∙ gone, t1)
    | inr (x, e) ↦ rw (e, create_and_run) (refl, refl)
  ]

  -- The request's events leave the containers alone, and the staging directory where it is.
  wrap_and_run-SameLeft :
      (code_dir : Text) (es0 es : Trace)
      → ((id : Text) → a.create ≡ ok id → Absent id (containers es0))
      → containers es ≡ containers es0
      → SameLeft es (wrap_and_run d a req code_dir es).0
  unfolding wrap_and_run
  wrap_and_run-SameLeft code_dir es0 es fresh c =
      let main_file = main_file_of req in
      let (c1, t1) = create_compile_wrapper-SameLeft a.host code_dir req.language main_file es in
      elim (Bool-cases (is_compiled req.language)) [
        | inl compiled ↦
            rw compiled
              (elim (Result-cases
                (create_compile_wrapper a.host code_dir req.language main_file es).1) [
                  | inl (path, e) ↦
                      let (c2, t2) =
                        create_and_run-SameLeft code_dir (some path) es0 _ fresh (c1 ∙ c) in
                      rw (e, wrap_and_run) (c2 ∙ c1, t2 ∙ t1)
                  | inr (x, e) ↦ rw (e, wrap_and_run) (c1, t1)
                ])
        | inr interpreted ↦ rw interpreted (create_and_run-SameLeft code_dir none es0 es fresh c)
      ]

  write_single-SameLeft :
      (code_dir : Text) (es0 es : Trace)
      → ((id : Text) → a.create ≡ ok id → Absent id (containers es0))
      → containers es ≡ containers es0
      → SameLeft es (write_single d a req code_dir es).0
  unfolding write_single
  write_single-SameLeft code_dir es0 es fresh c =
      let path = join code_dir (main_file_of req) in
      elim (Bool-cases (is_empty req.files && not (is_empty req.code))) [
        | inl single ↦ rw single (elim (Option-cases (a.host.write path)) [
          | inl e ↦
              rw (e, write_single)
                (wrap_and_run-SameLeft code_dir es0 (write_file path req.code ∷ es) fresh c)
          | inr (x, e) ↦ rw (e, write_single) (refl, refl)
        ])
        | inr many ↦ rw many (wrap_and_run-SameLeft code_dir es0 es fresh c)
      ]

  write_and_run-SameLeft :
      (code_dir : Text) (es0 es : Trace)
      → ((id : Text) → a.create ≡ ok id → Absent id (containers es0))
      → containers es ≡ containers es0
      → SameLeft es (write_and_run d a req code_dir es).0
  unfolding write_and_run
  write_and_run-SameLeft code_dir es0 es fresh c =
      let (c1, t1) = write_files-SameLeft a.host code_dir req.files es in
      elim (Option-cases (write_files a.host code_dir req.files es).1) [
        | inl e ↦
            let (c2, t2) = write_single-SameLeft code_dir es0 _ fresh (c1 ∙ c) in
            rw (e, write_and_run) (c2 ∙ c1, t2 ∙ t1)
        | inr (x, e) ↦ rw (e, write_and_run) (c1, t1)
      ]

  stage_and_run-SameLeft :
      (es0 es : Trace)
      → NewNames es0 a.create a.temp_dir
      → SameLeft es0 es
      → SameLeft es (stage_and_run d a req es).0
  unfolding stage_and_run
  stage_and_run-SameLeft es0 es (fresh, fresh_dir) (c, t) = elim (Result-cases a.temp_dir) [
    | inl (path, e) ↦
        let (c1, t1) = write_and_run-SameLeft path es0 (make_temp_dir path ∷ es) fresh c in
        rw (e, stage_and_run)
          (
            c1,
            ap (drop_text path) t1 ∙ drop_text-cons path (temp_dirs es) (rw t (fresh_dir path e)),
          )
    | inr (x, e) ↦ rw (e, stage_and_run) (refl, refl)
  ]

  -- `RunNonInteractive` leaves nothing behind, whether it fails or succeeds: it has asked for the
  -- removal of its container, and has removed its staging directory (for names that are new).
  pub run_non_interactive-SameLeft :
      (es : Trace)
      → NewNames es a.create a.temp_dir
      → SameLeft es (run_non_interactive d a req es).0
  unfolding run_non_interactive
  run_non_interactive-SameLeft es fresh =
      let image = language_to_image d req.language in
      let (c, t) = ensure_image-SameLeft a.inspect_image a.pull image es in
      elim (Option-cases (ensure_image a.inspect_image a.pull image es).1) [
        | inl e ↦
            let (c1, t1) = stage_and_run-SameLeft es _ fresh (c, t) in
            rw (e, run_non_interactive) (c1 ∙ c, t1 ∙ t)
        | inr (x, e) ↦ rw (e, run_non_interactive) (c, t)
      ]
