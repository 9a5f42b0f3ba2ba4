-- ===== src/Docker/Rest.antt =====
-- executor/container.go: `RunNonInteractive`, the run of a REST request. Its deferred calls are the
-- events that each function adds to what it returns: the removal of the container, then that of the
-- staging directory, then the cancellation of the context.
use modigo_runner.Base.{
  ℕ, ℤ, pos, true, false, not, ◌&&◌, List, [], ◌∷◌, ◌++◌, Option, none, some, Text, codes, text_eq,
  to_lower, is_empty, if◌then◌else◌, Result, ok, err, errorf,
}
use modigo_runner.Paths.{join, base, dir}
use modigo_runner.Docker.{DockerClient, language_to_image, language_to_main_file, is_compiled}
use modigo_runner.Docker.Calls.{
  Event, Trace, ContainerConfig, HostConfig, make_temp_dir, remove_dir, make_dirs, write_file,
  create, copy_files, start, attach, wait, logs, remove, cancel, write_stdin, close_conn,
}
use modigo_runner.Docker.Image.{ensure_image}
use modigo_runner.Docker.Stage.{File, HostFiles, create_compile_wrapper}
use modigo_runner.Docker.Create.{tmpfs_mounts}
use modigo_runner.Docker.Inspect.{is_zero}

-- `protocol.RESTRequest` and `protocol.RESTResponse`
pub record RestRequest : Type 0 where
  pub language : Text
  pub code : Text
  pub stdin : Text
  pub files : List File

pub record RestResponse : Type 0 where
  pub status : Text
  pub stdout : Text
  pub stderr : Text
  pub exit_code : ℤ
  pub execution_time : ℕ

-- What the daemon, the host and the clock answer. `wait` is the exit status, an error from the error
-- channel, or none of both: a nil error leaves the status 0. `output` is what the demultiplexer makes
-- of the logs (or the fallback copy).
pub record RestAnswers : Type 0 where
  pub inspect_image : Option Text
  pub pull : ℕ → Option Text
  pub temp_dir : Result Text
  pub host : HostFiles
  pub create : Result Text
  pub copy : Option Text
  pub start : Option Text
  pub attach : Option Text
  pub wait : Result (Option ℤ)
  pub logs : Option Text
  pub stdout : Text
  pub stderr : Text
  pub elapsed : ℕ

abbrev pub Run : Type 0
Run = Trace × Result RestResponse

abbrev failed : Trace → Text → Text → Run
failed es label e = (es, err (errorf label e))

-- `defer`: one more event behind whatever a function does.
abbrev finally : Event → Run → Run
finally ev (es, r) = (ev ∷ es, r)

unfoldable pub rest_response : RestAnswers → ℤ → RestResponse
rest_response a exit_code = record {
  status = if is_zero exit_code then codes "success" else codes "error";
  stdout = a.stdout;
  stderr = a.stderr;
  exit_code = exit_code;
  execution_time = a.elapsed;
}

unfoldable pub rest_cmd : Text → Text → Option Text → List Text
rest_cmd lang main_file wrapper =
    if text_eq (to_lower lang) (codes "php") then codes "php" ∷ main_file ∷ [] else elim wrapper [
      | none ↦ []
      | some path ↦ codes "/bin/sh" ∷ (codes "/code/" ++ base path) ∷ []
    ]

unfoldable pub rest_config : Text → List Text → ContainerConfig
rest_config image cmd = record {
  image = image;
  tty = false;
  open_stdin = true;
  stdin_once = true;
  working_dir = codes "/code";
  cmd = cmd;
  env = [];
  labels = (codes "modigo-runner", codes "1") ∷ [];
}

unfoldable pub rest_host_config : DockerClient → HostConfig
rest_host_config d = record {
  memory = d.limits.memory;
  cpu_period = d.limits.cpu_period;
  cpu_quota = d.limits.cpu_quota;
  pids_limit = some d.limits.pids_limit;
  network_mode = codes "none";
  privileged = false;
  readonly_rootfs = false;
  auto_remove = false;
  security_opt = codes "no-new-privileges" ∷ [];
  mounts = tmpfs_mounts;
}

unfoldable pub main_file_of : RestRequest → Text
main_file_of req = elim req.files [ [] ↦ language_to_main_file req.language | f ∷ fs ↦ f.name ]

-- The loop over the files of the request; their names are used as they are.
unfoldable pub write_files : HostFiles → Text → List File → Trace → Trace × Option Text
write_files h code_dir [] es = (es, none)
write_files h code_dir (f ∷ fs) es =
    let path = join code_dir f.name in
    let es1 = make_dirs (dir path) ∷ es in
    let es2 = write_file path f.content ∷ es1 in
    let rest = write_files h code_dir fs es2 in
    elim (h.make_dirs (dir path)) [
      | some e ↦ (es1, some (errorf (codes "mkdir") e))
      | none ↦ elim (h.write path) [
        | some e ↦ (es2, some (errorf (codes "write file") e))
        | none ↦ rest
      ]
    ]

module _ (d : DockerClient) (a : RestAnswers) (req : RestRequest) where
  unfoldable pub collect : Text → ℤ → Trace → Run
  collect id exit_code es = elim a.logs [
    | some e ↦ failed (logs id ∷ es) (codes "container logs") e
    | none ↦ (logs id ∷ es, ok (rest_response a exit_code))
  ]

  unfoldable pub wait_for : Text → Trace → Run
  wait_for id es = elim a.wait [
    | err e ↦ failed (wait id ∷ es) (codes "container wait") e
    | ok status ↦ collect id (elim status [ none ↦ pos 0 | some code ↦ code ]) (wait id ∷ es)
  ]

  -- "Pipe stdin if provided", else close it; the goroutine writes and closes.
  unfoldable pub feed : Text → Trace → Trace
  feed id es =
      if is_empty req.stdin
      then close_conn id ∷ es
      else close_conn id ∷ write_stdin id req.stdin ∷ es

  unfoldable pub attach_and_wait : Text → Trace → Run
  attach_and_wait id es = elim a.attach [
    | some e ↦ failed (attach id ∷ es) (codes "container attach") e
    | none ↦ wait_for id (feed id (attach id ∷ es))
  ]

  unfoldable pub inject_and_start : Text → Text → Trace → Run
  inject_and_start code_dir id es = elim a.copy [
    | some e ↦ failed (copy_files id code_dir a.copy ∷ es) (codes "copy files to container") e
    | none ↦ elim a.start [
      | some e ↦ failed (start id ∷ copy_files id code_dir a.copy ∷ es) (codes "container start") e
      | none ↦ attach_and_wait id (start id ∷ copy_files id code_dir a.copy ∷ es)
    ]
  ]

  unfoldable pub create_and_run : Text → Option Text → Trace → Run
  create_and_run code_dir wrapper es = elim a.create [
    | err e ↦ failed es (codes "container create") e
    | ok id ↦ finally (remove id) (
        inject_and_start code_dir id (
          create id
            (rest_config (language_to_image d req.language)
              (rest_cmd req.language (main_file_of req) wrapper))
            (rest_host_config d)
          ∷ es))
  ]

  unfoldable pub wrap_and_run : Text → Trace → Run
  wrap_and_run code_dir es =
      let (es1, wrapper) =
        create_compile_wrapper a.host code_dir req.language (main_file_of req) es in
      let compiled : Run = elim wrapper [
        | err e ↦ failed es1 (codes "compile wrapper") e
        | ok path ↦ create_and_run code_dir (some path) es1
      ] in
      if is_compiled req.language then compiled else create_and_run code_dir none es

  -- "If single code string provided (no files), write it as the main file".
  unfoldable pub write_single : Text → Trace → Run
  write_single code_dir es =
      let path = join code_dir (main_file_of req) in
      let written : Run = elim (a.host.write path) [
        | some e ↦ failed (write_file path req.code ∷ es) (codes "write code") e
        | none ↦ wrap_and_run code_dir (write_file path req.code ∷ es)
      ] in
      if is_empty req.files && not (is_empty req.code) then written else wrap_and_run code_dir es

  unfoldable pub write_and_run : Text → Trace → Run
  write_and_run code_dir es =
      let (es1, failure) = write_files a.host code_dir req.files es in
      elim failure [ some e ↦ (es1, err e) | none ↦ write_single code_dir es1 ]

  unfoldable pub stage_and_run : Trace → Run
  stage_and_run es = elim a.temp_dir [
    | err e ↦ failed es (codes "temp dir") e
    | ok code_dir ↦
        finally (remove_dir code_dir) (write_and_run code_dir (make_temp_dir code_dir ∷ es))
  ]

  unfoldable pub run_non_interactive : Trace → Run
  run_non_interactive es =
      let image = language_to_image d req.language in
      let (es1, missing) = ensure_image a.inspect_image a.pull image es in
      finally (cancel []) (elim missing [
        | some e ↦ (
          es1,
          ok (record {
            status = codes "Error";
            stdout = [];
            stderr = codes "Image not found: " ++ image;
            exit_code = pos 1;
            execution_time = 0;
          }),
        )
        | none ↦ stage_and_run es1
      ])
