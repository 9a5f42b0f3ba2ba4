-- ===== src/Docker/Shell.antt =====
-- executor/container.go: `CreateShell`. The command line, a fixed script in base64, is a parameter.
use modigo_runner.Base.{
  true, false, [], ◌∷◌, ◌++◌, none, some, Text, codes, is_empty, if◌then◌else◌, ok, err,
}
use modigo_runner.Docker.{DockerClient, language_to_image, limits_for_lang}
use modigo_runner.Docker.Calls.{Trace, ContainerConfig, create}
use modigo_runner.Docker.Image.{ensure_image}
use modigo_runner.Docker.Create.{Answers, Creation, fail, host_config, start_container}

unfoldable pub shell_config : Text → Text → ContainerConfig
shell_config image shell_cmd = record {
  image = image;
  tty = true;
  open_stdin = true;
  stdin_once = false;
  working_dir = codes "/code";
  cmd = codes "/bin/sh" ∷ codes "-c" ∷ shell_cmd ∷ [];
  env =
      codes "TERM=xterm-256color"
      ∷ codes "LANG=C.UTF-8"
      ∷ codes "LC_ALL=C.UTF-8"
      ∷ codes "HOME=/code"
      ∷ [];
  labels = (codes "modigo-runner", codes "1") ∷ [];
}

unfoldable pub shell_network : Text → Text
shell_network lab_network_id =
    if is_empty lab_network_id then codes "none" else codes "container:" ++ lab_network_id

module _ (d : DockerClient) (a : Answers) (shell_cmd : Text) where
  unfoldable pub create_shell_container : (lang lab_network_id : Text) → Trace → Creation
  create_shell_container lang lab_network_id es = elim a.create [
    | err e ↦ fail es (codes "container create") e
    | ok id ↦ start_container d a id (
        create id (shell_config (language_to_image d lang) shell_cmd)
          (host_config (limits_for_lang d lang) (shell_network lab_network_id))
        ∷ es)
  ]

  unfoldable pub create_shell : (lang lab_network_id : Text) → Trace → Creation
  create_shell lang lab_network_id es =
      let image = language_to_image d lang in
      let (es1, missing) = ensure_image a.inspect_image a.pull image es in
      elim missing [
        | some e ↦ fail es1 (codes "ensure image " ++ image) e
        | none ↦ create_shell_container lang lab_network_id es1
      ]
