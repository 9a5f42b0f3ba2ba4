-- ===== src/Docker/Stage.antt =====
-- executor/container.go: the code that is staged in a host directory, for `CreateInteractive`.
use modigo_runner.Base.{
  Bool, not, ◌&&◌, ◌||◌, List, [], ◌∷◌, ◌++◌, Option, none, some, Text, codes, text_eq, one_of,
  is_empty, is_some, any, contains, has_prefix, has_suffix, take, length, ◌-◌, to_lower,
  if◌then◌else◌, Result, ok, err,
}
use modigo_runner.Paths.{clean, join, dir}
use modigo_runner.Docker.{is_compiled, switch}
use modigo_runner.Docker.Calls.{Trace, make_dirs, write_file}

-- `protocol.File`
pub record File : Type 0 where
  pub name : Text
  pub content : Text

-- What the host answers: the error of a write and of making directories, by path, and whether
-- `os.Stat` says that a path does not exist, before `go.mod` is created and in the wrapper.
pub record HostFiles : Type 0 where
  pub write : Text → Option Text
  pub make_dirs : Text → Option Text
  pub missing : Text → Bool
  pub missing_in_wrapper : Text → Bool

-- The name is empty or has "..", or the path leaves the code directory.
unfoldable pub is_unsafe_name : Text → Bool
is_unsafe_name name = is_empty name || contains name (codes "..")

unfoldable pub leaves_dir : Text → Text → Bool
leaves_dir code_dir file_path = not (has_prefix (clean file_path) (clean code_dir))

-- One round of the loop over the additional files; a failed write is only logged.
unfoldable pub write_extra : HostFiles → (code_dir code_path : Text) → File → Trace → Trace
write_extra h code_dir code_path f es =
    let file_path = join code_dir f.name in
    if is_unsafe_name f.name || leaves_dir code_dir file_path || text_eq file_path code_path
    then es
    else if is_some (h.make_dirs (dir file_path))
    then make_dirs (dir file_path) ∷ es
    else write_file file_path f.content ∷ make_dirs (dir file_path) ∷ es

unfoldable pub write_extras : HostFiles → (code_dir code_path : Text) → List File → Trace → Trace
write_extras h code_dir code_path [] es = es
write_extras h code_dir code_path (f ∷ fs) es =
    write_extras h code_dir code_path fs (write_extra h code_dir code_path f es)

unfoldable pub has_go_mod : List File → Bool
has_go_mod = any (λ f. text_eq f.name (codes "go.mod"))

-- "Auto-create go.mod for Go projects that don't have one."
unfoldable pub write_go_mod : HostFiles → (lang code_dir : Text) → List File → Trace → Trace
write_go_mod h lang code_dir fs es =
    let path = join code_dir (codes "go.mod") in
    if (is_compiled lang && one_of lang (codes "go" ∷ codes "golang" ∷ []))
      && not (has_go_mod fs)
      && h.missing path
    then write_file path (codes "module modigo\n\ngo 1.22\n") ∷ es
    else es

-- `strings.TrimSuffix(mainFile, ".java")`
unfoldable pub class_name : Text → Text
class_name main_file =
    if has_suffix main_file (codes ".java")
    then take (length main_file - 5) main_file
    else main_file

unfoldable pub gcc_script : Text → Text
gcc_script compiler =
    codes "#!/bin/sh\n" ++ compiler ++ codes " && chmod +x /tmp/a.out && /tmp/a.out\n"

-- The script for a compiled language, if there is one.
unfoldable pub compile_script : (lang main_file : Text) → Option Text
compile_script lang main_file =
    switch (to_lower lang)
      ((codes "c" ∷ [], some (gcc_script (codes "gcc -o /tmp/a.out /code/*.c")))
        ∷ (
          codes "cpp" ∷ codes "c++" ∷ [],
          some (gcc_script (codes "g++ -o /tmp/a.out /code/*.cpp -std=c++17")),
        )
        ∷ (codes "go" ∷ codes "golang" ∷ [], some (codes "#!/bin/sh\ncd /code && go run .\n"))
        ∷ (
          codes "java" ∷ [],
          some (
              codes "#!/bin/sh\ncd /code && javac *.java && java "
              ++ class_name main_file
              ++ codes "\n"),
        )
        ∷ (
          codes "rust" ∷ codes "rs" ∷ [],
          some (
              codes "#!/bin/sh\ncd /code && rustc "
              ++ main_file
              ++ codes " -o /tmp/main && /tmp/main\n"),
        )
        ∷ [])
      none

unfoldable pub write_default_go_mod : HostFiles → (lang code_dir : Text) → Trace → Trace
write_default_go_mod h lang code_dir es =
    let path = join code_dir (codes "go.mod") in
    if one_of (to_lower lang) (codes "go" ∷ codes "golang" ∷ []) && h.missing_in_wrapper path
    then write_file path (codes "module main\n\ngo 1.22\n") ∷ es
    else es

-- `createCompileWrapper`: the path of the script.
unfoldable pub create_compile_wrapper :
    HostFiles → (code_dir lang main_file : Text) → Trace → Trace × Result Text
create_compile_wrapper h code_dir lang main_file es = elim (compile_script lang main_file) [
  | none ↦ (es, err (codes "unsupported compiled language: " ++ lang))
  | some script ↦
      let path = join code_dir (codes "run.sh") in
      let es1 = write_file path script ∷ write_default_go_mod h lang code_dir es in
      elim (h.write path) [ none ↦ (es1, ok path) | some e ↦ (es1, err e) ]
]
