-- ===== src/Docker/Listing.antt =====
-- executor/container.go: `ReadFilesFromContainer`, with `execQuiet` and the filters of what it finds.
-- What the daemon answers to a command is an argument.
use modigo_runner.Base.{
  ℕ, Bool, true, false, ◌||◌, List, [], ◌∷◌, ◌++◌, Option, none, some, Text, codes, text_eq,
  is_empty, has_prefix, trim_prefix, trim_space, split, one_of, any, Result, ok, err, errorf,
  if◌then◌else◌,
}
use modigo_runner.Paths.{dot, slash, base, dir, ext}
use modigo_runner.Docker.Stage.{File}

pub record ExecAnswers : Type 0 where
  pub create : Option Text
  pub attach : Option Text
  pub output : Result Text

unfoldable pub exec_quiet : ExecAnswers → Result Text
exec_quiet a = elim a.create [
  | some e ↦ err e
  | none ↦ elim a.attach [ some e ↦ err e | none ↦ a.output ]
]

unfoldable pub skip_segment : Text → Bool
skip_segment segment =
    if is_empty segment || text_eq segment dot
    then false
    else has_prefix segment (codes ".")
      || one_of segment (
          codes "__pycache__"
          ∷ codes "node_modules"
          ∷ codes "target"
          ∷ codes "vendor"
          ∷ codes "dist"
          ∷ codes "build"
          ∷ codes ".git"
          ∷ [])

unfoldable pub should_skip_dir : Text → Bool
should_skip_dir rel_path = any skip_segment (split rel_path slash)

unfoldable pub should_skip_file : Text → Bool
should_skip_file rel_path =
    let name = base rel_path in
    if has_prefix name (codes ".")
    then true
    else if one_of (ext name)
        (codes ".o" ∷ codes ".a" ∷ codes ".so" ∷ codes ".pyc" ∷ codes ".pyo" ∷ codes ".class" ∷ [])
    then true
    else should_skip_dir (dir rel_path)

abbrev pub newline_sep : ℕ
newline_sep = 10

abbrev pub code_prefix : Text
code_prefix = codes "/code/"

abbrev pub shell : Text → List Text
shell script = codes "/bin/sh" ∷ codes "-c" ∷ script ∷ []

abbrev pub list_cmd : List Text
list_cmd = shell (
    codes
      "find /code -type f \\\n\t\t! -name '.*' \\\n\t\t! -name '*.o' \\\n\t\t! -name '*.pyc' \\\n\t\t! -path '*/__pycache__/*' \\\n\t\t! -path '*/node_modules/*' \\\n\t\t! -path '*/target/*' \\\n\t\t! -path '*/.git/*' \\\n\t\t| sort")

abbrev pub dir_cmd : List Text
dir_cmd = shell (
    codes
      "find /code -mindepth 1 -type d \\\n\t\t! -name '.*' \\\n\t\t! -path '*/__pycache__' \\\n\t\t! -path '*/node_modules' \\\n\t\t! -path '*/node_modules/*' \\\n\t\t! -path '*/target' \\\n\t\t! -path '*/target/*' \\\n\t\t! -path '*/.git' \\\n\t\t! -path '*/.git/*' \\\n\t\t| sort")

-- The text behind `cat` is the line as it is, not quoted.
abbrev pub cat_cmd : Text → List Text
cat_cmd line = shell (codes "cat " ++ line)

module _ (exec : (cmd : List Text) → ExecAnswers) where
  -- A file that cannot be read is only logged.
  unfoldable pub read_file : (line rel : Text) → List File → List File
  read_file line rel rest = elim (exec_quiet (exec (cat_cmd line))) [
    | err e ↦ rest
    | ok content ↦ record { name = rel; content = content } ∷ rest
  ]

  unfoldable pub read_line : (raw : Text) → List File → List File
  read_line raw rest =
      let line = trim_space raw in
      let rel = trim_prefix line code_prefix in
      if is_empty line then rest else if should_skip_file rel then rest else read_file line rel rest

  unfoldable pub read_lines : List Text → List File
  read_lines [] = []
  read_lines (raw ∷ lines) = let rest = read_lines lines in read_line raw rest

  unfoldable pub folder_line : (raw : Text) → List Text → List Text
  folder_line raw rest =
      let line = trim_space raw in
      let rel = trim_prefix line code_prefix in
      if is_empty line || text_eq line (codes "/code")
      then rest
      else if is_empty rel || should_skip_dir rel
      then rest
      else rel ∷ rest

  unfoldable pub folder_lines : List Text → List Text
  folder_lines [] = []
  folder_lines (raw ∷ lines) = let rest = folder_lines lines in folder_line raw rest

  -- "Non-fatal — just skip directory sync"
  unfoldable pub folders_of : Result Text → List Text
  folders_of (err e) = []
  folders_of (ok output) =
      if is_empty output then [] else folder_lines (split (trim_space output) newline_sep)

  unfoldable pub read_files_from_container : Result (List File × List Text)
  read_files_from_container = elim (exec_quiet (exec list_cmd)) [
    | err e ↦ err (errorf (codes "list files") e)
    | ok output ↦
        ok (
          read_lines (split (trim_space output) newline_sep),
          folders_of (exec_quiet (exec dir_cmd)),
        )
  ]
