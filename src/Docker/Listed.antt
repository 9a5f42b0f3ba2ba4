-- ===== src/Docker/Listed.antt =====
-- executor/container.go: which files and folders `ReadFilesFromContainer` gives back.
use modigo_runner.Base.{
  ◌↔◌, ◌⊎◌, any, has_prefix, one_of, true, ◌≡◌, refl, inl, inr, false, arith, ◌||◌, List, [], ◌∷◌,
  Text, codes, is_empty, text_eq, trim_space, trim_prefix, split, All, Bool-cases, Result, ok, err,
  Result-cases,
}
use modigo_runner.Paths.{dot, slash, base, dir, ext}
use modigo_runner.Docker.Stage.{File}
use modigo_runner.Docker.Listing.{
  ExecAnswers, exec_quiet, skip_segment, should_skip_dir, should_skip_file, code_prefix, list_cmd,
  dir_cmd, cat_cmd, newline_sep, read_file, read_line, read_lines, folder_line, folder_lines,
  folders_of, read_files_from_container,
}

-- Names that are neither hidden nor of a build.
abbrev pub IsShownSegment : Text → Type 0
IsShownSegment s =
    (is_empty s ≡ true)
    ⊎ ((text_eq s dot ≡ true)
        ⊎ ((has_prefix s (codes ".") ≡ false)
            × (one_of s (
                  codes "__pycache__"
                  ∷ codes "node_modules"
                  ∷ codes "target"
                  ∷ codes "vendor"
                  ∷ codes "dist"
                  ∷ codes "build"
                  ∷ [])
                ≡ false)))

abbrev pub IsShownFolder : Text → Type 0
IsShownFolder folder = All IsShownSegment (split folder slash)

abbrev pub IsShownName : Text → Type 0
IsShownName name =
    (has_prefix (base name) (codes ".") ≡ false)
    × (one_of (ext (base name)) (
          codes ".o" ∷ codes ".a" ∷ codes ".so" ∷ codes ".pyc" ∷ codes ".pyo" ∷ codes ".class" ∷ [])
        ≡ false)
    × IsShownFolder (dir name)

skip_segment_iff : (s : Text) → (skip_segment s ≡ false) ↔ IsShownSegment s
unfolding skip_segment one_of has_prefix text_eq
skip_segment_iff [] = ground arith
skip_segment_iff (c ∷ s) = ground arith

any_iff : (ss : List Text) → (any skip_segment ss ≡ false) ↔ All IsShownSegment ss
any_iff [] = ((λ h. tt), (λ h. refl))
any_iff (s ∷ ss) =
    let first = skip_segment_iff s in
    let rest = any_iff ss in
    (
      (λ h. (first.0 (ground arith), rest.0 (ground arith))),
      (λ (p, ps). let q = first.1 p in let qs = rest.1 ps in ground arith),
    )

should_skip_dir_iff : (folder : Text) → (should_skip_dir folder ≡ false) ↔ IsShownFolder folder
unfolding should_skip_dir
should_skip_dir_iff folder = any_iff (split folder slash)

should_skip_file_iff : (name : Text) → (should_skip_file name ≡ false) ↔ IsShownName name
unfolding should_skip_file
should_skip_file_iff name =
    let folder = should_skip_dir_iff (dir name) in
    (
      (λ h. (ground arith, ground arith, folder.0 (ground arith))),
      (λ (p, q, r). let s = folder.1 r in ground arith),
    )

module _ (exec : (cmd : List Text) → ExecAnswers) where
  -- A file below /code that is neither hidden nor of a build, with what `cat` printed of it.
  pub record Shown (f : File) : Type 0 where
    pub kept : IsShownName f.name
    pub line : Text
    pub below : f.name ≡ trim_prefix line code_prefix
    pub content : exec_quiet (exec (cat_cmd line)) ≡ ok f.content

  read_file-Shown :
      (line : Text) (rest : List File)
      → should_skip_file (trim_prefix line code_prefix) ≡ false
      → All Shown rest
      → All Shown (read_file exec line (trim_prefix line code_prefix) rest)
  unfolding read_file
  read_file-Shown line rest kept h = elim (Result-cases (exec_quiet (exec (cat_cmd line)))) [
    | inr (x, e) ↦ rw (e, read_file) h
    | inl (content, e) ↦
        rw (e, read_file)
          (
            record {
              kept = (should_skip_file_iff (trim_prefix line code_prefix)).0 kept;
              line = line;
              below = refl;
              content = e;
            },
            h,
          )
  ]

  read_line-Shown :
      (raw : Text) (rest : List File) → All Shown rest → All Shown (read_line exec raw rest)
  unfolding read_line
  read_line-Shown raw rest h = elim (Bool-cases (is_empty (trim_space raw))) [
    | inl e ↦ rw (e, read_line) h
    | inr e ↦ elim (Bool-cases (should_skip_file (trim_prefix (trim_space raw) code_prefix))) [
      | inl s ↦ rw (e, s, read_line) h
      | inr s ↦ rw (e, s, read_line) (read_file-Shown (trim_space raw) rest s h)
    ]
  ]

  read_lines-Shown : (lines : List Text) → All Shown (read_lines exec lines)
  unfolding read_lines
  read_lines-Shown [] = tt
  read_lines-Shown (raw ∷ lines) =
      read_line-Shown raw (read_lines exec lines) (read_lines-Shown lines)

  -- A folder that is neither hidden nor of a build.
  abbrev pub ShownFolder : Text → Type 0
  ShownFolder folder = (is_empty folder ≡ false) × IsShownFolder folder

  folder_line-ShownFolder :
      (raw : Text) (rest : List Text)
      → All ShownFolder rest
      → All ShownFolder (folder_line exec raw rest)
  unfolding folder_line
  folder_line-ShownFolder raw rest h =
      let line = trim_space raw in
      let rel = trim_prefix line code_prefix in
      elim (Bool-cases (is_empty line || text_eq line (codes "/code"))) [
        | inl e ↦ rw (e, folder_line) h
        | inr e ↦ elim (Bool-cases (is_empty rel)) [
          | inl x ↦ rw (e, x, folder_line) h
          | inr x ↦ elim (Bool-cases (should_skip_dir rel)) [
            | inl s ↦ rw (e, x, s, folder_line) h
            | inr s ↦ rw (e, x, s, folder_line) ((x, (should_skip_dir_iff rel).0 s), h)
          ]
        ]
      ]

  folder_lines-ShownFolder : (lines : List Text) → All ShownFolder (folder_lines exec lines)
  unfolding folder_lines
  folder_lines-ShownFolder [] = tt
  folder_lines-ShownFolder (raw ∷ lines) =
      folder_line-ShownFolder raw (folder_lines exec lines) (folder_lines-ShownFolder lines)

  folders_of-ShownFolder : (found : Result Text) → All ShownFolder (folders_of exec found)
  unfolding folders_of
  folders_of-ShownFolder (err e) = tt
  folders_of-ShownFolder (ok output) = elim (Bool-cases (is_empty output)) [
    | inl e ↦ rw (e, folders_of) tt
    | inr e ↦ rw (e, folders_of) (folder_lines-ShownFolder (split (trim_space output) newline_sep))
  ]

  abbrev pub IsListed : File → List File → Type 0
  IsListed f [] = ⊥
  IsListed f (g ∷ fs) = (f ≡ g) ⊎ IsListed f fs

  -- A line of the list for which a file is due has its file.
  abbrev pub IsRead : List File → Text → Type 0
  IsRead fs raw =
      let line = trim_space raw in
      let rel = trim_prefix line code_prefix in
      (content : Text)
      → is_empty line ≡ false
      → IsShownName rel
      → exec_quiet (exec (cat_cmd line)) ≡ ok content
      → IsListed (record { name = rel; content = content }) fs

  read_line-keeps :
      (f : File) (raw : Text) (fs : List File) → IsListed f fs → IsListed f (read_line exec raw fs)
  unfolding read_line read_file
  read_line-keeps f raw fs h =
      let line = trim_space raw in
      let rel = trim_prefix line code_prefix in
      elim (Bool-cases (is_empty line)) [
        | inl e ↦ rw (e, read_line) h
        | inr e ↦ elim (Bool-cases (should_skip_file rel)) [
          | inl s ↦ rw (e, s, read_line) h
          | inr s ↦ elim (Result-cases (exec_quiet (exec (cat_cmd line)))) [
            | inl (content, c) ↦ rw (e, s, c, read_line, read_file) (inr h)
            | inr (x, c) ↦ rw (e, s, c, read_line, read_file) h
          ]
        ]
      ]

  read_line-IsRead : (raw : Text) (fs : List File) → IsRead (read_line exec raw fs) raw
  unfolding read_line read_file
  read_line-IsRead raw fs content e shown c =
      let s = (should_skip_file_iff (trim_prefix (trim_space raw) code_prefix)).1 shown in
      rw (e, s, c, read_line, read_file) (inl refl)

  lines-keep :
      (raw : Text) (fs : List File) (lines : List Text)
      → All (IsRead fs) lines
      → All (IsRead (read_line exec raw fs)) lines
  lines-keep raw fs [] h = tt
  lines-keep raw fs (l ∷ lines) (h, hs) = (
    (λ content e shown c. read_line-keeps _ raw fs (h content e shown c)),
    lines-keep raw fs lines hs,
  )

  read_lines-IsRead : (lines : List Text) → All (IsRead (read_lines exec lines)) lines
  unfolding read_lines
  read_lines-IsRead [] = tt
  read_lines-IsRead (raw ∷ lines) = (
    read_line-IsRead raw (read_lines exec lines),
    lines-keep raw (read_lines exec lines) lines (read_lines-IsRead lines),
  )

  abbrev pub AllShown : Result (List File × List Text) → Type 0
  AllShown (ok (files, folders)) =
      ((output : Text) × (exec_quiet (exec list_cmd) ≡ ok output)
        × All (IsRead files) (split (trim_space output) newline_sep))
      × All Shown files
      × All ShownFolder folders
  AllShown (err e) = (x : Text) × (exec_quiet (exec list_cmd) ≡ err x)

  pub read_files_from_container-AllShown : AllShown (read_files_from_container exec)
  unfolding read_files_from_container
  read_files_from_container-AllShown = elim (Result-cases (exec_quiet (exec list_cmd))) [
    | inr (x, e) ↦ rw (e, read_files_from_container) (x, e)
    | inl (output, e) ↦
        let lines = split (trim_space output) newline_sep in
        rw (e, read_files_from_container)
          (
            (output, e, read_lines-IsRead lines),
            read_lines-Shown lines,
            folders_of-ShownFolder (exec_quiet (exec dir_cmd)),
          )
  ]
