-- ===== src/Docker/Archive.antt =====
-- executor/container.go: `WriteFileToContainer` and `copyFilesToContainer`, which send a tar archive.
-- What the tar writer, the host and the daemon answer is an argument; an archive is its entries.
use modigo_runner.Base.{
  ℕ, suc, ◌%◌, Bool, ◌||◌, List, [], ◌∷◌, ◌++◌, Option, none, some, Text, codes, contains, text_eq,
  trim_prefix, split, Result, ok, err, errorf, ◌==◌, if◌then◌else◌,
}
use modigo_runner.Paths.{dot, slash, dir, join_segments}

-- The permission bits of the owner, the group and the others, each below 8.
pub record Mode : Type 0 where
  pub owner : ℕ
  pub group : ℕ
  pub others : ℕ

pub data TarEntry : Type 0 where
  tar_dir : (name : Text) → Mode → TarEntry
  tar_file : (name : Text) → Mode → (content : Text) → TarEntry

abbrev pub entry_name : TarEntry → Text
entry_name (tar_dir name mode) = name
entry_name (tar_file name mode content) = name

-- `strings.Join(parts[:i+1], "/") + "/"` for each part, behind the parts `before`.
unfoldable pub dir_entries : (before parts : List Text) → List TarEntry
dir_entries before [] = []
dir_entries before (p ∷ ps) =
    let upto = before ++ p ∷ [] in
    tar_dir (join_segments upto ++ slash ∷ []) record { owner = 7; group = 5; others = 5 }
    ∷ dir_entries upto ps

unfoldable pub parent_entries : Text → List TarEntry
parent_entries path = if text_eq (dir path) dot then [] else dir_entries [] (split (dir path) slash)

unfoldable pub archive_of : (path content : Text) → List TarEntry
archive_of path content =
    parent_entries path ++ tar_file path record { owner = 6; group = 4; others = 4 } content ∷ []

-- The errors of the tar writer and of `CopyToContainer`, if there are any.
pub record TarAnswers : Type 0 where
  pub header : Option Text
  pub content : Option Text
  pub close : Option Text
  pub copy : Option Text

-- The archive that is sent, if one is, and the error.
abbrev pub Sent : Type 0
Sent = Option (List TarEntry) × Option Text

unfoldable pub send_archive : TarAnswers → List TarEntry → Sent
send_archive a entries = elim a.header [
  | some e ↦ (none, some (errorf (codes "tar header") e))
  | none ↦ elim a.content [
    | some e ↦ (none, some (errorf (codes "tar write") e))
    | none ↦ elim a.close [ some e ↦ (none, some e) | none ↦ (some entries, a.copy) ]
  ]
]

unfoldable pub write_file_to_container : TarAnswers → (path content : Text) → Sent
write_file_to_container a path content =
    if contains path (codes "..")
    then (none, some (codes "invalid path: " ++ path))
    else send_archive a (archive_of (trim_prefix path (codes "/")) content)

-- One call of the function that `filepath.Walk` is given: an error of the walk or of `Rel`, or a
-- directory, or a file with its relative path, its mode and what opening and copying it gives.
pub data Visit : Type 0 where
  failed : (e : Text) → Visit
  folder : Visit
  file : (rel : Text) → Mode → (content : Result Text) → Visit

abbrev executable : ℕ → Bool
executable bits = bits % 2 == 1

abbrev with_execute : ℕ → ℕ
with_execute bits = if executable bits then bits else suc bits

-- `mode & 0111 != 0` makes it `mode | 0111`.
unfoldable pub staged_mode : Mode → Mode
staged_mode m =
    if executable m.owner || executable m.group || executable m.others
    then record {
      owner = with_execute m.owner;
      group = with_execute m.group;
      others = with_execute m.others;
    }
    else m

unfoldable pub after_entry : TarEntry → Result (List TarEntry) → Result (List TarEntry)
after_entry entry (ok entries) = ok (entry ∷ entries)
after_entry entry (err e) = err e

unfoldable pub staged_entries : List Visit → Result (List TarEntry)
staged_entries [] = ok []
staged_entries (failed e ∷ vs) = err e
staged_entries (folder ∷ vs) = staged_entries vs
staged_entries (file rel mode (err e) ∷ vs) = err e
staged_entries (file rel mode (ok content) ∷ vs) =
    let rest = staged_entries vs in after_entry (tar_file rel (staged_mode mode) content) rest

pub record CopyAnswers : Type 0 where
  pub close : Option Text
  pub request : Option Text
  pub response : Result ℕ

-- `status` prints a status code.
unfoldable pub copy_files_to_container : (status : ℕ → Text) → CopyAnswers → List Visit → Sent
copy_files_to_container status a walk = elim (staged_entries walk) [
  | err e ↦ (none, some (errorf (codes "tar staging dir") e))
  | ok entries ↦ elim a.close [
    | some e ↦ (none, some (errorf (codes "close tar writer") e))
    | none ↦ elim a.request [
      | some e ↦ (none, some (errorf (codes "build cp request") e))
      | none ↦ elim a.response [
        | err e ↦ (none, some (errorf (codes "cp to container") e))
        | ok code ↦ (
          some entries,
          (if code == 200
              then none
              else some (codes "cp to container: server returned " ++ status code)),
        )
      ]
    ]
  ]
]
