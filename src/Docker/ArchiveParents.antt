-- ===== src/Docker/ArchiveParents.antt =====
-- executor/container.go: the folders that `WriteFileToContainer` puts before the file in its archive.
use modigo_runner.Base.{
  ◌≡◌, refl, ap, subst, sym, ◌∙◌, false, List, [], ◌∷◌, ◌++◌, Text, arith, text_eq, text_eq_iff,
  split, split-cons, length, join_with-split, All, Bool-cases, inl, inr,
}
use modigo_runner.Paths.{dot, slash, dir, join_segments}
use modigo_runner.Docker.Archive.{Mode, TarEntry, tar_file, tar_dir, dir_entries, parent_entries}
use modigo_runner.Docker.ArchiveInside.{join_segments-join_with}

abbrev pub folder_mode : Mode
folder_mode = record { owner = 7; group = 5; others = 5 }

-- A folder that all may enter and only its owner may change.
abbrev pub IsFolder : TarEntry → Type 0
IsFolder (tar_dir name mode) = mode ≡ folder_mode
IsFolder (tar_file name mode content) = ⊥

-- The entries before a file: none for a file at the top, and otherwise as many folders as its directory
-- has segments, the last of which is the directory.
pub record AreParents (file : Text) (parents : List TarEntry) : Type 0 where
  pub folders : All IsFolder parents
  pub top : dir file ≡ dot → parents ≡ []
  pub count : text_eq (dir file) dot ≡ false → length parents ≡ length (split (dir file) slash)
  pub directory :
      text_eq (dir file) dot ≡ false
      → (before : List TarEntry) × (parents
          ≡ before ++ tar_dir (dir file ++ slash ∷ []) folder_mode ∷ [])

snoc-append :
    (before : List Text) (p : Text) (ps : List Text) → (before ++ p ∷ []) ++ ps ≡ before ++ p ∷ ps
snoc-append [] p ps = refl
snoc-append (b ∷ before) p ps = ap (λ xs. b ∷ xs) (snoc-append before p ps)

dir_entries-last :
    (before : List Text) (p : Text) (ps : List Text)
    → (firsts : List TarEntry) × (dir_entries before (p ∷ ps)
        ≡ firsts ++ tar_dir (join_segments (before ++ p ∷ ps) ++ slash ∷ []) folder_mode ∷ [])
unfolding dir_entries
dir_entries-last before p [] = ([], refl)
dir_entries-last before p (q ∷ qs) =
    let upto = before ++ p ∷ [] in
    let (firsts, e) = dir_entries-last upto q qs in
    let entry = tar_dir (join_segments upto ++ slash ∷ []) folder_mode in
    (
      entry ∷ firsts,
      ap (λ es. entry ∷ es) e
          ∙ ap
              (λ segs.
                entry ∷ firsts ++ tar_dir (join_segments segs ++ slash ∷ []) folder_mode ∷ [])
              (snoc-append before p (q ∷ qs)),
    )

dir_entries-length : (before parts : List Text) → length (dir_entries before parts) ≡ length parts
unfolding dir_entries
dir_entries-length before [] = refl
dir_entries-length before (p ∷ ps) = ground (arith, dir_entries-length (before ++ p ∷ []) ps)

dir_entries-IsFolder : (before parts : List Text) → All IsFolder (dir_entries before parts)
unfolding dir_entries
dir_entries-IsFolder before [] = tt
dir_entries-IsFolder before (p ∷ ps) = (refl, dir_entries-IsFolder (before ++ p ∷ []) ps)

join_segments-split : (d : Text) → join_segments (split d slash) ≡ d
join_segments-split d = join_segments-join_with (split d slash) ∙ join_with-split d slash

split-directory :
    (d : Text)
    → (before : List TarEntry) × (dir_entries [] (split d slash)
        ≡ before ++ tar_dir (d ++ slash ∷ []) folder_mode ∷ [])
split-directory d =
    let (p, ps, e) = split-cons d slash in
    let (before, last) = dir_entries-last [] p ps in
    let joined : join_segments (p ∷ ps) ≡ d = ap join_segments (sym e) ∙ join_segments-split d in
    (
      before,
      ap (dir_entries []) e
          ∙ last
          ∙ ap (λ x. before ++ tar_dir (x ++ slash ∷ []) folder_mode ∷ []) joined,
    )

pub parent_entries-AreParents : (file : Text) → AreParents file (parent_entries file)
unfolding parent_entries
parent_entries-AreParents file = elim (Bool-cases (text_eq (dir file) dot)) [
  | inl e ↦
      rw (e, parent_entries)
        (record {
          folders = tt;
          top = λ h. refl;
          count = λ h. absurd (ground arith);
          directory = λ h. absurd (ground arith);
        })
  | inr e ↦
      let entries = dir_entries [] (split (dir file) slash) in
      let same : parent_entries file ≡ entries = rw (e, parent_entries) refl in
      record {
        folders =
            subst (All IsFolder) (sym same) (dir_entries-IsFolder [] (split (dir file) slash));
        top = λ h. absurd (ground (arith, text_eq_iff (dir file) dot));
        count = λ h. ap length same ∙ dir_entries-length [] (split (dir file) slash);
        directory = λ h. let (before, last) = split-directory (dir file) in (before, same ∙ last);
      }
]
