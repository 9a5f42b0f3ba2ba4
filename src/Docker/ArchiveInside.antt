-- ===== src/Docker/ArchiveInside.antt =====
-- executor/container.go: where the entries of the archive of `WriteFileToContainer` lie.
use mathlib.Core.List.{reverse, reverse-append}
use modigo_runner.Base.{
  ◌≡◌, ◌≢◌, refl, sym, ap, subst, ◌∙◌, Bool, true, false, ◌||◌, List, [], ◌∷◌, ◌++◌, Option, some,
  Text, arith, is_empty, is_free, text_eq, text_eq-false, contains, has_prefix, trim_prefix, split,
  split-append, split-free, split-ne, split-join_with, join_with, All, All-append, Bool-cases, inl,
  inr, ◌==◌,
}
use modigo_runner.Paths.{
  dot, dot_dot, slash, dir, clean, clean_stack, render, resolve, resolve_all, join_segments,
  through_last_slash, is_rooted,
}
use modigo_runner.Docker.Archive.{
  TarEntry, TarAnswers, entry_name, dir_entries, parent_entries, archive_of, send_archive,
  write_file_to_container,
}

-- No segment of the path leads upwards.
abbrev pub Inside : Text → Type 0
Inside name = All (λ s. s ≢ dot_dot) (split name slash)

dot-not_dot_dot : dot ≢ dot_dot
dot-not_dot_dot e = cc

dot_dot-not_empty : [] ≢ dot_dot
dot_dot-not_empty e = cc

-- A segment that leads nowhere else.
abbrev Plain : Text → Type 0
Plain s = (s ≢ dot_dot) × (is_free slash s ≡ true)

pub join_segments-join_with : (ps : List Text) → join_segments ps ≡ join_with slash ps
unfolding join_segments
join_segments-join_with [] = refl
join_segments-join_with (p ∷ []) = refl
join_segments-join_with (p ∷ q ∷ qs) = ap (λ x. p ++ slash ∷ x) (join_segments-join_with (q ∷ qs))

Plain-free : (ps : List Text) → All Plain ps → All (λ p. is_free slash p ≡ true) ps
Plain-free [] h = tt
Plain-free (p ∷ ps) (h, hs) = (h.1, Plain-free ps hs)

Plain-ne : (ps : List Text) → All Plain ps → All (λ s. s ≢ dot_dot) ps
Plain-ne [] h = tt
Plain-ne (p ∷ ps) (h, hs) = (h.0, Plain-ne ps hs)

Plain-both :
    (ps : List Text)
    → All (λ s. s ≢ dot_dot) ps
    → All (λ p. is_free slash p ≡ true) ps
    → All Plain ps
Plain-both [] h k = tt
Plain-both (p ∷ ps) (h, hs) (k, ks) = ((h, k), Plain-both ps hs ks)

split-join_segments :
    (p : Text) (ps : List Text) → All Plain (p ∷ ps) → split (join_segments (p ∷ ps)) slash ≡ p ∷ ps
split-join_segments p ps h =
    rw (join_segments-join_with (p ∷ ps)) (split-join_with slash p ps (Plain-free (p ∷ ps) h))

resolve_all-Plain :
    (rooted : Bool) (stack segs : List Text)
    → All Plain segs
    → All Plain stack
    → All Plain (resolve_all rooted stack segs)
unfolding resolve_all resolve
resolve_all-Plain rooted stack [] h k = k
resolve_all-Plain rooted stack (s ∷ segs) (hs, h) k =
    elim (Bool-cases (is_empty s || text_eq s dot)) [
      | inl skipped ↦ rw (skipped, resolve_all, resolve) (resolve_all-Plain rooted stack segs h k)
      | inr pushed ↦
          rw (pushed, resolve_all, resolve, text_eq-false s dot_dot hs.0)
            (resolve_all-Plain rooted (s ∷ stack) segs h (hs, k))
    ]

All-reverse {ℓ κ} : {A : Type ℓ} (P : A → Type κ) (xs : List A) → All P xs → All P (reverse xs)
All-reverse P [] h = tt
All-reverse P (x ∷ xs) (h, hs) =
    subst (All P) (sym (reverse-append (x ∷ []) xs))
      (All-append P (reverse xs) (x ∷ []) (All-reverse P xs hs) (h, tt))

clean_stack-Plain : (path : Text) → Inside path → All Plain (clean_stack path)
unfolding clean_stack
clean_stack-Plain path h =
    resolve_all-Plain (is_rooted path) [] (split path slash)
      (Plain-both (split path slash) h (split-free path slash)) tt

split-segments-Inside : (ps : List Text) → All Plain ps → Inside (join_segments ps)
unfolding join_segments split
split-segments-Inside [] h = ((λ e. dot_dot-not_empty e), tt)
split-segments-Inside (p ∷ ps) h =
    subst (All (λ s. s ≢ dot_dot)) (sym (split-join_segments p ps h)) (Plain-ne (p ∷ ps) h)

render-Inside : (rooted : Bool) (stack : List Text) → All Plain stack → Inside (render rooted stack)
unfolding render split
render-Inside true stack h =
    ((λ e. dot_dot-not_empty e), split-segments-Inside (reverse stack) (All-reverse Plain stack h))
render-Inside false [] h = ((λ e. dot-not_dot_dot e), tt)
render-Inside false (s ∷ ss) h =
    split-segments-Inside (reverse (s ∷ ss)) (All-reverse Plain (s ∷ ss) h)

has_prefix-append : (s t sub : Text) → has_prefix s sub ≡ true → has_prefix (s ++ t) sub ≡ true
unfolding has_prefix
has_prefix-append s t [] h = refl
has_prefix-append [] t (d ∷ sub) h = cc
has_prefix-append (c ∷ s) t (d ∷ sub) h = ground (arith, has_prefix-append s t sub)

contains-append : (s t sub : Text) → contains (s ++ t) sub ≡ false → contains s sub ≡ false
unfolding contains
contains-append [] [] sub h = h
contains-append [] (c ∷ t) sub h = ground (arith, has_prefix-append [] (c ∷ t) sub)
contains-append (c ∷ s) t sub h =
    ground (arith, has_prefix-append (c ∷ s) t sub, contains-append s t sub)

-- What `through_last_slash` leaves out is the end of the text.
through_last_slash-rest : (s : Text) → (t : Text) × (s ≡ through_last_slash s ++ t)
unfolding through_last_slash
through_last_slash-rest [] = ([], refl)
through_last_slash-rest (c ∷ s) =
    let (t, e) = through_last_slash-rest s in
    elim (Bool-cases (is_empty (through_last_slash s))) [
      | inr q ↦ (t, rw (q, through_last_slash) (ap (λ x. c ∷ x) e))
      | inl q ↦ elim (Bool-cases (c == slash)) [
        | inl x ↦ (s, rw (q, x, through_last_slash) refl)
        | inr x ↦ (c ∷ s, rw (q, x, through_last_slash) refl)
      ]
    ]

dir-Inside : (path : Text) → contains path dot_dot ≡ false → Inside (dir path)
unfolding dir clean
dir-Inside path h =
    let (t, e) = through_last_slash-rest path in
    let short : contains (through_last_slash path) dot_dot ≡ false =
      contains-append (through_last_slash path) t dot_dot
        (sym (ap (λ x. contains x dot_dot) e) ∙ h) in
    render-Inside (is_rooted (through_last_slash path)) (clean_stack (through_last_slash path)) (
      clean_stack-Plain (through_last_slash path)
        (split-ne dot_dot (through_last_slash path) slash short))

abbrev pub AllInside : List TarEntry → Type 0
AllInside entries = All (λ entry. Inside (entry_name entry)) entries

join-slash-Inside : (ps : List Text) → All Plain ps → Inside (join_segments ps ++ slash ∷ [])
unfolding split
join-slash-Inside ps h =
    subst (All (λ s. s ≢ dot_dot)) (sym (split-append (join_segments ps) [] slash)) (
      All-append (λ s. s ≢ dot_dot) (split (join_segments ps) slash) ([] ∷ [])
        (split-segments-Inside ps h) ((λ e. dot_dot-not_empty e), tt))

dir_entries-Inside :
    (before parts : List Text)
    → All Plain before
    → All Plain parts
    → AllInside (dir_entries before parts)
unfolding dir_entries
dir_entries-Inside before [] k h = tt
dir_entries-Inside before (p ∷ ps) k (hp, h) =
    let upto = All-append Plain before (p ∷ []) k (hp, tt) in
    (join-slash-Inside (before ++ p ∷ []) upto, dir_entries-Inside (before ++ p ∷ []) ps upto h)

parent_entries-Inside :
    (path : Text) → contains path dot_dot ≡ false → AllInside (parent_entries path)
unfolding parent_entries
parent_entries-Inside path h = elim (Bool-cases (text_eq (dir path) dot)) [
  | inl e ↦ rw (e, parent_entries) tt
  | inr e ↦
      rw (e, parent_entries)
        (dir_entries-Inside [] (split (dir path) slash) tt
          (Plain-both (split (dir path) slash) (dir-Inside path h) (split-free (dir path) slash)))
]

archive_of-Inside :
    (path content : Text) → contains path dot_dot ≡ false → AllInside (archive_of path content)
unfolding archive_of
archive_of-Inside path content h =
    All-append (λ entry. Inside (entry_name entry)) (parent_entries path) _
      (parent_entries-Inside path h) (split-ne dot_dot path slash h, tt)

send_archive-some :
    (a : TarAnswers) (entries sent : List TarEntry) (e : Option Text)
    → send_archive a entries ≡ (some sent, e)
    → sent ≡ entries
unfolding send_archive
send_archive-some a entries sent e h = ground arith

contains-trim :
    (path : Text)
    → contains path dot_dot ≡ false
    → contains (trim_prefix path (slash ∷ [])) dot_dot ≡ false
unfolding trim_prefix contains has_prefix
contains-trim [] h = h
contains-trim (c ∷ path) h = ground arith

-- Whatever the path: if an archive is sent, no segment of the name of any of its entries, the parents
-- and the file, is "..".
pub write_file_to_container-Inside :
    (a : TarAnswers) (path content : Text) (entries : List TarEntry) (e : Option Text)
    → write_file_to_container a path content ≡ (some entries, e)
    → AllInside entries
unfolding write_file_to_container
write_file_to_container-Inside a path content entries e h =
    elim (Bool-cases (contains path dot_dot)) [
      | inl x ↦ cc (rw (x, write_file_to_container) at h)
      | inr x ↦
          let sent = send_archive-some a _ entries e (rw (x, write_file_to_container) at h) in
          subst AllInside (sym sent)
            (archive_of-Inside (trim_prefix path (slash ∷ [])) content (contains-trim path x))
    ]
