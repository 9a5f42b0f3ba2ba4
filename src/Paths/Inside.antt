-- ===== src/Paths/Inside.antt =====
-- `filepath.Join` of a directory and a name in which ".." does not occur stays inside the directory.

use modigo_runner.Base.{
  ℕ, ◌≡◌, refl, ◌≢◌, ap, Bool, false, ◌||◌, List, [], ◌∷◌, ◌++◌, Text, text_eq, text_eq-false,
  split-append, split-ne, is_empty, split, contains, All, Bool-cases, inl, inr,
}
use modigo_runner.Paths.{
  dot, dot_dot, slash, resolve, resolve_all, clean_stack, join, clean, render, is_rooted,
}

-- `stack` is `below` with segments on top of it, none of which is "..".
abbrev pub Extends : List Text → List Text → Type 0
Extends stack below = (top : List Text) × (stack ≡ top ++ below) × All (λ s. s ≢ dot_dot) top

resolve-Extends :
    (rooted : Bool) (below stack : List Text) (s : Text)
    → s ≢ dot_dot
    → Extends stack below
    → Extends (resolve rooted stack s) below
unfolding resolve
resolve-Extends rooted below stack s hs (top, e, ht) =
    elim (Bool-cases (is_empty s || text_eq s dot)) [
      | inl skipped ↦ rw skipped (top, e, ht)
      | inr pushed ↦ rw (pushed, text_eq-false s dot_dot hs) (s ∷ top, ap (λ t. s ∷ t) e, (hs, ht))
    ]

resolve_all-Extends :
    (rooted : Bool) (below stack segs : List Text)
    → All (λ s. s ≢ dot_dot) segs
    → Extends stack below
    → Extends (resolve_all rooted stack segs) below
unfolding resolve_all resolve
resolve_all-Extends rooted below stack [] h x = x
resolve_all-Extends rooted below stack (s ∷ segs) (hs, h) (top, e, ht) =
    resolve_all-Extends rooted below (resolve rooted stack s) segs h
      (resolve-Extends rooted below stack s hs (top, e, ht))

resolve_all-append :
    (rooted : Bool) (stack ss ts : List Text)
    → resolve_all rooted stack (ss ++ ts) ≡ resolve_all rooted (resolve_all rooted stack ss) ts
unfolding resolve_all
resolve_all-append rooted stack [] ts = refl
resolve_all-append rooted stack (s ∷ ss) ts =
    resolve_all-append rooted (resolve rooted stack s) ss ts

-- Whatever directory and name are joined, if ".." does not occur in the name, the path is that of the
-- directory with segments added, none of which is "..".
pub join-Extends :
    (d : ℕ) (folder : Text) (e : ℕ) (name : Text)
    → contains (e ∷ name) dot_dot ≡ false
    → (join (d ∷ folder) (e ∷ name)
        ≡ render (is_rooted (d ∷ folder)) (clean_stack ((d ∷ folder) ++ slash ∷ e ∷ name)))
      × Extends (clean_stack ((d ∷ folder) ++ slash ∷ e ∷ name)) (clean_stack (d ∷ folder))
unfolding join clean clean_stack
join-Extends d folder e name h = (
  refl,
  rw
      (
        split-append (d ∷ folder) (e ∷ name) slash,
        resolve_all-append (is_rooted (d ∷ folder)) [] (split (d ∷ folder) slash)
            (split (e ∷ name) slash),
      )
      (resolve_all-Extends (is_rooted (d ∷ folder)) _ _ (split (e ∷ name) slash)
        (split-ne dot_dot (e ∷ name) slash h) ([], refl, tt)),
)
