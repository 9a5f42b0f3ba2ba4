-- ===== src/Base/Splitting.antt =====
-- What `strings.Split` at a separator of one byte gives: the parts are free of it and join to the text.
use Prim.Native.Nat.{ℕ}
use mathlib.Core.Path.{◌≡◌, refl, sym, ap, ◌∙◌}
use mathlib.Core.Logic.{◌↔◌, inl, inr}
use mathlib.Core.Bool.{Bool, true, ◌&&◌, not}
use mathlib.Core.List.{List, [], ◌∷◌, ◌++◌}
use native.Mathlib.Omega.{arith}
use modigo_runner.Base.Tests.{◌==◌, ==_iff, Bool-cases}
use modigo_runner.Base.Lists.{All}
use modigo_runner.Base.Texts.{Text, split, split-cons, split-append}

abbrev pub is_free : ℕ → Text → Bool
is_free sep [] = true
is_free sep (c ∷ s) = not (c == sep) && is_free sep s

-- `strings.Join` with a separator of one byte.
abbrev pub join_with : ℕ → List Text → Text
join_with sep [] = []
join_with sep (p ∷ []) = p
join_with sep (p ∷ q ∷ ps) = p ++ sep ∷ join_with sep (q ∷ ps)

pub split_of_free : (s : Text) (sep : ℕ) → is_free sep s ≡ true → split s sep ≡ s ∷ []
unfolding split
split_of_free [] sep h = refl
split_of_free (c ∷ s) sep h = ground (arith, split_of_free s sep)

pub split-free : (s : Text) (sep : ℕ) → All (λ p. is_free sep p ≡ true) (split s sep)
unfolding split
split-free [] sep = (refl, tt)
split-free (c ∷ s) sep =
    let rest = split-free s sep in
    elim (Bool-cases (c == sep)) [
      | inl same ↦ rw same (refl, rest)
      | inr other ↦
          let (p, ps, e) = split-cons s sep in
          let h = rw e at rest in rw (other, e) (rw (other, h.0) refl, h.1)
    ]

join_with-cons :
    (sep c : ℕ) (p : Text) (ps : List Text)
    → join_with sep ((c ∷ p) ∷ ps) ≡ c ∷ join_with sep (p ∷ ps)
join_with-cons sep c p [] = refl
join_with-cons sep c p (q ∷ qs) = refl

pub join_with-split : (s : Text) (sep : ℕ) → join_with sep (split s sep) ≡ s
unfolding split
join_with-split [] sep = refl
join_with-split (c ∷ s) sep =
    let rest = join_with-split s sep in
    let (p, ps, e) = split-cons s sep in
    elim (Bool-cases (c == sep)) [
      | inl same ↦ ground (arith, ==_iff c sep, rest, e, same)
      | inr other ↦ rw (other, e, join_with-cons sep c p ps) (ap (λ x. c ∷ x) (rw e at rest))
    ]

-- A text of three parts with the separator between them.
pub split-three_iff :
    (t : Text) (sep : ℕ) (a b c : Text)
    → (split t sep ≡ a ∷ b ∷ c ∷ []) ↔ (
        (t ≡ a ++ sep ∷ (b ++ sep ∷ c))
        × (is_free sep a ≡ true)
        × (is_free sep b ≡ true)
        × (is_free sep c ≡ true))
split-three_iff t sep a b c = (
  (λ e.
      let free = rw e at (split-free t sep) in
      (sym (rw e at (join_with-split t sep)), free.0, free.1.0, free.1.1.0)),
  (λ (e, fa, fb, fc).
      rw
        (
          e,
          split-append a (b ++ sep ∷ c) sep,
          split-append b c sep,
          split_of_free a sep fa,
          split_of_free b sep fb,
          split_of_free c sep fc,
        )
        refl),
)

-- Parts that are free of the separator and joined by it are split into again.
pub split-join_with :
    (sep : ℕ) (p : Text) (ps : List Text)
    → All (λ q. is_free sep q ≡ true) (p ∷ ps)
    → split (join_with sep (p ∷ ps)) sep ≡ p ∷ ps
split-join_with sep p [] h = split_of_free p sep h.0
split-join_with sep p (q ∷ qs) h =
    split-append p (join_with sep (q ∷ qs)) sep
    ∙ rw (split_of_free p sep h.0) (ap (λ x. p ∷ x) (split-join_with sep q qs h.1))
