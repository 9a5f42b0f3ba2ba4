-- ===== src/Base/Texts.antt =====
-- Go strings as lists of bytes, with what the program uses of the package `strings`. Case and
-- white space are those of ASCII.
use Prim.Native.Nat.{ℕ, ◌+◌}
use Prim.Native.Char.{code}
use Prim.Native.String.{String}
use mathlib.Core.Path.{◌≡◌, refl, sym, ap, ◌∙◌}
use mathlib.Core.Logic.{inl, inr, ◌↔◌, ◌≢◌}
use mathlib.Core.Bool.{Bool, true, false, ◌&&◌, ◌||◌}
use mathlib.Core.List.{List, [], ◌∷◌, ◌++◌, map, reverse, reverse-append, reverse-reverse}
use native.Mathlib.Omega.{arith}
use modigo_runner.Base.Tests.{leb, ◌==◌, if◌then◌else◌, Bool-cases}
use modigo_runner.Base.Lists.{All, length, drop, any}

abbrev pub Text : Type 0
Text = List ℕ

abbrev pub codes : String → Text
codes String.[] = []
codes (String.◌∷◌ c s) = code c ∷ codes s

lower_byte : ℕ → ℕ
lower_byte c = if leb b'A' c && leb c b'Z' then c + 32 else c

unfoldable pub to_lower : Text → Text
unfolding lower_byte
to_lower s = map lower_byte s

abbrev pub is_space : ℕ → Bool
is_space c = (leb 9 c && leb c 13) || c == 32

trim_left : Text → Text
trim_left [] = []
trim_left (c ∷ s) = if is_space c then trim_left s else c ∷ s

unfoldable pub trim_space : Text → Text
unfolding trim_left
trim_space s = reverse (trim_left (reverse (trim_left s)))

unfoldable pub has_prefix : Text → Text → Bool
has_prefix s [] = true
has_prefix [] (p ∷ ps) = false
has_prefix (c ∷ s) (p ∷ ps) = c == p && has_prefix s ps

unfoldable pub has_suffix : Text → Text → Bool
unfolding has_prefix
has_suffix s p = has_prefix (reverse s) (reverse p)

unfoldable pub trim_prefix : Text → Text → Text
unfolding has_prefix
trim_prefix s p = if has_prefix s p then drop (length p) s else s

unfoldable pub contains : Text → Text → Bool
unfolding has_prefix
contains [] sub = has_prefix [] sub
contains (c ∷ s) sub = has_prefix (c ∷ s) sub || contains s sub

onto_first : ℕ → List Text → List Text
onto_first c [] = (c ∷ []) ∷ []
onto_first c (p ∷ ps) = (c ∷ p) ∷ ps

-- `strings.Split` at a separator of one byte.
unfoldable pub split : Text → ℕ → List Text
unfolding onto_first
split [] sep = [] ∷ []
split (c ∷ s) sep = let rest = split s sep in if c == sep then [] ∷ rest else onto_first c rest

unfoldable pub text_eq : Text → Text → Bool
text_eq [] [] = true
text_eq (c ∷ s) (d ∷ t) = c == d && text_eq s t
text_eq _ _ = false

-- `case a, b, c:` of a switch over text.
unfoldable pub one_of : Text → List Text → Bool
unfolding text_eq
one_of s ts = any (text_eq s) ts

pub text_eq_iff : (s t : Text) → (text_eq s t ≡ true) ↔ (s ≡ t)
unfolding text_eq
text_eq_iff [] [] = (λ _. refl, λ _. refl)
text_eq_iff [] (d ∷ t) = ground arith
text_eq_iff (c ∷ s) [] = ground arith
text_eq_iff (c ∷ s) (d ∷ t) = ground (arith, text_eq_iff s t)

pub text_eq_refl : (s : Text) → text_eq s s ≡ true
text_eq_refl s = (text_eq_iff s s).1 refl

pub text_eq-false : (s t : Text) → s ≢ t → text_eq s t ≡ false
text_eq-false s t h = ground (arith, text_eq_iff s t)

-- `TrimSpace` leaves a text alone that begins and ends with other bytes than white space.
pub trim_space_ends :
    (b : ℕ) (s : Text) (e : ℕ)
    → is_space b ≡ false
    → is_space e ≡ false
    → trim_space (b ∷ s ++ e ∷ []) ≡ b ∷ s ++ e ∷ []
unfolding trim_space
trim_space_ends b s e hb he =
    let q : reverse (b ∷ s ++ e ∷ []) ≡ e ∷ reverse (b ∷ s) = reverse-append (b ∷ s) (e ∷ []) in
    ap (λ x. reverse (trim_left (reverse x))) {x = trim_left (b ∷ s ++ e ∷ [])}
      {y = b ∷ s ++ e ∷ []} (rw hb)
    ∙ ap (λ x. reverse (trim_left x)) q
    ∙ ap reverse {x = trim_left (e ∷ reverse (b ∷ s))} {y = e ∷ reverse (b ∷ s)} (rw he)
    ∙ ap reverse (sym q)
    ∙ reverse-reverse (b ∷ s ++ e ∷ [])

-- `Split` gives at least one part, and splits a text at a separator into the parts of both sides.
pub split-cons : (s : Text) (sep : ℕ) → (p : Text) × (ps : List Text) × (split s sep ≡ p ∷ ps)
unfolding split
split-cons [] sep = ([], [], refl)
split-cons (c ∷ s) sep =
    let (p, ps, e) = split-cons s sep in
    elim (Bool-cases (c == sep)) [
      | inl same ↦ ([], split s sep, rw same)
      | inr other ↦ (c ∷ p, ps, rw (other, e))
    ]

pub split-append : (s t : Text) (sep : ℕ) → split (s ++ sep ∷ t) sep ≡ split s sep ++ split t sep
unfolding split
split-append [] t sep = ground arith
split-append (c ∷ s) t sep = elim (Bool-cases (c == sep)) [
  | inl same ↦ rw same (ap (λ x. [] ∷ x) (split-append s t sep))
  | inr other ↦ let (p, ps, e) = split-cons s sep in rw (other, split-append s t sep, e)
]

-- The first part is a prefix of the text.
pub split-prefix :
    (s : Text) (sep : ℕ) (p : Text) (ps : List Text) → split s sep ≡ p ∷ ps → has_prefix s p ≡ true
unfolding split has_prefix
split-prefix [] sep [] ps e = refl
split-prefix [] sep (d ∷ p) ps e = cc
split-prefix (c ∷ s) sep [] ps e = refl
split-prefix (c ∷ s) sep (d ∷ p) ps e =
    let (q, qs, f) = split-cons s sep in ground (arith, split-prefix s sep q qs f)

contains-prefix : (s sub : Text) → contains s sub ≡ false → has_prefix s sub ≡ false
unfolding contains
contains-prefix [] sub h = h
contains-prefix (c ∷ s) sub h = ground arith

contains-tail : (c : ℕ) (s sub : Text) → contains (c ∷ s) sub ≡ false → contains s sub ≡ false
unfolding contains
contains-tail c s sub h = ground arith

first_part-ne :
    (sub s : Text) (sep : ℕ) (p : Text) (ps : List Text)
    → contains s sub ≡ false
    → split s sep ≡ p ∷ ps
    → p ≢ sub
first_part-ne sub s sep p ps h e q =
    let found : has_prefix s sub ≡ true = rw q at (split-prefix s sep p ps e) in
    cc (contains-prefix s sub h)

-- A text in which `sub` does not occur has no part that equals it.
pub split-ne :
    (sub : Text) (s : Text) (sep : ℕ) → contains s sub ≡ false → All (λ p. p ≢ sub) (split s sep)
unfolding split
split-ne sub [] sep h = (first_part-ne sub [] sep [] [] h refl, tt)
split-ne sub (c ∷ s) sep h =
    let rest = split-ne sub s sep (contains-tail c s sub h) in
    elim (Bool-cases (c == sep)) [
      | inl same ↦ rw same (first_part-ne sub (c ∷ s) sep [] (split s sep) h (rw same), rest)
      | inr other ↦
          let (p, ps, e) = split-cons s sep in
          rw (other, e)
            (first_part-ne sub (c ∷ s) sep (c ∷ p) ps h (rw (other, e)), (rw e at rest).1)
    ]
