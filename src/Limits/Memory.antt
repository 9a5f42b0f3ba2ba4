-- ===== src/Limits/Memory.antt =====
-- executor/limits.go: `parseMemory` reads every size that fits an `int64`.
use mathlib.Core.List.{reverse-append}
use modigo_runner.Base.{
  ℕ, zero, suc, ◌+◌, ◌-◌, ◌*◌, ◌/◌, ◌%◌, ◌≤◌, ◌<◌, ◌≡◌, refl, ap, pos, [], ◌∷◌, ◌++◌, Text, arith,
  All, value_from, to_lower, has_suffix, has_prefix, parse_int, int64_scale, int64_limit, length,
  take, length-append, some, parse_digits, false, positive_in_range, is_space, trim_space_ends,
}
use modigo_runner.Ratelimit.Decimal.{itoa, itoa_loop, value-itoa}
use modigo_runner.Limits.{parse_memory, split_suffix, scaled, without_last}

pub data Suffix : Type 0 where
  giga mega kilo : Suffix

abbrev pub letter : Suffix → ℕ
letter giga = b'g'
letter mega = b'm'
letter kilo = b'k'

abbrev pub factor : Suffix → ℕ
factor giga = 1024 * 1024 * 1024
factor mega = 1024 * 1024
factor kilo = 1024

abbrev IsDigit : ℕ → Type 0
IsDigit c = (b'0' ≤ c) × (c ≤ b'9')

abbrev AreDigits : Text → Type 0
AreDigits [] = ⊥
AreDigits (c ∷ s) = IsDigit c × All IsDigit s

itoa_loop-AreDigits : (fuel i : ℕ) (s : Text) → AreDigits s → AreDigits (itoa_loop fuel i s)
unfolding itoa_loop
itoa_loop-AreDigits zero i s h = h
itoa_loop-AreDigits (suc fuel) i [] h = absurd h
itoa_loop-AreDigits (suc fuel) i (d ∷ s) h =
    ground (arith, itoa_loop-AreDigits fuel (i / 10) ((b'0' + i % 10) ∷ d ∷ s) (omega arith, h))

itoa-AreDigits : (n : ℕ) → AreDigits (itoa (pos n))
unfolding itoa
itoa-AreDigits n = itoa_loop-AreDigits (n / 10) (n / 10) _ (omega arith, tt)

to_lower_digits : (s : Text) → All IsDigit s → to_lower s ≡ s
unfolding to_lower
to_lower_digits [] h = refl
to_lower_digits (c ∷ s) h = ground (arith, to_lower_digits s h.1)

to_lower_size :
    (s : Text) (x : Suffix) → All IsDigit s → to_lower (s ++ letter x ∷ []) ≡ s ++ letter x ∷ []
unfolding to_lower
to_lower_size [] giga h = refl
to_lower_size [] mega h = refl
to_lower_size [] kilo h = refl
to_lower_size (c ∷ s) x h = ground (arith, to_lower_size s x h.1)

take_prefix : (s r : Text) → take (length s) (s ++ r) ≡ s
take_prefix [] r = refl
take_prefix (c ∷ s) r = ap (λ t. c ∷ t) (take_prefix s r)

without_last_lem : (s : Text) (c : ℕ) → without_last (s ++ c ∷ []) ≡ s
without_last_lem s c =
    let e : length (s ++ c ∷ []) - 1 ≡ length s = omega (arith, length-append s (c ∷ [])) in
    rw e (take_prefix s (c ∷ []))

letter_not_space : (x : Suffix) → is_space (letter x) ≡ false
letter_not_space giga = refl
letter_not_space mega = refl
letter_not_space kilo = refl

split_suffix_lem : (s : Text) (x : Suffix) → split_suffix (s ++ letter x ∷ []) ≡ (factor x, s)
unfolding split_suffix has_suffix has_prefix
split_suffix_lem s giga =
    rw (reverse-append s (b'g' ∷ [])) (ap (λ t. (factor giga, t)) (without_last_lem s _))
split_suffix_lem s mega =
    rw (reverse-append s (b'm' ∷ [])) (ap (λ t. (factor mega, t)) (without_last_lem s _))
split_suffix_lem s kilo =
    rw (reverse-append s (b'k' ∷ [])) (ap (λ t. (factor kilo, t)) (without_last_lem s _))

parse_int_digits :
    (e n : ℕ) (t : Text)
    → IsDigit e
    → value_from 0 (e ∷ t) ≡ some n
    → n < int64_limit
    → parse_int (e ∷ t) ≡ some (pos n)
unfolding parse_int parse_digits value_from positive_in_range
parse_int_digits e n t h v small = ground arith

int64_scale_small : (n m : ℕ) → n * m < int64_limit → int64_scale (pos n) m ≡ pos (n * m)
unfolding int64_scale
int64_scale_small n m h = ground arith

parse_size :
    (x : Suffix) (n : ℕ) (s : Text)
    → AreDigits s
    → value_from 0 s ≡ some n
    → n * factor x < int64_limit
    → n < int64_limit
    → parse_memory (s ++ letter x ∷ []) ≡ pos (n * factor x)
unfolding parse_memory scaled
parse_size x n [] h v small small' = absurd h
parse_size x n (e ∷ t) h v small small' =
    rw
      (
        to_lower_size (e ∷ t) x h,
        trim_space_ends e t (letter x) (ground arith) (letter_not_space x),
        split_suffix_lem (e ∷ t) x,
        parse_int_digits e n t h.0 v small',
      )
      (int64_scale_small n (factor x) small)

-- A size printed in whole units, with one of the suffixes, is read back in bytes whenever the number
-- of bytes fits an `int64`.
pub parse_memory-itoa :
    (x : Suffix) (n : ℕ)
    → n * factor x < int64_limit
    → parse_memory (itoa (pos n) ++ letter x ∷ []) ≡ pos (n * factor x)
parse_memory-itoa x n small =
    parse_size x n (itoa (pos n)) (itoa-AreDigits n) (value-itoa n) small (fits x small)
  where
    fits : (x : Suffix) → n * factor x < int64_limit → n < int64_limit
    fits giga h = omega arith
    fits mega h = omega arith
    fits kilo h = omega arith
