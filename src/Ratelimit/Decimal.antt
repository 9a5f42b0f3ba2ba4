-- ===== src/Ratelimit/Decimal.antt =====
-- ratelimit/limiter.go: `itoa`, and the decimal numerals that it prints.
use modigo_runner.Base.{
  value_from, ℕ, zero, suc, ◌+◌, ◌*◌, ◌/◌, ◌%◌, ◌<◌, ◌≤◌, ◌≡◌, ap, ◌∙◌, ℤ, pos, negsuc, [], ◌∷◌,
  Text, codes, arith, ◌==◌, if◌then◌else◌, Bool-cases, inl, inr, some,
}

-- `for i > 0 { s = append([]byte{byte('0' + i%10)}, s...); i /= 10 }`, with fuel.
unfoldable pub itoa_loop : ℕ → ℕ → Text → Text
itoa_loop zero i s = s
itoa_loop (suc fuel) i s =
    let rest = itoa_loop fuel (i / 10) ((b'0' + i % 10) ∷ s) in if i == 0 then s else rest

unfoldable pub itoa : ℤ → Text
unfolding itoa_loop
itoa (pos i) = itoa_loop (i / 10) (i / 10) ((b'0' + i % 10) ∷ [])
itoa (negsuc i) = codes "0"

value_from-digit :
    (acc d : ℕ) (s : Text) → d < 10 → value_from acc ((b'0' + d) ∷ s) ≡ value_from (acc * 10 + d) s
unfolding value_from
value_from-digit acc d s h = ground arith

value_from-itoa_loop :
    (fuel i : ℕ) (s : Text) → i ≤ fuel → value_from 0 (itoa_loop fuel i s) ≡ value_from i s
unfolding itoa_loop
value_from-itoa_loop zero i s h = let e : i ≡ 0 = omega arith in rw e
value_from-itoa_loop (suc fuel) i s h = elim (Bool-cases (i == 0)) [
  | inl e ↦ let z : i ≡ 0 = ground arith in rw e (rw z)
  | inr e ↦ rw e (
      value_from-itoa_loop fuel (i / 10) _ (ground arith)
      ∙ value_from-digit (i / 10) (i % 10) s (omega arith)
      ∙ ap (λ n. value_from n s) (omega arith))
]

-- Reading back what `itoa` prints gives the number, for every number that is not negative.
pub value-itoa : (i : ℕ) → value_from 0 (itoa (pos i)) ≡ some i
unfolding itoa value_from
value-itoa i =
    value_from-itoa_loop (i / 10) (i / 10) _ (omega arith)
    ∙ value_from-digit (i / 10) (i % 10) [] (omega arith)
    ∙ ap some (omega arith)
