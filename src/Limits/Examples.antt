-- ===== src/Limits/Examples.antt =====
-- Sizes as they stand in configurations.
use modigo_runner.Base.{
  ◌*◌, ◌≡◌, refl, pos, negsuc, codes, arith, to_lower, trim_space, has_suffix, parse_int,
  int64_scale, ◌∷◌, [], ◌++◌,
}
use modigo_runner.Ratelimit.Decimal.{itoa}
use modigo_runner.Limits.{parse_memory, split_suffix, scaled, default_limits, with_memory}
use modigo_runner.Limits.Memory.{mega, letter, parse_memory-itoa}

limits_code : Unit {0}
unfolding parse_memory split_suffix scaled has_suffix to_lower trim_space parse_int int64_scale
    default_limits with_memory
limits_code = tt

sizes :
    (parse_memory (codes " 256M ") ≡ pos (256 * 1024 * 1024))
    × (parse_memory (codes "1g") ≡ pos (1024 * 1024 * 1024))
    × (parse_memory (codes "") ≡ pos (256 * 1024 * 1024))
    × (parse_memory (codes "12 m") ≡ pos (256 * 1024 * 1024))
    × (parse_memory (codes "-1k") ≡ negsuc 1023)
unfolding limits_code
sizes = (refl, refl, refl, refl, refl)

-- The product wraps around: 2 ^ 33 "g" is 2 ^ 63 bytes.
wraps : parse_memory (codes "8589934592g") ≡ negsuc (9223372036854775807)
unfolding limits_code
wraps = refl

parse_memory-itoa_example : parse_memory (itoa (pos 512) ++ letter mega ∷ []) ≡ pos 536870912
parse_memory-itoa_example = parse_memory-itoa mega 512 (omega arith)
