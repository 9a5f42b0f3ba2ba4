-- ===== src/Base/Numeral.antt =====
-- Decimal numerals as `strconv` reads them, and Go's `int64`.
use Prim.Native.Nat.{ℕ, ◌+◌, ◌-◌, ◌*◌, ◌%◌, ◌^◌}
use mathlib.Core.Bool.{◌&&◌}
use mathlib.Core.List.{[], ◌∷◌}
use mathlib.Core.Option.{Option, none, some}
use modigo_runner.Base.Tests.{ltb, leb, ◌==◌, if◌then◌else◌}
use modigo_runner.Base.Int.{ℤ, pos, negsuc}
use modigo_runner.Base.Texts.{Text}

-- The number that digits denote, after those that have been read.
unfoldable pub value_from : ℕ → Text → Option ℕ
value_from acc [] = some acc
value_from acc (c ∷ s) =
    let rest = value_from (acc * 10 + (c - b'0')) s in
    if leb b'0' c && leb c b'9' then rest else none

unfoldable pub parse_digits : Text → Option ℕ
unfolding value_from
parse_digits [] = none
parse_digits (c ∷ s) = value_from 0 (c ∷ s)

abbrev pub int64_limit : ℕ
int64_limit = 2 ^ 63

unfoldable pub positive_in_range : Option ℕ → Option ℤ
positive_in_range none = none
positive_in_range (some n) = if ltb n int64_limit then some (pos n) else none

unfoldable pub negative_in_range : Option ℕ → Option ℤ
negative_in_range none = none
negative_in_range (some n) =
    if n == 0 then some (pos 0) else if leb n int64_limit then some (negsuc (n - 1)) else none

-- `strconv.ParseInt(s, 10, 64)`, and `strconv.Atoi` where `int` has 64 bits.
unfoldable pub parse_int : Text → Option ℤ
unfolding parse_digits positive_in_range negative_in_range
parse_int [] = none
parse_int (c ∷ s) =
    if c == b'-'
    then negative_in_range (parse_digits s)
    else if c == b'+'
    then positive_in_range (parse_digits s)
    else positive_in_range (parse_digits (c ∷ s))

-- The 64-bit pattern of an integer, and the `int64` of a pattern.
abbrev pub to_word : ℤ → ℕ
to_word (pos n) = n % 2 ^ 64
to_word (negsuc n) = 2 ^ 64 - 1 - n % 2 ^ 64

abbrev pub from_word : ℕ → ℤ
from_word w = if ltb w int64_limit then pos w else negsuc (2 ^ 64 - 1 - w)

-- `v * m` on `int64`, with its wrap-around.
unfoldable pub int64_scale : ℤ → ℕ → ℤ
int64_scale (pos n) m = from_word (to_word (pos (n * m)))
int64_scale (negsuc n) m = from_word (2 ^ 64 - 1 - ((n + 1) * m + (2 ^ 64 - 1)) % 2 ^ 64)
