-- ===== src/Prelude/Atoi.antt =====
-- strconv.Atoi on an int of 64 bits: the number, or why there is none.
use Prim.Native.Nat.{ℕ, zero, suc, ◌+◌, ◌-◌, ◌*◌, ◌^◌}
use mathlib.Core.Bool.{Bool, ◌&&◌}
use mathlib.Core.List.{[], ◌∷◌}
use kscribe.Prelude.Tests.{ltb, leb, eqb, if◌then◌else◌}
use kscribe.Prelude.Utf8.{Bytes}
use kscribe.Prelude.Int.{ℤ}

-- Out of range, the nearest number of 64 bits comes with the error; with bad syntax, it is 0.
pub data Parsed : Type 0 where
  in_range : ℤ → Parsed
  bad_syntax : Parsed
  out_of_range : ℤ → Parsed

pub data Digits : Type 0 where
  value : ℕ → Digits
  no_digit : Digits
  too_large : Digits

abbrev pub is_digit : ℕ → Bool
is_digit c = leb b'0' c && leb c b'9'

-- The digits behind those that denote `v`: the first that is none, or that leaves 64 bits, ends it.
abbrev pub digits_from : ℕ → Bytes → Digits
digits_from v [] = value v
digits_from v (c ∷ rest) =
    let next = 10 * v + (c - b'0') in
    let later = digits_from next rest in
    if is_digit c then if ltb next (2 ^ 64) then later else too_large else no_digit

abbrev pub unsigned : Bytes → Digits
unsigned [] = no_digit
unsigned (c ∷ rest) = digits_from 0 (c ∷ rest)

abbrev pub with_plus : Digits → Parsed
with_plus no_digit = bad_syntax
with_plus too_large = out_of_range (ℤ.pos (2 ^ 63 - 1))
with_plus (value n) =
    if ltb n (2 ^ 63) then in_range (ℤ.pos n) else out_of_range (ℤ.pos (2 ^ 63 - 1))

abbrev pub with_minus : Digits → Parsed
with_minus no_digit = bad_syntax
with_minus too_large = out_of_range (ℤ.negsuc (2 ^ 63 - 1))
with_minus (value zero) = in_range (ℤ.pos 0)
with_minus (value (suc n)) =
    if ltb n (2 ^ 63) then in_range (ℤ.negsuc n) else out_of_range (ℤ.negsuc (2 ^ 63 - 1))

unfoldable pub parse_int : Bytes → Parsed
parse_int [] = bad_syntax
parse_int (c ∷ rest) =
    if eqb c b'-'
    then with_minus (unsigned rest)
    else if eqb c b'+'
    then with_plus (unsigned rest)
    else with_plus (unsigned (c ∷ rest))

-- The number that Atoi returns, whatever its error.
abbrev pub parsed_value : Parsed → ℤ
parsed_value (in_range z) = z
parsed_value bad_syntax = ℤ.pos 0
parsed_value (out_of_range z) = z
