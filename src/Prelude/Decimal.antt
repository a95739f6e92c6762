-- ===== src/Prelude/Decimal.antt =====
-- Numbers in decimal, as %d writes them.
use Prim.Native.Nat.{ℕ, zero, suc, ◌+◌, ◌-◌, ◌*◌, ◌/◌, ◌%◌, ◌≤◌}
use mathlib.Core.Path.{◌≡◌, refl}
use mathlib.Core.List.{[], ◌∷◌, ◌++◌}
use native.Mathlib.Omega.{arith}
use kscribe.Prelude.Tests.{ltb, if◌then◌else◌, Bool-cases, ltb_false→le}
use kscribe.Prelude.Utf8.{Bytes}
use kscribe.Prelude.Int.{ℤ}
use mathlib.Core.Logic.{inl, inr}

abbrev ascii_zero : ℕ
ascii_zero = 48

-- At most as many digits as the fuel; the number itself is fuel enough.
unfoldable pub digits_within : ℕ → ℕ → Bytes
digits_within zero n = []
digits_within (suc fuel) n =
    let rest = digits_within fuel (n / 10) in
    if ltb n 10 then (ascii_zero + n) ∷ [] else rest ++ (ascii_zero + n % 10) ∷ []

unfoldable pub decimal_ℕ : ℕ → Bytes
decimal_ℕ n = digits_within (suc n) n

unfoldable pub decimal : ℤ → Bytes
decimal (ℤ.pos n) = decimal_ℕ n
decimal (ℤ.negsuc n) = 45 ∷ decimal_ℕ (suc n)

-- The number that digits denote, behind the number that the earlier ones denote.
unfoldable pub value_from : ℕ → Bytes → ℕ
value_from v [] = v
value_from v (d ∷ rest) = value_from (10 * v + (d - ascii_zero)) rest

value_from-append :
    (v : ℕ) (a : Bytes) (d : ℕ)
    → value_from v (a ++ d ∷ []) ≡ 10 * value_from v a + (d - ascii_zero)
unfolding value_from
value_from-append v [] d = refl
value_from-append v (e ∷ rest) d = value_from-append (10 * v + (e - ascii_zero)) rest d

value-digits_within : (fuel n : ℕ) → suc n ≤ fuel → value_from 0 (digits_within fuel n) ≡ n
unfolding digits_within value_from
value-digits_within zero n h = absurd (omega arith)
value-digits_within (suc fuel) n h = elim (Bool-cases (ltb n 10)) [
  | inl small ↦ rw small (omega arith)
  | inr large ↦
      rw
        (
          large,
          value_from-append 0 (digits_within fuel (n / 10)) (ascii_zero + n % 10),
          value-digits_within fuel (n / 10) (omega (arith, ltb_false→le n 10 large)),
        )
        (omega arith)
]

-- The digits of a number denote it.
pub value-decimal_ℕ : (n : ℕ) → value_from 0 (decimal_ℕ n) ≡ n
unfolding decimal_ℕ
value-decimal_ℕ n = value-digits_within (suc n) n (omega arith)
