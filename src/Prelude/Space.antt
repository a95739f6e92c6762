-- ===== src/Prelude/Space.antt =====
-- White space and HTML's special characters in UTF-8 texts.
use Prim.Native.Nat.{ℕ, zero, suc, ◌*◌}
use mathlib.Core.Bool.{Bool, ◌&&◌, ◌||◌}
use mathlib.Core.List.{[], ◌∷◌, ◌++◌}
use kscribe.Prelude.Tests.{leb, eqb, if◌then◌else◌}
use kscribe.Prelude.Utf8.{Bytes, bytes}

abbrev ascii_space : ℕ → Bool
ascii_space c = leb 9 c && leb c 13 || eqb c 32

-- The second and third byte of a space that begins with 0xe2: U+2000 to U+200A, U+2028, U+2029, U+202F
-- and U+205F.
abbrev e2_space : ℕ → ℕ → Bool
e2_space b c =
    eqb b 0x80 && (leb 0x80 c && leb c 0x8a || eqb c 0xa8 || eqb c 0xa9 || eqb c 0xaf)
    || eqb b 0x81 && eqb c 0x9f

abbrev long_space : ℕ → ℕ → ℕ → Bool
long_space a b c =
    eqb a 0xe2 && e2_space b c
    || eqb a 0xe1 && eqb b 0x9a && eqb c 0x80
    || eqb a 0xe3 && eqb b 0x80 && eqb c 0x80

abbrev short_space : ℕ → ℕ → Bool
short_space a b = eqb a 0xc2 && (eqb b 0x85 || eqb b 0xa0)

-- the number of bytes of the space that a text begins with, if it does
unfoldable pub space_width : Bytes → ℕ
space_width [] = 0
space_width (a ∷ []) = if ascii_space a then 1 else 0
space_width (a ∷ (b ∷ [])) = if ascii_space a then 1 else if short_space a b then 2 else 0
space_width (a ∷ (b ∷ (c ∷ rest))) =
    if ascii_space a then 1 else if short_space a b then 2 else if long_space a b c then 3 else 0

-- the same of a text that is written backwards
unfoldable pub space_width_back : Bytes → ℕ
space_width_back [] = 0
space_width_back (a ∷ []) = if ascii_space a then 1 else 0
space_width_back (a ∷ (b ∷ [])) = if ascii_space a then 1 else if short_space b a then 2 else 0
space_width_back (a ∷ (b ∷ (c ∷ rest))) =
    if ascii_space a then 1 else if short_space b a then 2 else if long_space c b a then 3 else 0

-- Drops the spaces at the front; `skip` bytes are left of the one that is being dropped.
unfoldable pub trim_front : (Bytes → ℕ) → ℕ → Bytes → Bytes
trim_front width skip [] = []
trim_front width (suc skip) (b ∷ rest) = trim_front width skip rest
trim_front width zero (b ∷ rest) = elim (width (b ∷ rest)) [
  | zero ↦ b ∷ rest
  | suc more ↦ trim_front width more rest
]

unfoldable pub backwards : Bytes → Bytes
backwards [] = []
backwards (b ∷ rest) = backwards rest ++ b ∷ []

-- strings.TrimSpace
unfoldable pub trim_space : Bytes → Bytes
trim_space s = backwards (trim_front space_width_back 0 (backwards (trim_front space_width 0 s)))

-- html.EscapeString
abbrev pub escape_byte : ℕ → Bytes
escape_byte c =
    if eqb c 38
    then bytes "&amp;"
    else if eqb c 39
    then bytes "&#39;"
    else if eqb c 60
    then bytes "&lt;"
    else if eqb c 62
    then bytes "&gt;"
    else if eqb c 34
    then bytes "&#34;"
    else c ∷ []

unfoldable pub escape_html : Bytes → Bytes
escape_html [] = []
escape_html (c ∷ rest) = escape_byte c ++ escape_html rest

-- bufio.Scanner's limit on a line with its end
abbrev pub max_scan_token_size : ℕ
max_scan_token_size = 64 * 1024

-- dropCR
abbrev pub drop_cr : Bytes → Bytes
drop_cr [] = []
drop_cr (c ∷ []) = if eqb c 13 then [] else c ∷ []
drop_cr (c ∷ (d ∷ rest)) = c ∷ drop_cr (d ∷ rest)
