-- ===== src/Watcher/Names.antt =====
-- The dedup key of an event (internal/controller/dedup.go) and the name of its diagnosis
-- (internal/controller/event_watcher.go). A byte slice of a UID is the library's `slice`, which is
-- Go's wherever the cut falls between two characters, as it does in every ASCII text.
use kscribe.Prelude.{
  All, Bytes, List, String, [], arith, bytes, if◌then◌else◌, ltb, refl, suc, zero, ℕ, ◌%◌, ◌*◌, ◌+◌,
  ◌-◌, ◌/◌, ◌==◌, ◌∷◌, ◌≡◌, ◌≤◌,
}
use Prim.Native.Nat.{bit_xor, ◌^◌, compare as compare_ℕ, Ordering}
use Prim.Native.String.slice
use Prim.Native.String.len
use Prim.Native.Char.{Char, len_utf8}
use Prim.Native.String.{len, slice, fits, ◌++◌ as append}
use text.Mathlib.TextPositions.{len-append}
use kscribe.Cluster.{Event}

-- "%s/%s/%s/%s" over namespace, kind, name and reason
unfoldable pub composite_key : Event → String
composite_key ev = append ev.namespace (
    append "/" (
      append ev.involved_object.kind
        (append "/" (append ev.involved_object.name (append "/" ev.reason)))))

unfoldable pub event_key : Event → String
unfolding composite_key
event_key ev = if ev.uid == "" then composite_key ev else ev.uid

-- hash/fnv, New32a: for each byte, h = (h xor b) * 16777619 in 32 bits
unfoldable pub fnv32a : ℕ → Bytes → ℕ
fnv32a h [] = h
fnv32a h (b ∷ rest) = fnv32a (bit_xor h b * 16777619 % 2 ^ 32) rest

abbrev pub fnv_offset : ℕ
fnv_offset = 2166136261

abbrev hex_table : List String
hex_table =
    "0" ∷ "1" ∷ "2" ∷ "3" ∷ "4" ∷ "5" ∷ "6" ∷ "7" ∷ "8" ∷ "9" ∷ "a" ∷ "b" ∷ "c" ∷ "d" ∷ "e" ∷ "f"
    ∷ []

-- the entry of the table at a position
at : List String → ℕ → String
at [] i = "0"
at (s ∷ rest) zero = s
at (s ∷ rest) (suc i) = at rest i

-- the low digits of a number, as many as asked, before what is there already
hex_digits : ℕ → ℕ → String → String
unfolding at
hex_digits zero n acc = acc
hex_digits (suc k) n acc = hex_digits k (n / 16) (append (at hex_table (n % 16)) acc)

-- "%08x" of a 32-bit number
unfoldable pub hex8 : ℕ → String
unfolding hex_digits
hex8 n = hex_digits 8 n ""

unfoldable pub diagnosis_name : Event → String
diagnosis_name ev =
    if ev.uid == ""
    then append "ksd-" (hex8 (fnv32a fnv_offset (bytes (composite_key ev))))
    else append "ksd-" (if ltb 53 (len ev.uid) then slice ev.uid 0 53 else ev.uid)

len-at : (i : ℕ) → len (at hex_table i) ≡ 1
unfolding at
len-at i = All-at hex_table (omega arith) i
  where
    All-at : (l : List String) → All (λ (s : String). len s ≡ 1) l → (j : ℕ) → len (at l j) ≡ 1
    All-at [] h j = refl
    All-at (s ∷ rest) h zero = h.0
    All-at (s ∷ rest) h (suc j) = All-at rest h.1 j

len-hex_digits : (k n : ℕ) (acc : String) → len (hex_digits k n acc) ≡ k + len acc
unfolding hex_digits
len-hex_digits zero n acc = omega arith
len-hex_digits (suc k) n acc = omega (
  arith,
  len-hex_digits k (n / 16) (append (at hex_table (n % 16)) acc),
  len-append (at hex_table (n % 16)) acc,
  len-at (n % 16),
)

len-fits :
    (o : Ordering) (c : Char) (r : String) (n : ℕ)
    → compare_ℕ (len_utf8 c) n ≡ o
    → len r ≤ n - len_utf8 c
    → len (fits o c r) ≤ n
len-fits Ordering.lt c r n e h = rw len.cons (ground arith)
len-fits Ordering.eq c r n e h = rw len.cons (ground arith)
len-fits Ordering.gt c r n e h = rw len.nil (omega arith)

len-slice-le : (s : String) (n : ℕ) → len (slice s 0 n) ≤ n
len-slice-le String.[] n = rw (slice.nil 0 n, len.nil) (omega arith)
len-slice-le (String.◌∷◌ c s) n = rw slice.cons-zero (
    len-fits (compare_ℕ (len_utf8 c) n) c (slice s 0 (n - len_utf8 c)) n refl
      (len-slice-le s (n - len_utf8 c)))

len-hex8 : (n : ℕ) → len (hex8 n) ≡ 8
unfolding hex8
len-hex8 n = len-hex_digits 8 n ""

-- The name of a diagnosis has at most 57 bytes, with or without a UID.
pub diagnosis_name_short : (ev : Event) → len (diagnosis_name ev) ≤ 57
unfolding diagnosis_name
diagnosis_name_short ev = ground (
  arith,
  len-append "ksd-" (hex8 (fnv32a fnv_offset (bytes (composite_key ev)))),
  len-hex8 (fnv32a fnv_offset (bytes (composite_key ev))),
  len-append "ksd-" (slice ev.uid 0 53),
  len-append "ksd-" ev.uid,
  len-slice-le ev.uid 53,
)
