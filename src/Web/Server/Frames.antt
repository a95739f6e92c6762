-- ===== src/Web/Server/Frames.antt =====
-- What of a text the lines of its event carry.
use kscribe.Prelude.{
  Bool, Bool-cases, Bytes, List, [], any_of, ap, append-nil, append_assoc, arith, bytes, drop_cr,
  eqb, false, inl, inr, leb, length, length-append, max_scan_token_size, not, refl, true, ◌++◌, ◌+◌,
  ◌<◌, ◌||◌, ◌∷◌, ◌≡◌, ◌≤◌,
}
use kscribe.Web.Server.{scan_lines, data_lines, write_sse}

-- The text of lines, each with its end.
unfoldable pub unlines : List Bytes → Bytes
unlines [] = []
unlines (line ∷ rest) = (line ++ 10 ∷ []) ++ unlines rest

abbrev pub no_cr : Bytes → Bool
no_cr s = not (any_of (λ c. eqb c 13) s)

drop_cr-no_cr : (line : Bytes) → no_cr line ≡ true → drop_cr line ≡ line
drop_cr-no_cr [] h = refl
drop_cr-no_cr (c ∷ []) h = ground (arith, h)
drop_cr-no_cr (c ∷ (d ∷ rest)) h = ap (λ l. c ∷ l) (drop_cr-no_cr (d ∷ rest) (ground (arith, h)))

any_of-append :
    {A : Type 0} (p : A → Bool) (xs ys : List A)
    → any_of p (xs ++ ys) ≡ (any_of p xs || any_of p ys)
any_of-append p [] ys = refl
any_of-append p (x ∷ xs) ys = ground (arith, any_of-append p xs ys)

scan_lines-whole :
    (line s : Bytes)
    → no_cr line ≡ true
    → no_cr s ≡ true
    → length line + length s < max_scan_token_size
    → unlines (scan_lines line (s ++ 10 ∷ [])) ≡ line ++ s ++ 10 ∷ []
unfolding scan_lines unlines
scan_lines-whole line [] clean _ short =
    rw (short_line, drop_cr-no_cr line clean, append-nil (line ++ 10 ∷ []), append-nil line) refl
  where
    short_line : leb max_scan_token_size (length line) ≡ false
    short_line = ground arith
scan_lines-whole line (c ∷ rest) clean cleans short = elim (Bool-cases (eqb c 10)) [
  | inl end ↦
      rw (short_line, end, drop_cr-no_cr line clean)
        (rw (scan_lines-whole [] rest refl (ground (arith, cleans)) (omega arith)) (
          rw
            (
              newline end,
              append_assoc line (10 ∷ []) (rest ++ 10 ∷ []),
              append_assoc line (10 ∷ rest) (10 ∷ []),
            )
            refl))
  | inr inner ↦
      rw
        (
          short_line,
          inner,
          scan_lines-whole (line ++ c ∷ []) rest
              (ground (arith, clean, cleans, any_of-append (λ d. eqb d 13) line (c ∷ [])))
              (ground (arith, cleans)) (omega (arith, length-append line (c ∷ []))),
          append_assoc line (c ∷ []) rest,
        )
        refl
]
  where
    short_line : leb max_scan_token_size (length line) ≡ false
    short_line = ground arith

    newline : eqb c 10 ≡ true → c ≡ 10
    newline h = ground arith

-- A text without carriage returns, shorter than the scanner's buffer and ended by a newline, is carried
-- whole by the lines of its event.
pub frame_carries_text :
    (s : Bytes)
    → no_cr s ≡ true
    → length s < max_scan_token_size
    → (lines : List Bytes) × (write_sse (s ++ 10 ∷ []) ≡ data_lines lines ++ bytes "\n")
      × (unlines lines ≡ s ++ 10 ∷ [])
unfolding write_sse
frame_carries_text s clean short =
    (scan_lines [] (s ++ 10 ∷ []), refl, scan_lines-whole [] s refl clean (omega arith))

-- The text of a line that is as long as the buffer is lost, with all that follows it.
scan_lines-long :
    (line s rest : Bytes)
    → any_of (λ c. eqb c 10) s ≡ false
    → max_scan_token_size ≤ length line + length s
    → scan_lines line (s ++ rest) ≡ []
unfolding scan_lines
scan_lines-long line [] [] clean long = ground (arith, long)
scan_lines-long line [] (c ∷ rest) clean long = ground (arith, long)
scan_lines-long line (c ∷ s) rest clean long = ground (
  arith,
  clean,
  scan_lines-long (line ++ c ∷ []) s rest (ground (arith, clean))
      (omega (arith, length-append line (c ∷ []))),
)

-- A text whose first line is as long as the scanner's buffer is sent as an event with no data at all.
pub long_line_lost :
    (s rest : Bytes)
    → any_of (λ c. eqb c 10) s ≡ false
    → max_scan_token_size ≤ length s
    → write_sse (s ++ rest) ≡ bytes "\n"
unfolding write_sse
long_line_lost s rest one_line long = rw (scan_lines-long [] s rest one_line (omega arith)) refl
