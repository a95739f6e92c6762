-- ===== src/Notify/Mentions.antt =====
-- No field of a notification can mention a channel or a user in Slack, or link.
use kscribe.Prelude.{
  Bool, Bool-cases, Bytes, List, [], ap, arith, bytes, count_if, count_if-append, decimal_ℕ,
  digits_within, encode_rune, eqb, false, if◌then◌else◌, inl, inr, ltb, ltb→lt, refl, suc, true,
  zero, ℕ, ◌%◌, ◌&&◌, ◌++◌, ◌+◌, ◌/◌, ◌<◌, ◌||◌, ◌∙◌, ◌∷◌, ◌≡◌,
}
use kscribe.Notify.{Notification}
use kscribe.Notify.Render.{unless_empty, slack_escape_byte, slack_escape, numbered, slack_text}

-- the number of angle brackets in a text
unfoldable brackets : Bytes → ℕ
brackets s = count_if (λ c. eqb c 60 || eqb c 62) s

brackets-append : (a b : Bytes) → brackets (a ++ b) ≡ brackets a + brackets b
unfolding brackets
brackets-append a b = count_if-append (λ c. eqb c 60 || eqb c 62) a b

brackets-escape_byte : (c : ℕ) → brackets (slack_escape_byte c) ≡ 0
unfolding brackets bytes encode_rune
brackets-escape_byte c = ground arith

brackets-escape : (s : Bytes) → brackets (slack_escape s) ≡ 0
unfolding slack_escape brackets
brackets-escape [] = refl
brackets-escape (c ∷ rest) = omega (
  arith,
  count_if-append (λ d. eqb d 60 || eqb d 62) (slack_escape_byte c) (slack_escape rest),
  brackets-escape_byte c,
  brackets-escape rest,
)

brackets_none : brackets [] ≡ 0
unfolding brackets
brackets_none = refl

-- A digit is no bracket.
brackets-digit : (n : ℕ) → n < 10 → brackets ((48 + n) ∷ []) ≡ 0
unfolding brackets
brackets-digit n h = ground arith

brackets-digits_within : (fuel n : ℕ) → brackets (digits_within fuel n) ≡ 0
unfolding digits_within
brackets-digits_within zero n = brackets_none
brackets-digits_within (suc fuel) n = elim (Bool-cases (ltb n 10)) [
  | inl small ↦ rw small (brackets-digit n (ltb→lt n 10 small))
  | inr large ↦ rw large (
      simp
        (
          brackets-append,
          brackets-digits_within fuel (n / 10),
          brackets-digit (n % 10) (omega arith),
        )
        refl)
]

brackets-decimal_ℕ : (n : ℕ) → brackets (decimal_ℕ n) ≡ 0
unfolding decimal_ℕ
brackets-decimal_ℕ n = brackets-digits_within (suc n) n

-- The constant texts of the message.
brackets_title : brackets (bytes "*[kscribe] ") ≡ 0
unfolding brackets bytes encode_rune
brackets_title = refl

brackets_colon : brackets (bytes ": ") ≡ 0
unfolding brackets bytes encode_rune
brackets_colon = refl

brackets_space : brackets (bytes " ") ≡ 0
unfolding brackets bytes encode_rune
brackets_space = refl

brackets_slash : brackets (bytes "/") ≡ 0
unfolding brackets bytes encode_rune
brackets_slash = refl

brackets_title_end : brackets (bytes "*\n") ≡ 0
unfolding brackets bytes encode_rune
brackets_title_end = refl

brackets_summary : brackets (bytes "*Summary:* ") ≡ 0
unfolding brackets bytes encode_rune
brackets_summary = refl

brackets_newline : brackets (bytes "\n") ≡ 0
unfolding brackets bytes encode_rune
brackets_newline = refl

brackets_cause : brackets (bytes "*Root cause:* ") ≡ 0
unfolding brackets bytes encode_rune
brackets_cause = refl

brackets_dot : brackets (bytes ". ") ≡ 0
unfolding brackets bytes encode_rune
brackets_dot = refl

ruleset fixed_brackets = (
  brackets_none, brackets_title, brackets_colon, brackets_space, brackets_slash, brackets_title_end,
  brackets_summary, brackets_newline, brackets_cause, brackets_dot,
)

brackets-numbered :
    (first : ℕ) (steps : List Bytes) → brackets (numbered slack_escape first steps) ≡ 0
unfolding numbered
brackets-numbered first [] = brackets_none
brackets-numbered first (step ∷ rest) =
    simp
      (
        brackets-append,
        brackets-escape,
        brackets-decimal_ℕ,
        fixed_brackets,
        brackets-numbered (suc first) rest,
      )
      refl

brackets_field :
    (field opening : Bytes)
    → brackets opening ≡ 0
    → brackets (unless_empty field (opening ++ slack_escape field ++ bytes "\n")) ≡ 0
brackets_field [] opening h = brackets_none
brackets_field (c ∷ rest) opening h =
    simp (brackets-append, brackets-escape (c ∷ rest), fixed_brackets, h) refl

brackets-slack_text : (n : Notification) → brackets (slack_text n) ≡ 0
unfolding slack_text
brackets-slack_text n =
    simp
      (
        brackets-append,
        brackets-escape,
        fixed_brackets,
        brackets-numbered,
        brackets_field n.summary (bytes "*Summary:* ") brackets_summary,
        brackets_field n.root_cause (bytes "*Root cause:* ") brackets_cause,
      )
      refl

-- The text that is posted to Slack has no angle bracket, so that no field of the notification mentions
-- a channel or a user, or makes a link.
pub slack_text_plain : (n : Notification) → count_if (λ c. eqb c 60 || eqb c 62) (slack_text n) ≡ 0
unfolding brackets
slack_text_plain n = brackets-slack_text n

abbrev starts_with : Bytes → Bytes → Bool
starts_with [] s = true
starts_with (p ∷ ps) [] = false
starts_with (p ∷ ps) (c ∷ s) = let rest = starts_with ps s in eqb c p && rest

-- What Slack shows of a text: its three entities are the characters that they name. The first `skip`
-- bytes belong to an entity that has been shown.
unfoldable pub shown : ℕ → Bytes → Bytes
shown skip [] = []
shown (suc skip) (c ∷ rest) = shown skip rest
shown zero (c ∷ rest) =
    let ampersand = shown 4 rest in
    let angle = shown 3 rest in
    let same = shown 0 rest in
    if starts_with (bytes "&amp;") (c ∷ rest)
    then 38 ∷ ampersand
    else if starts_with (bytes "&lt;") (c ∷ rest)
    then 60 ∷ angle
    else if starts_with (bytes "&gt;") (c ∷ rest)
    then 62 ∷ angle
    else c ∷ same

shown_none : shown 0 [] ≡ []
unfolding shown
shown_none = refl

shown-step : (c : ℕ) (rest : Bytes) → shown 0 (slack_escape_byte c ++ rest) ≡ c ∷ shown 0 rest
unfolding shown bytes encode_rune
shown-step c rest = ground arith

-- Slack shows an escaped text as it was.
pub shown-slack_escape : (s : Bytes) → shown 0 (slack_escape s) ≡ s
unfolding slack_escape
shown-slack_escape [] = shown_none
shown-slack_escape (c ∷ rest) =
    shown-step c (slack_escape rest) ∙ ap (λ t. c ∷ t) (shown-slack_escape rest)
