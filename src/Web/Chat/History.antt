-- ===== src/Web/Chat/History.antt =====
-- The bounds on what is sent, and what the byte budget does to a single long turn.
use kscribe.Prelude.{
  Bool, Bool-cases, Bytes, List, [], ap, append-nil, append_assoc, arith, drop, inl, inr, length,
  length-append, length-drop, length-take-le, ltb, ltb_false→le, refl, suc, take, take-append-drop,
  true, zero, ℕ, ◌++◌, ◌+◌, ◌-◌, ◌<◌, ◌∙◌, ◌∷◌, ◌≡◌, ◌≤◌,
}
use kscribe.Store.Schema.{ChatMessage}
use kscribe.Web.Chat.{
  chat_context_budget, chat_history_limit, chat_history_byte_budget, back_up, bounded_context,
  content_bytes, drop_oldest, latest, bounded_history,
}

-- One list is the end of another.
abbrev pub IsSuffix : List ChatMessage → List ChatMessage → Type 0
IsSuffix kept all = (older : List ChatMessage) × (older ++ kept ≡ all)

-- What the loop leaves, from the total of a list.
record Trimmed (all kept : List ChatMessage) : Type 0 where
  within : content_bytes kept ≤ chat_history_byte_budget
  shorter : length kept ≤ length all
  suffix : IsSuffix kept all

drop_oldest-Trimmed :
    (history : List ChatMessage) → Trimmed history (drop_oldest (content_bytes history) history)
unfolding drop_oldest content_bytes
drop_oldest-Trimmed [] = record { within = omega arith; shorter = omega arith; suffix = ([], refl) }
drop_oldest-Trimmed (m ∷ rest) =
    let later = drop_oldest-Trimmed rest in
    let less : length m.content + content_bytes rest - length m.content ≡ content_bytes rest =
      omega arith in
    elim (Bool-cases (ltb chat_history_byte_budget (length m.content + content_bytes rest))) [
      | inl over ↦ rw over (
          rw less (record {
            within = later.within;
            shorter = omega (arith, later.shorter);
            suffix = (m ∷ later.suffix.0, ap (λ l. m ∷ l) later.suffix.1);
          }))
      | inr fits ↦ rw fits (record {
        within = ltb_false→le chat_history_byte_budget _ fits;
        shorter = omega arith;
        suffix = ([], refl);
      })
    ]

latest-IsSuffix :
    (history : List ChatMessage)
    → IsSuffix (latest history) history × (length (latest history) ≤ chat_history_limit)
latest-IsSuffix history = elim (Bool-cases (ltb chat_history_limit (length history))) [
  | inl long ↦ rw long (
    (
      take (length history - chat_history_limit) history,
      take-append-drop (length history - chat_history_limit) history,
    ),
    omega (arith, length-drop (length history - chat_history_limit) history),
  )
  | inr short ↦ rw short (([], refl), ltb_false→le chat_history_limit (length history) short)
]

-- What a chat turn sends of the conversation is its end: at most ten messages, with at most 8192 bytes.
pub history_bounded :
    (history : List ChatMessage)
    → IsSuffix (bounded_history history) history
      × ((length (bounded_history history) ≤ chat_history_limit)
          × (content_bytes (bounded_history history) ≤ chat_history_byte_budget))
unfolding bounded_history
history_bounded history =
    let (last, few) = latest-IsSuffix history in
    let trimmed = drop_oldest-Trimmed (latest history) in
    (
      (
        last.0 ++ trimmed.suffix.0,
        append_assoc last.0 trimmed.suffix.0 _ ∙ (ap (λ l. last.0 ++ l) trimmed.suffix.1 ∙ last.1),
      ),
      (omega (arith, few, trimmed.shorter), trimmed.within),
    )

content_bytes-last :
    (older : List ChatMessage) (m : ChatMessage)
    → length m.content ≤ content_bytes (older ++ m ∷ [])
unfolding content_bytes
content_bytes-last [] m = omega arith
content_bytes-last (o ∷ older) m = omega (arith, content_bytes-last older m)

drop_oldest-long :
    (older : List ChatMessage) (m : ChatMessage)
    → chat_history_byte_budget < length m.content
    → drop_oldest (content_bytes (older ++ m ∷ [])) (older ++ m ∷ []) ≡ []
unfolding drop_oldest content_bytes
drop_oldest-long [] m long = ground (arith, long)
drop_oldest-long (o ∷ older) m long =
    let rest = content_bytes (older ++ m ∷ []) in
    let less : length o.content + rest - length o.content ≡ rest = omega arith in
    let over : ltb chat_history_byte_budget (length o.content + rest) ≡ true =
      ground (arith, long, content_bytes-last older m) in
    rw over (rw less (drop_oldest-long older m long))

drop-append :
    (n : ℕ) (older : List ChatMessage) (m : ChatMessage)
    → n ≤ length older
    → drop n (older ++ m ∷ []) ≡ drop n older ++ m ∷ []
drop-append zero older m h = refl
drop-append (suc n) [] m h = absurd (omega (arith, h))
drop-append (suc n) (o ∷ older) m h = drop-append n older m (omega (arith, h))

-- A user turn of more than 8192 bytes is itself dropped by the byte budget: nothing of the
-- conversation is sent, the question that was just asked included.
pub long_turn_dropped :
    (older : List ChatMessage) (m : ChatMessage)
    → chat_history_byte_budget < length m.content
    → bounded_history (older ++ m ∷ []) ≡ []
unfolding bounded_history
long_turn_dropped older m long =
    elim (Bool-cases (ltb chat_history_limit (length (older ++ m ∷ [])))) [
      | inl many ↦ rw many (
          rw
            (drop-append (length (older ++ m ∷ []) - chat_history_limit) older m
              (omega (arith, length-append older (m ∷ []))))
            (drop_oldest-long (drop (length (older ++ m ∷ []) - chat_history_limit) older) m long))
      | inr few ↦ rw few (drop_oldest-long older m long)
    ]

-- What backing up leaves of a text.
record Cut (valid : Bytes → Bool) (n : ℕ) (context kept : Bytes) : Type 0 where
  sound : valid kept ≡ true
  short : length kept ≤ n
  start : (rest : Bytes) × (kept ++ rest ≡ context)

back_up-Cut :
    (valid : Bytes → Bool) (n : ℕ) (context : Bytes)
    → valid [] ≡ true
    → Cut valid n context (back_up valid n context)
unfolding back_up
back_up-Cut valid zero context none_valid = record {
  sound = none_valid;
  short = omega arith;
  start = (context, refl);
}
back_up-Cut valid (suc n) context none_valid =
    let shorter = back_up-Cut valid n context none_valid in
    elim (Bool-cases (valid (take (suc n) context))) [
      | inl good ↦ rw good (record {
        sound = good;
        short = length-take-le (suc n) context;
        start = (drop (suc n) context, take-append-drop (suc n) context);
      })
      | inr bad ↦ rw bad (record {
        sound = shorter.sound;
        short = omega (arith, shorter.short);
        start = shorter.start;
      })
    ]

-- The context that is sent is a beginning of the stored one with at most 4096 bytes, and it is valid
-- text if the stored one and the empty text are.
pub context_bounded :
    (valid : Bytes → Bool) (context : Bytes)
    → valid [] ≡ true
    → valid context ≡ true
    → (valid (bounded_context valid context) ≡ true)
      × ((length (bounded_context valid context) ≤ chat_context_budget)
          × ((rest : Bytes) × (bounded_context valid context ++ rest ≡ context)))
unfolding bounded_context
context_bounded valid context none_valid all_valid =
    let cut = back_up-Cut valid chat_context_budget context none_valid in
    elim (Bool-cases (ltb chat_context_budget (length context))) [
      | inl long ↦ rw long (cut.sound, (cut.short, cut.start))
      | inr short ↦ rw short (
        all_valid,
        (ltb_false→le chat_context_budget (length context) short, ([], append-nil context)),
      )
    ]
