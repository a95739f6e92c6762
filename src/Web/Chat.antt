-- ===== src/Web/Chat.antt =====
-- internal/web/chat.go: what of an incident and of its conversation one chat turn sends to the model.
-- `valid` is utf8.Valid.
pub mod History
pub mod Turn
pub mod Conversation
mod Tests
use kscribe.Prelude.{
  Bool, Bytes, List, [], drop, if◌then◌else◌, length, ltb, map, suc, take, zero, ℕ, ◌+◌, ◌-◌, ◌∷◌,
}
use kscribe.Store.Schema.{ChatMessage}
use kscribe.Agent.Schema.{Message, message_of}

abbrev pub chat_context_budget : ℕ
chat_context_budget = 4096

abbrev pub chat_history_limit : ℕ
chat_history_limit = 10

abbrev pub chat_history_byte_budget : ℕ
chat_history_byte_budget = 8192

-- The loop that backs up, from the first `n` bytes: the longest valid prefix of them.
unfoldable pub back_up : (Bytes → Bool) → ℕ → Bytes → Bytes
back_up valid zero context = []
back_up valid (suc n) context =
    let shorter = back_up valid n context in
    if valid (take (suc n) context) then take (suc n) context else shorter

unfoldable pub bounded_context : (Bytes → Bool) → Bytes → Bytes
bounded_context valid context =
    if ltb chat_context_budget (length context)
    then back_up valid chat_context_budget context
    else context

-- histBytes
unfoldable pub content_bytes : List ChatMessage → ℕ
content_bytes [] = 0
content_bytes (m ∷ rest) = length m.content + content_bytes rest

-- the loop that drops the oldest message while the total is over the budget
unfoldable pub drop_oldest : ℕ → List ChatMessage → List ChatMessage
drop_oldest total [] = []
drop_oldest total (m ∷ rest) =
    let fewer = drop_oldest (total - length m.content) rest in
    if ltb chat_history_byte_budget total then fewer else m ∷ rest

abbrev pub latest : List ChatMessage → List ChatMessage
latest history =
    if ltb chat_history_limit (length history)
    then drop (length history - chat_history_limit) history
    else history

unfoldable pub bounded_history : List ChatMessage → List ChatMessage
bounded_history history = drop_oldest (content_bytes (latest history)) (latest history)

-- the request's messages
unfoldable pub chat_messages : Bytes → List ChatMessage → List Message
chat_messages system history =
    message_of "system" system
    ∷ map (λ (h : ChatMessage). message_of h.role h.content) (bounded_history history)
