-- ===== src/Web/Chat/Conversation.antt =====
-- What a turn adds to the conversations.
use kscribe.Prelude.{
  Bool, Bool-cases, Bytes, List, Option, String, [], append-nil, append_assoc, backwards, bytes,
  encode_rune, eq_refl, false, inl, inr, is_empty, keep_if, keep_if-append, map, none, refl, some,
  space_width, space_width_back, trim_front, trim_space, ℕ, ◌&&◌, ◌++◌, ◌==◌, ◌∙◌, ◌∷◌, ◌≡◌,
}
use mathlib.Core.List.{map-append}
use kscribe.Agent.Schema.{Response}
use kscribe.Agent.Stream.{AnyProvider}
use kscribe.Errors.{Error, Result, ok, err}
use kscribe.Store.{append_chat_message, list_chat_messages, is_message}
use kscribe.Store.Schema.{Db, ChatMessage, IncidentDetail}
use kscribe.Web.Broker.{Broker}
use kscribe.Web.Chat.Turn.{
  TurnFaults, ChatWorld, reply_of, no_response, persist_reply, with_history, with_incident,
  after_question, run_chat,
}

-- A conversation as the roles and texts of its turns.
abbrev pub conversation : String → String → Db → List (String × Bytes)
conversation ns name db =
    map (λ (m : ChatMessage). (m.role, m.content)) (list_chat_messages ns name db)

-- The row of a turn.
abbrev pub written : String → String → ℕ → String → Bytes → Db → Db
written ns name now role content db = (append_chat_message none now ns name role content db).1

abbrev pub is_blank : Bytes → Bool
is_blank text = is_empty (trim_space text)

reply_of-not_blank : (accumulated : Bytes) → is_blank (reply_of accumulated) ≡ false
unfolding trim_space trim_front backwards space_width space_width_back no_response bytes encode_rune
reply_of-not_blank accumulated = elim (Bool-cases (is_blank accumulated)) [
  | inl blank ↦ rw blank refl
  | inr text ↦ rw text text
]

conversation-written :
    (ns name : String) (now : ℕ) (role : String) (content : Bytes) (db : Db)
    → conversation ns name (written ns name now role content db)
      ≡ conversation ns name db ++ (role, content) ∷ []
unfolding append_chat_message list_chat_messages
conversation-written ns name now role content db =
    rw
      (
        keep_if-append (is_message ns name) db.chat_messages,
        eq_refl ns,
        eq_refl name,
        map-append {B = String × Bytes} (λ (m : ChatMessage). (m.role, m.content)),
      )
      refl

messages-written :
    (ns name ns' name' : String) (now : ℕ) (role : String) (content : Bytes) (db : Db)
    → (ns == ns' && name == name') ≡ false
    → list_chat_messages ns' name' (written ns name now role content db)
      ≡ list_chat_messages ns' name' db
unfolding append_chat_message list_chat_messages
messages-written ns name ns' name' now role content db other =
    rw
      (
        keep_if-append (is_message ns' name') db.chat_messages,
        other,
        append-nil (keep_if (is_message ns' name') db.chat_messages),
      )
      refl

module _ {W : Type 0} (render : Bytes → Result Bytes) (valid : Bytes → Bool)
    (provider : AnyProvider W) (t : TurnFaults) (ns name : String) (user_msg : Bytes)
    (c : ChatWorld W) where
  abbrev pub asked : Db
  asked = written ns name t.asked_at "user" user_msg c.db

  -- The tables after a turn, by how it ended.
  pub data Wrote : Option Error → Db → Type 0 where
    refused : (e : Error) → Wrote (some e) c.db
    unanswered : (e : Error) → Wrote (some e) asked
    answered :
        (reply : Bytes)
        → is_blank reply ≡ false
        → Wrote none (written ns name t.replied_at "assistant" reply asked)

  abbrev WroteBy : Option Error × ChatWorld W → Type 0
  WroteBy (e, c') = Wrote e c'.db

  reply-Wrote :
      (fault : Option Error) (reply : Bytes)
      → is_blank reply ≡ false
      → let (e, db') = append_chat_message fault t.replied_at ns name "assistant" reply asked in
        Wrote e db'
  unfolding append_chat_message
  reply-Wrote (some e) reply text = unanswered e
  reply-Wrote none reply text = answered reply text

  persist_reply-Wrote :
      (p : Result Response × (Bytes × Broker) × W)
      → WroteBy (persist_reply render valid provider t ns name asked p)
  persist_reply-Wrote (err e, (accumulated, broker), w) = unanswered e
  persist_reply-Wrote (ok resp, (accumulated, broker), w) =
      reply-Wrote t.append_reply (reply_of accumulated) (reply_of-not_blank accumulated)

  with_incident-Wrote :
      (answer : Result IncidentDetail)
      → WroteBy (with_incident render valid provider t ns name (record c { db = asked }) answer)
  with_incident-Wrote (err e) = unanswered e
  with_incident-Wrote (ok detail) = with_faults t.list_messages
    where
      with_faults :
          (fault : Option Error)
          → WroteBy
              (with_history render valid provider t ns name detail (record c { db = asked }) fault)
      with_faults (some e) = unanswered e
      with_faults none = persist_reply-Wrote _

  -- A turn ends in one of three ways: with an error and no row written, with an error and the question
  -- kept, or without an error, with the question and an answer that is not blank.
  pub run_chat-Wrote : WroteBy (run_chat render valid provider t ns name user_msg c)
  unfolding run_chat append_chat_message
  run_chat-Wrote = with_faults t.append_user
    where
      with_faults :
          (fault : Option Error)
          → WroteBy (
              after_question render valid provider t ns name c
                (append_chat_message fault t.asked_at ns name "user" user_msg c.db))
      with_faults (some e) = refused e
      with_faults none = with_incident-Wrote _

  -- The conversation after a turn, by how the turn ended.
  pub data Extends : Option Error → List (String × Bytes) → Type 0 where
    as_before : (e : Error) → Extends (some e) (conversation ns name c.db)
    with_question :
        (e : Error) → Extends (some e) (conversation ns name c.db ++ ("user", user_msg) ∷ [])
    with_answer :
        (reply : Bytes)
        → is_blank reply ≡ false
        → Extends none (conversation ns name c.db ++ ("user", user_msg) ∷ ("assistant", reply) ∷ [])

  Wrote-Extends : (e : Option Error) (db : Db) → Wrote e db → Extends e (conversation ns name db)
  Wrote-Extends _ _ (refused e) = as_before e
  Wrote-Extends _ _ (unanswered e) =
      rw (conversation-written ns name t.asked_at "user" user_msg c.db) (with_question e)
  Wrote-Extends _ _ (answered reply text) =
      rw
        (
          conversation-written ns name t.replied_at "assistant" reply asked,
          conversation-written ns name t.asked_at "user" user_msg c.db,
          append_assoc (conversation ns name c.db) (("user", user_msg) ∷ [])
              (("assistant", reply) ∷ []),
        )
        (with_answer reply text)

  -- A turn without an error adds the question and an answer that is not blank to the end of its
  -- conversation; a turn with an error adds the question at most.
  pub run_chat-Extends :
      Extends
        (run_chat render valid provider t ns name user_msg c).0
        (conversation ns name (run_chat render valid provider t ns name user_msg c).1.db)
  run_chat-Extends = Wrote-Extends _ _ run_chat-Wrote

  -- A turn leaves every other conversation as it was.
  pub other_conversations_kept :
      (ns' name' : String)
      → (ns == ns' && name == name') ≡ false
      → list_chat_messages ns' name' (run_chat render valid provider t ns name user_msg c).1.db
        ≡ list_chat_messages ns' name' c.db
  other_conversations_kept ns' name' other = kept _ _ run_chat-Wrote
    where
      kept :
          (e : Option Error) (db : Db)
          → Wrote e db
          → list_chat_messages ns' name' db ≡ list_chat_messages ns' name' c.db
      kept _ _ (refused e) = refl
      kept _ _ (unanswered e) = messages-written ns name ns' name' _ _ _ c.db other
      kept _ _ (answered reply text) =
          messages-written ns name ns' name' _ _ _ asked other
          ∙ messages-written ns name ns' name' _ _ _ c.db other
