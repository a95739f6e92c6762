-- ===== src/Web/Chat/Tests.antt =====
-- The theorems of a chat turn at a concrete conversation.
use kscribe.Prelude.{Option, [], bytes, false, none, refl, some, suc, true, ℕ, ℤ, ◌∷◌, ◌≡◌}
use kscribe.Agent.Schema.{message_of}
use kscribe.Agent.Stream.{AnyProvider, plain}
use kscribe.Errors.{ok, Error}
use kscribe.Store.{list_chat_messages}
use kscribe.Store.Schema.{Incident}
use kscribe.Web.Broker.{new_broker}
use kscribe.Web.Chat.Turn.{TurnFaults, ChatWorld, run_chat}
use kscribe.Web.Chat.Conversation.{
  Extends, run_chat-Extends, other_conversations_kept, conversation,
}

abbrev incident : Incident
incident = record {
  namespace = "shop";
  name = "ksd-1";
  event_uid = "uid-1";
  involved_object_kind = "Pod";
  involved_object_name = "cart";
  involved_object_namespace = "shop";
  reason = "BackOff";
  message = [];
  phase = "Done";
  started_at = none;
  completed_at = none;
  llm_provider = "";
  llm_model = "";
  tokens_used = ℤ.pos 0;
  prompt_redacted = false;
  persisted = true;
  created_at = some 1;
  updated_at = some 1;
}

abbrev one_incident : ChatWorld ℕ
one_incident = record {
  db = record {
    incidents = incident ∷ [];
    diagnoses = [];
    chat_messages = [];
    last_diagnosis = 0;
    last_message = 0;
  };
  broker = new_broker;
  outside = 0;
}

-- A model that answers with white space, and a driver that refuses nothing.
abbrev silent : AnyProvider ℕ
silent = plain (record {
  complete = λ req w. (
    ok (record {
      choices =
          (record { message = message_of "assistant" (bytes "\n "); finish_reason = "stop" }) ∷ [];
      usage = record { total_tokens = ℤ.pos 1 };
    }),
    suc w,
  );
})

abbrev calm : TurnFaults
calm = record {
  append_user = none;
  get_incident = none;
  list_messages = none;
  append_reply = none;
  asked_at = 5;
  replied_at = 6;
}

abbrev after_turn : Option Error × ChatWorld ℕ
after_turn = run_chat ok (λ s. true) silent calm "shop" "ksd-1" (bytes "why?") one_incident

run_chat-Extends_example :
    Extends ok
      (λ s. true)
      silent
      calm
      "shop"
      "ksd-1"
      (bytes "why?")
      one_incident
      after_turn.0
      (conversation "shop" "ksd-1" after_turn.1.db)
run_chat-Extends_example =
    run_chat-Extends ok (λ s. true) silent calm "shop" "ksd-1" (bytes "why?") one_incident

other_conversations_kept_example :
    list_chat_messages "shop" "ksd-2" after_turn.1.db
    ≡ list_chat_messages "shop" "ksd-2" one_incident.db
other_conversations_kept_example =
    other_conversations_kept ok (λ s. true) silent calm "shop" "ksd-1" (bytes "why?") one_incident
      "shop" "ksd-2" refl
