-- ===== src/Web/Tests.antt =====
-- The theorems of the web server at concrete inputs.
use kscribe.Prelude.{
  Bytes, List, String, [], ap, arith, bytes, count_if, insert, length, lookup, map, refl, remove,
  suc, zero, ℕ, ◌++◌, ◌∷◌, ◌≡◌, ◌≤◌,
}
use kscribe.Store.Schema.{ChatMessage}
use kscribe.Web.Chat.{chat_history_limit, chat_history_byte_budget, content_bytes, bounded_history}
use kscribe.Web.Chat.History.{IsSuffix, history_bounded, long_turn_dropped}
use kscribe.Limiter.Window.{in_window}
use kscribe.Web.Login.{
  LoginLimiter, login_submit, too_many, record_failure, login_attempt_window, login_attempt_limit,
}
use kscribe.Web.Login.Guesses.{Submission, guesses_of, guesses_capped}
use kscribe.Web.Broker.{Broker, new_broker, subscribe}
use kscribe.Web.Broker.Delivery.{publish_all, filled, unread_kept}

abbrev turn : Bytes → ChatMessage
turn content = record {
  id = 1;
  namespace = "shop";
  name = "ksd-1";
  role = "user";
  content = content;
  created_at = 0;
}

abbrev conversation : List ChatMessage
conversation = turn (bytes "why?") ∷ turn (bytes "how?") ∷ []

history_bounded_example :
    IsSuffix (bounded_history conversation) conversation
    × ((length (bounded_history conversation) ≤ chat_history_limit)
        × (content_bytes (bounded_history conversation) ≤ chat_history_byte_budget))
history_bounded_example = history_bounded conversation

-- `n` letters
abbrev letters : ℕ → Bytes
letters zero = []
letters (suc n) = b'a' ∷ letters n

length-letters : (n : ℕ) → length (letters n) ≡ n
length-letters zero = refl
length-letters (suc n) = ap suc (length-letters n)

long_turn_dropped_example : bounded_history (conversation ++ turn (letters 8193) ∷ []) ≡ []
long_turn_dropped_example =
    long_turn_dropped conversation (turn (letters 8193)) (omega (arith, length-letters 8193))

abbrev no_failures : LoginLimiter
no_failures = record { failures = [] }

abbrev submission : String → String → ℕ → Submission
submission ip candidate t = record { ip = ip; candidate = candidate; handled_at = t }

-- wrong guesses of one address, one at each instant from `t` on
abbrev wrong_guesses : ℕ → ℕ → List Submission
wrong_guesses zero t = []
wrong_guesses (suc n) t = submission "10.0.0.1" "guess" t ∷ wrong_guesses n (suc t)

eleventh_refused :
    guesses_of "secret" "10.0.0.1" no_failures [] (wrong_guesses 11 1)
    ≡ 1 ∷ 2 ∷ 3 ∷ 4 ∷ 5 ∷ 6 ∷ 7 ∷ 8 ∷ 9 ∷ 10 ∷ []
unfolding guesses_of login_submit too_many record_failure lookup insert remove
eleventh_refused = refl

abbrev logins : List Submission
logins =
    submission "10.0.0.1" "guess" 1
    ∷ submission "10.0.0.2" "secret" 2
    ∷ submission "10.0.0.1" "guess" 3
    ∷ []

guesses_capped_example :
    count_if
      (in_window login_attempt_window 3)
      (guesses_of "secret" "10.0.0.1" no_failures [] logins)
    ≤ login_attempt_limit
unfolding login_submit too_many record_failure lookup insert remove
guesses_capped_example =
    guesses_capped "secret" "10.0.0.1" logins 3 (omega arith, (omega arith, (omega arith, tt)))
      (omega arith, (omega arith, (omega arith, tt)))

abbrev listening : Broker
listening = (subscribe "shop/ksd-1" new_broker).1

abbrev nine_events : List (String × Bytes)
nine_events =
    ("shop/ksd-2", bytes "x")
    ∷ ("shop/ksd-1", bytes "1")
    ∷ ("shop/ksd-1", bytes "2")
    ∷ ("shop/ksd-1", bytes "3")
    ∷ ("shop/ksd-1", bytes "4")
    ∷ ("shop/ksd-1", bytes "5")
    ∷ ("shop/ksd-1", bytes "6")
    ∷ ("shop/ksd-1", bytes "7")
    ∷ ("shop/ksd-1", bytes "8")
    ∷ ("shop/ksd-1", bytes "9")
    ∷ []

unread_kept_example :
    (publish_all nine_events listening).subs ≡ map (filled nine_events) listening.subs
unread_kept_example = unread_kept nine_events listening
