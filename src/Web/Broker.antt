-- ===== src/Web/Broker.antt =====
-- internal/web/broker.go: the fan-out of SSE events to the subscribers of an incident.
--
-- The map of sets of channels is the list of its channels with their incidents; a channel is a number
-- and what waits in its buffer, the oldest first. The mutex makes each method one step. A subscriber
-- takes the oldest event out of its buffer at any time.
pub mod Delivery
use kscribe.Prelude.{
  Bool, Bytes, List, String, [], eqb, if◌then◌else◌, keep_if, length, ltb, map, not, suc, ℕ, ◌&&◌,
  ◌++◌, ◌==◌, ◌∷◌,
}

abbrev pub buffer_size : ℕ
buffer_size = 8

pub record Subscriber : Type 0 where
  pub incident : String
  pub channel : ℕ
  pub buffer : List Bytes

-- `next` is the number of the next channel that is made.
pub record Broker : Type 0 where
  pub next : ℕ
  pub subs : List Subscriber

abbrev pub new_broker : Broker
new_broker = record { next = 0; subs = [] }

unfoldable pub subscribe : String → Broker → ℕ × Broker
subscribe incident b = (
  b.next,
  record {
    next = suc b.next;
    subs = b.subs ++ (record { incident = incident; channel = b.next; buffer = [] }) ∷ [];
  },
)

abbrev pub is_subscriber : String → ℕ → Subscriber → Bool
is_subscriber incident channel s = s.incident == incident && eqb s.channel channel

unfoldable pub unsubscribe : String → ℕ → Broker → Broker
unsubscribe incident channel b = record b {
  subs = keep_if (λ s. not (is_subscriber incident channel s)) b.subs;
}

-- the send that does not block
unfoldable pub deliver : String → Bytes → Subscriber → Subscriber
deliver incident html s =
    if s.incident == incident && ltb (length s.buffer) buffer_size
    then record s { buffer = s.buffer ++ html ∷ [] }
    else s

unfoldable pub publish : String → Bytes → Broker → Broker
unfolding deliver
publish incident html b = record b { subs = map (deliver incident html) b.subs }
