-- ===== src/Web/Broker/Delivery.antt =====
-- What a broker does over any order of its calls and its readers' receptions.
use kscribe.Prelude.{
  All, All-append, All-keep_if, Bool-cases, Bytes, List, String, [], ap, append-nil, append_assoc,
  arith, drop, eq_iff, eqb, if◌then◌else◌, inl, inr, keep_if, length, length-append, length-drop,
  ltb, map, not, refl, suc, take, zero, ℕ, ◌&&◌, ◌++◌, ◌-◌, ◌<◌, ◌==◌, ◌∙◌, ◌∷◌, ◌≡◌, ◌≤◌,
}
use kscribe.Web.Broker.{
  buffer_size, Subscriber, Broker, new_broker, subscribe, is_subscriber, unsubscribe, deliver,
  publish,
}

-- the reader of a channel takes the oldest event
abbrev pub receive : ℕ → Broker → Broker
receive channel b = record b {
  subs =
      map
        (λ (s : Subscriber).
          if eqb s.channel channel then record s { buffer = drop 1 s.buffer } else s)
        b.subs;
}

pub data Step : Broker → Broker → Type 0 where
  subscribes : {b : Broker} (incident : String) → Step b (subscribe incident b).1
  unsubscribes :
      {b : Broker} (incident : String) (channel : ℕ) → Step b (unsubscribe incident channel b)
  publishes : {b : Broker} (incident : String) (html : Bytes) → Step b (publish incident html b)
  receives : {b : Broker} (channel : ℕ) → Step b (receive channel b)

-- The states that a new broker comes to.
pub data Reachable : Broker → Type 0 where
  fresh : Reachable new_broker
  after : {b b' : Broker} → Reachable b → Step b b' → Reachable b'

-- the buffer is within its size, and the channel has been made
abbrev pub IsSound : ℕ → Subscriber → Type 0
IsSound next s = (length s.buffer ≤ buffer_size) × (s.channel < next)

deliver-IsSound :
    (next : ℕ) (incident : String) (html : Bytes) (s : Subscriber)
    → IsSound next s
    → IsSound next (deliver incident html s)
unfolding deliver
deliver-IsSound next incident html s h =
    elim (Bool-cases (s.incident == incident && ltb (length s.buffer) buffer_size)) [
      | inl room ↦ rw room (
        ground (arith, room, length-append s.buffer (html ∷ []), eq_iff s.incident incident),
        h.1,
      )
      | inr none_left ↦ rw none_left h
    ]

receive-IsSound :
    (next channel : ℕ) (s : Subscriber)
    → IsSound next s
    → IsSound next (if eqb s.channel channel then record s { buffer = drop 1 s.buffer } else s)
receive-IsSound next channel s h = elim (Bool-cases (eqb s.channel channel)) [
  | inl hit ↦ rw hit (omega (arith, h.0, length-drop 1 s.buffer), h.1)
  | inr miss ↦ rw miss h
]

All-map-same :
    {A : Type 0} (P : A → Type 0) (f : A → A) (xs : List A)
    → ((a : A) → P a → P (f a))
    → All P xs
    → All P (map f xs)
All-map-same P f [] keeps h = tt
All-map-same P f (a ∷ rest) keeps h = (keeps a h.0, All-map-same P f rest keeps h.1)

All-weaken :
    (next : ℕ) (subs : List Subscriber) → All (IsSound next) subs → All (IsSound (suc next)) subs
All-weaken next [] h = tt
All-weaken next (s ∷ rest) h = ((h.0.0, omega (arith, h.0.1)), All-weaken next rest h.1)

Step-IsSound :
    {b b' : Broker} → Step b b' → All (IsSound b.next) b.subs → All (IsSound b'.next) b'.subs
unfolding subscribe unsubscribe publish
Step-IsSound {b = b} (subscribes incident) h =
    All-append (IsSound (suc b.next)) b.subs _ (All-weaken b.next b.subs h)
      ((omega arith, omega arith), tt)
Step-IsSound {b = b} (unsubscribes incident channel) h =
    All-keep_if (IsSound b.next) (λ s. not (is_subscriber incident channel s)) b.subs h
Step-IsSound {b = b} (publishes incident html) h =
    All-map-same (IsSound b.next) (deliver incident html) b.subs
      (λ s. deliver-IsSound b.next incident html s) h
Step-IsSound {b = b} (receives channel) h =
    All-map-same (IsSound b.next) _ b.subs (λ s. receive-IsSound b.next channel s) h

-- However subscriptions, publications and receptions follow one another, no buffer holds more than
-- eight events, and no subscriber has a channel whose number is still to be given out.
pub reachable-IsSound : (b : Broker) → Reachable b → All (IsSound b.next) b.subs
reachable-IsSound b fresh = tt
reachable-IsSound b (after earlier step) = Step-IsSound step (reachable-IsSound _ earlier)

-- An event of one incident changes no subscriber of another.
pub publish_isolated :
    (incident : String) (html : Bytes) (b : Broker)
    → keep_if (λ (s : Subscriber). not (s.incident == incident)) (publish incident html b).subs
      ≡ keep_if (λ (s : Subscriber). not (s.incident == incident)) b.subs
unfolding publish
publish_isolated incident html b = others b.subs
  where
    others :
        (subs : List Subscriber)
        → keep_if
            (λ (s : Subscriber). not (s.incident == incident))
            (map (deliver incident html) subs)
          ≡ keep_if (λ (s : Subscriber). not (s.incident == incident)) subs
    others [] = refl
    others (s ∷ rest) = elim (Bool-cases (s.incident == incident)) [
      | inl own ↦ elim (Bool-cases (ltb (length s.buffer) buffer_size)) [
        | inl room ↦ rw own (rw room (rw own (others rest)))
        | inr full ↦ rw own (rw full (rw own (others rest)))
      ]
      | inr other ↦ rw other (rw other (ap (λ l. s ∷ l) (others rest)))
    ]

-- Events published one after the other, each with its incident.
unfoldable pub publish_all : List (String × Bytes) → Broker → Broker
publish_all [] b = b
publish_all ((incident, html) ∷ rest) b = publish_all rest (publish incident html b)

-- the events of one incident
abbrev pub events_of : String → List (String × Bytes) → List Bytes
events_of incident [] = []
events_of incident ((other, html) ∷ rest) =
    let later = events_of incident rest in if incident == other then html ∷ later else later

-- A subscriber that reads nothing, behind the events.
abbrev pub filled : List (String × Bytes) → Subscriber → Subscriber
filled events s = record s {
  buffer = s.buffer ++ take (8 - length s.buffer) (events_of s.incident events);
}

filled-deliver :
    (incident : String) (html : Bytes) (rest : List (String × Bytes)) (s : Subscriber)
    → filled rest (deliver incident html s) ≡ filled ((incident, html) ∷ rest) s
unfolding deliver
filled-deliver incident html rest s = elim (Bool-cases (s.incident == incident)) [
  | inr other ↦ rw other refl
  | inl own ↦ rw own (elim (Bool-cases (ltb (length s.buffer) buffer_size)) [
    | inl room ↦
        let one_less : 8 - length s.buffer ≡ suc (8 - length (s.buffer ++ html ∷ [])) =
          ground (arith, room, length-append s.buffer (html ∷ [])) in
        rw room (
          rw one_less (
            ap (λ (l : List Bytes). record s { buffer = l }) (append_assoc s.buffer (html ∷ []) _)))
    | inr full ↦
        let none_left : 8 - length s.buffer ≡ 0 = ground (arith, full) in
        rw full (rw none_left refl)
  ])
]

take-nil : {A : Type 0} (n : ℕ) → take {A = A} n [] ≡ []
take-nil zero = refl
take-nil (suc n) = refl

filled-nil : (subs : List Subscriber) → subs ≡ map (filled []) subs
filled-nil [] = refl
filled-nil (s ∷ subs) =
    rw (take-nil {A = Bytes} (8 - length s.buffer), append-nil s.buffer, ← filled-nil subs) refl

map-filled :
    (incident : String) (html : Bytes) (rest : List (String × Bytes)) (subs : List Subscriber)
    → map (filled rest) (map (deliver incident html) subs)
      ≡ map (filled ((incident, html) ∷ rest)) subs
map-filled incident html rest [] = refl
map-filled incident html rest (s ∷ subs) =
    rw (filled-deliver incident html rest s, map-filled incident html rest subs) refl

-- Whatever is published while nobody reads, each subscriber's buffer holds what it held and behind it, in
-- their order, the events of its own incident as far as eight have room; no subscriber is lost or
-- changed otherwise, one with a full buffer holds up no other, and the events of other incidents do not
-- reach it.
pub unread_kept :
    (events : List (String × Bytes)) (b : Broker)
    → (publish_all events b).subs ≡ map (filled events) b.subs
unfolding publish_all publish
unread_kept [] b = filled-nil b.subs
unread_kept ((incident, html) ∷ rest) b =
    unread_kept rest (publish incident html b) ∙ map-filled incident html rest b.subs
