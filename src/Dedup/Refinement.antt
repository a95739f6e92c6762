-- ===== src/Dedup/Refinement.antt =====
-- The deduper, which forgets, answers as one that forgets nothing.
use kscribe.Prelude.{
  Bool, Bool-cases, List, Option, String, StringMap, Unique, [], ap, arith, false, if◌then◌else◌,
  inl, inr, insert, insert-Unique, is_positive, lookup, lookup-insert, ltb, none, refl, some, sym,
  true, ℕ, ℤ, ◌+◌, ◌==◌, ◌∙◌, ◌∷◌, ◌≡◌, ◌≤◌,
}
use kscribe.Dedup.{Deduper, is_marked, sweep, should_process, new_deduper}
use kscribe.Dedup.Once.{lookup-sweep, marked_earlier, unmarked-sweep, sweep-Unique}

-- The specification: the instant at which each key was last accepted, for ever.
abbrev pub History : Type 0
History = String → Option ℕ

-- whether an acceptance was less than a TTL ago
abbrev pub was_accepted : ℕ → Option ℕ → ℕ → Bool
was_accepted ttl none now = false
was_accepted ttl (some accepted) now = ltb now (accepted + ttl)

abbrev pub accept : String → ℕ → History → History
accept key now h = λ asked. if key == asked then some now else h asked

-- A call is accepted unless its key was accepted less than a TTL ago.
unfoldable pub answer_ideally : ℕ → History → String → ℕ → History × Bool
answer_ideally ttl h key now =
    if was_accepted ttl (h key) now then (h, false) else (accept key now h, true)

-- the answers to a sequence of calls
unfoldable pub ideal_answers : ℕ → History → List (String × ℕ) → List Bool
ideal_answers ttl h [] = []
ideal_answers ttl h ((key, now) ∷ rest) =
    (answer_ideally ttl h key now).1 ∷ ideal_answers ttl (answer_ideally ttl h key now).0 rest

unfoldable pub answers : Deduper → List (String × ℕ) → List Bool
answers d [] = []
answers d ((key, now) ∷ rest) =
    (should_process d key now).1 ∷ answers (should_process d key now).0 rest

-- Calls at instants that do not go back.
abbrev pub InOrder : ℕ → List (String × ℕ) → Type 0
InOrder lo [] = Unit
InOrder lo ((key, now) ∷ rest) = (lo ≤ now) × InOrder now rest

-- From an instant on, the marks are the recent acceptances.
record Simulates (now : ℕ) (d : Deduper) (h : History) : Type 0 where
  unique : Unique d.seen
  marks :
      (key : String) (t : ℕ)
      → now ≤ t
      → is_marked (lookup key d.seen) t ≡ was_accepted d.ttl (h key) t

marked-sweep :
    (key : String) (now t : ℕ) (seen : StringMap ℕ)
    → Unique seen
    → now ≤ t
    → is_marked (lookup key (sweep now seen)) t ≡ is_marked (lookup key seen) t
marked-sweep key now t seen unique le = elim (Bool-cases (is_marked (lookup key seen) t)) [
  | inl marked ↦
      ap (λ e. is_marked e t)
        (lookup-sweep key now seen (marked_earlier (lookup key seen) now t le marked))
  | inr unmarked ↦ unmarked-sweep key now t seen unique unmarked ∙ sym unmarked
]

after_accept-marks :
    (lo now t : ℕ) (key k : String) (d : Deduper) (h : History)
    → lo ≤ now
    → now ≤ t
    → Simulates lo d h
    → is_marked (lookup k (insert key (now + d.ttl) (sweep now d.seen))) t
      ≡ was_accepted d.ttl (accept key now h k) t
after_accept-marks lo now t key k d h le later s =
    rw (lookup-insert key k (now + d.ttl) (sweep now d.seen)) (elim (Bool-cases (key == k)) [
      | inl same ↦ rw same refl
      | inr other ↦
          rw other (marked-sweep k now t d.seen s.unique later ∙ s.marks k t (omega arith))
    ])

step-Simulates :
    (lo now : ℕ) (key : String) (d : Deduper) (h : History)
    → lo ≤ now
    → Simulates lo d h
    → Simulates now (should_process d key now).0 (answer_ideally d.ttl h key now).0
unfolding answer_ideally should_process
step-Simulates lo now key d h le s = elim (Bool-cases (is_marked (lookup key d.seen) now)) [
  | inl old ↦
      rw (old, sym (s.marks key now le) ∙ old)
        (record { unique = s.unique; marks = λ k t later. s.marks k t (omega arith) })
  | inr new ↦
      rw (new, sym (s.marks key now le) ∙ new)
        (record {
          unique = insert-Unique key (now + d.ttl) _ (sweep-Unique now d.seen s.unique);
          marks = λ k t later. after_accept-marks lo now t key k d h le later s;
        })
]

ttl-should_process :
    (d : Deduper) (key : String) (now : ℕ) → (should_process d key now).0.ttl ≡ d.ttl
unfolding should_process
ttl-should_process d key now = elim (Bool-cases (is_marked (lookup key d.seen) now)) [
  | inl old ↦ rw old refl
  | inr new ↦ rw new refl
]

same_answer :
    (lo now : ℕ) (key : String) (d : Deduper) (h : History)
    → lo ≤ now
    → Simulates lo d h
    → (should_process d key now).1 ≡ (answer_ideally d.ttl h key now).1
unfolding answer_ideally should_process
same_answer lo now key d h le s = elim (Bool-cases (is_marked (lookup key d.seen) now)) [
  | inl old ↦ rw (old, sym (s.marks key now le) ∙ old) refl
  | inr new ↦ rw (new, sym (s.marks key now le) ∙ new) refl
]

answers-Simulates :
    (lo : ℕ) (d : Deduper) (h : History) (calls : List (String × ℕ))
    → InOrder lo calls
    → Simulates lo d h
    → answers d calls ≡ ideal_answers d.ttl h calls
unfolding answers ideal_answers
answers-Simulates lo d h [] order s = refl
answers-Simulates lo d h ((key, now) ∷ rest) order s =
    rw
      (
        same_answer lo now key d h order.0 s,
        answers-Simulates now (should_process d key now).0 (answer_ideally d.ttl h key now).0 rest
            order.1 (step-Simulates lo now key d h order.0 s),
        ttl-should_process d key now,
      )
      refl

new-Simulates : (ttl : ℤ) → Simulates 0 (new_deduper ttl) (λ key. none)
unfolding new_deduper lookup
new-Simulates ttl = elim (Bool-cases (is_positive ttl)) [
  | inl given ↦ rw given (record { unique = tt; marks = λ key t later. refl })
  | inr default ↦ rw default (record { unique = tt; marks = λ key t later. refl })
]

-- A new deduper answers every sequence of calls whose instants do not go back as the specification
-- does, which remembers each acceptance for ever: the expiry and the sweep of the map cannot be seen.
pub answers-Ideal :
    (ttl : ℤ) (calls : List (String × ℕ))
    → InOrder 0 calls
    → answers (new_deduper ttl) calls ≡ ideal_answers (new_deduper ttl).ttl (λ key. none) calls
answers-Ideal ttl calls order =
    answers-Simulates 0 (new_deduper ttl) (λ key. none) calls order (new-Simulates ttl)
