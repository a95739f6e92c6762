-- ===== src/Dedup/Once.antt =====
-- A key that was accepted is not accepted again before its TTL is over.
use kscribe.Prelude.{
  Bool-cases, List, Option, String, StringMap, Unique, [], arith, eq_iff, eq_refl, false, inl, inr,
  insert-Unique, keep_if, keep_if-Unique, leb, length, lookup, lookup-insert, lookup-keep_if-none,
  none, refl, some, true, ℕ, ◌+◌, ◌<◌, ◌==◌, ◌∷◌, ◌≡◌, ◌≤◌,
}
use kscribe.Dedup.{
  Deduper, dedup_sweep_thresh, is_marked, unexpired, sweep, should_process, process_all,
}

-- the sweep keeps a mark that has not expired
lookup-keep_if-unexpired :
    (key : String) (now : ℕ) (seen : StringMap ℕ)
    → is_marked (lookup key seen) now ≡ true
    → lookup key (keep_if (unexpired now) seen) ≡ lookup key seen
unfolding lookup
lookup-keep_if-unexpired key now [] h = refl
lookup-keep_if-unexpired key now ((k, exp) ∷ rest) h =
    ground (arith, lookup-keep_if-unexpired key now rest)

pub lookup-sweep :
    (key : String) (now : ℕ) (seen : StringMap ℕ)
    → is_marked (lookup key seen) now ≡ true
    → lookup key (sweep now seen) ≡ lookup key seen
unfolding sweep
lookup-sweep key now seen h = ground (arith, lookup-keep_if-unexpired key now seen h)

-- a later instant is marked only if an earlier one is
pub marked_earlier :
    (e : Option ℕ) (t now : ℕ) → t ≤ now → is_marked e now ≡ true → is_marked e t ≡ true
marked_earlier none t now le h = cc
marked_earlier (some exp) t now le h = ground arith

-- a mark outlives every call up to the instant that it covers
marked-should_process :
    (d : Deduper) (key k : String) (t now : ℕ)
    → t ≤ now
    → is_marked (lookup key d.seen) now ≡ true
    → is_marked (lookup key (should_process d k t).0.seen) now ≡ true
unfolding should_process
marked-should_process d key k t now le h = ground (
  arith,
  lookup-sweep key t d.seen (marked_earlier (lookup key d.seen) t now le h),
  lookup-insert k key (t + d.ttl) (sweep t d.seen),
  eq_iff k key,
  marked_earlier (lookup key d.seen) t now le h,
)

-- Calls up to an instant.
abbrev pub UpTo : ℕ → List (String × ℕ) → Type 0
UpTo now [] = Unit
UpTo now ((k, t) ∷ rest) = (t ≤ now) × UpTo now rest

marked-process_all :
    (d : Deduper) (key : String) (now : ℕ) (calls : List (String × ℕ))
    → UpTo now calls
    → is_marked (lookup key d.seen) now ≡ true
    → is_marked (lookup key (process_all d calls).seen) now ≡ true
unfolding process_all
marked-process_all d key now [] up h = h
marked-process_all d key now ((k, t) ∷ rest) up h =
    marked-process_all (should_process d k t).0 key now rest up.1
      (marked-should_process d key k t now up.0 h)

-- an accepted key is marked until its TTL is over
accepted-marked :
    (d : Deduper) (key : String) (t now : ℕ)
    → (should_process d key t).1 ≡ true
    → now < t + d.ttl
    → is_marked (lookup key (should_process d key t).0.seen) now ≡ true
unfolding should_process
accepted-marked d key t now ok soon =
    ground (arith, lookup-insert key key (t + d.ttl) (sweep t d.seen), eq_refl key)

-- Once a key is accepted at `t`, whatever calls follow up to an instant before `t` plus the TTL, a
-- call with that key at that instant is refused, and changes nothing.
pub accepted_once :
    (d : Deduper) (key : String) (t now : ℕ) (calls : List (String × ℕ))
    → (should_process d key t).1 ≡ true
    → now < t + d.ttl
    → UpTo now calls
    → should_process (process_all (should_process d key t).0 calls) key now
      ≡ (process_all (should_process d key t).0 calls, false)
unfolding should_process
accepted_once d key t now calls ok soon up = rw (
    marked-process_all (should_process d key t).0 key now calls up
      (accepted-marked d key t now ok soon))

unmarked-keep_if :
    (key : String) (t now : ℕ) (seen : StringMap ℕ)
    → Unique seen
    → is_marked (lookup key seen) now ≡ false
    → is_marked (lookup key (keep_if (unexpired t) seen)) now ≡ false
unfolding lookup
unmarked-keep_if key t now [] u h = refl
unmarked-keep_if key t now ((k, exp) ∷ rest) u h = elim (Bool-cases (k == key)) [
  | inl same ↦ ground (
    arith,
    u.0,
    eq_iff k key,
    lookup-keep_if-none (unexpired t) key rest (rw (← (eq_iff k key).0 same) u.0),
  )
  | inr other ↦ ground (arith, unmarked-keep_if key t now rest u.1)
]

pub sweep-Unique : (t : ℕ) (seen : StringMap ℕ) → Unique seen → Unique (sweep t seen)
unfolding sweep
sweep-Unique t seen u = elim (Bool-cases (leb dedup_sweep_thresh (length seen))) [
  | inl large ↦ rw large (keep_if-Unique (unexpired t) seen u)
  | inr small ↦ rw small u
]

-- The sweep brings no mark back.
pub unmarked-sweep :
    (key : String) (t now : ℕ) (seen : StringMap ℕ)
    → Unique seen
    → is_marked (lookup key seen) now ≡ false
    → is_marked (lookup key (sweep t seen)) now ≡ false
unfolding sweep
unmarked-sweep key t now seen u h = ground (arith, unmarked-keep_if key t now seen u h)

unmarked-should_process :
    (d : Deduper) (key k : String) (t now : ℕ)
    → (k == key) ≡ false
    → Unique d.seen
    → is_marked (lookup key d.seen) now ≡ false
    → is_marked (lookup key (should_process d k t).0.seen) now ≡ false
unfolding should_process
unmarked-should_process d key k t now other u h =
    ground
      (arith, lookup-insert k key (t + d.ttl) (sweep t d.seen), unmarked-sweep key t now d.seen u h)

pub should_process-Unique :
    (d : Deduper) (k : String) (t : ℕ) → Unique d.seen → Unique (should_process d k t).0.seen
unfolding should_process
should_process-Unique d k t u = elim (Bool-cases (is_marked (lookup k d.seen) t)) [
  | inl old ↦ rw old u
  | inr new ↦ rw new (insert-Unique k (t + d.ttl) (sweep t d.seen) (sweep-Unique t d.seen u))
]

-- Calls with other keys.
abbrev pub Others : String → List (String × ℕ) → Type 0
Others key [] = Unit
Others key ((k, t) ∷ rest) = ((k == key) ≡ false) × Others key rest

unmarked-process_all :
    (d : Deduper) (key : String) (now : ℕ) (calls : List (String × ℕ))
    → Others key calls
    → Unique d.seen
    → is_marked (lookup key d.seen) now ≡ false
    → is_marked (lookup key (process_all d calls).seen) now ≡ false
unfolding process_all
unmarked-process_all d key now [] other u h = h
unmarked-process_all d key now ((k, t) ∷ rest) other u h =
    unmarked-process_all (should_process d k t).0 key now rest other.1
      (should_process-Unique d k t u) (unmarked-should_process d key k t now other.0 u h)

accepted-unmarked :
    (d : Deduper) (key : String) (t now : ℕ)
    → (should_process d key t).1 ≡ true
    → t + d.ttl ≤ now
    → is_marked (lookup key (should_process d key t).0.seen) now ≡ false
unfolding should_process
accepted-unmarked d key t now ok late =
    ground (arith, lookup-insert key key (t + d.ttl) (sweep t d.seen), eq_refl key)

-- In a map in which every key stands once: after a key is accepted at `t`, and whatever calls with
-- other keys follow, a call with that key is accepted at every instant from `t` plus the TTL on.
pub accepted_again :
    (d : Deduper) (key : String) (t now : ℕ) (calls : List (String × ℕ))
    → Unique d.seen
    → (should_process d key t).1 ≡ true
    → t + d.ttl ≤ now
    → Others key calls
    → (should_process (process_all (should_process d key t).0 calls) key now).1 ≡ true
unfolding should_process
accepted_again d key t now calls u ok late other = rw (
    unmarked-process_all (should_process d key t).0 key now calls other
      (should_process-Unique d key t u) (accepted-unmarked d key t now ok late))
