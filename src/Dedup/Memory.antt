-- ===== src/Dedup/Memory.antt =====
-- What the sweep promises of the size of the map.
use kscribe.Prelude.{
  All, Bool, Bool-cases, String, StringMap, [], arith, false, if◌then◌else◌, inl, inr, insert,
  keep_if, leb, length, length-insert, lookup, refl, true, ℕ, ◌+◌, ◌==◌, ◌∷◌, ◌≡◌, ◌≤◌, ◌⊎◌,
}
use mathlib.Core.Bool.{false≢true}
use kscribe.Dedup.{Deduper, dedup_sweep_thresh, is_marked, unexpired, sweep, should_process}

-- entries that have not expired at an instant
abbrev pub Fresh : ℕ → StringMap ℕ → Type 0
Fresh now = All (λ (e : String × ℕ). unexpired now e ≡ true)

keep_if-Fresh : (now : ℕ) (seen : StringMap ℕ) → Fresh now (keep_if (unexpired now) seen)
keep_if-Fresh now [] = tt
keep_if-Fresh now (e ∷ rest) = choose (unexpired now e) refl (keep_if-Fresh now rest)
  where
    choose :
        (b : Bool)
        → unexpired now e ≡ b
        → Fresh now (keep_if (unexpired now) rest)
        → Fresh now (if b then e ∷ keep_if (unexpired now) rest else keep_if (unexpired now) rest)
    choose true h r = (h, r)
    choose false h r = r

insert-Fresh :
    (now : ℕ) (k : String) (exp : ℕ) (seen : StringMap ℕ)
    → unexpired now (k, exp) ≡ true
    → Fresh now seen
    → Fresh now (insert k exp seen)
unfolding insert
insert-Fresh now k exp [] h f = (h, tt)
insert-Fresh now k exp ((j, e) ∷ rest) h f = elim (Bool-cases (j == k)) [
  | inl same ↦ rw same (h, f.1)
  | inr other ↦ rw other (f.0, insert-Fresh now k exp rest h f.1)
]

-- An accepted call leaves at most the threshold of entries, or none that has expired by then: what
-- a map beyond the threshold holds is live.
pub memory_bounded :
    (d : Deduper) (key : String) (now : ℕ)
    → (should_process d key now).1 ≡ true
    → (length (should_process d key now).0.seen ≤ dedup_sweep_thresh)
      ⊎ Fresh now (should_process d key now).0.seen
unfolding should_process sweep
memory_bounded d key now ok = elim (Bool-cases (is_marked (lookup key d.seen) now)) [
  | inl old ↦ absurd (false≢true (rw old at ok))
  | inr new ↦ elim (Bool-cases (leb dedup_sweep_thresh (length d.seen))) [
    | inl large ↦
        rw (new, large)
          (inr (
            insert-Fresh now key (now + d.ttl) (keep_if (unexpired now) d.seen) (ground arith)
              (keep_if-Fresh now d.seen)))
    | inr small ↦ rw (new, small) (inl (ground (arith, length-insert key (now + d.ttl) d.seen)))
  ]
]
