-- ===== src/Dedup.antt =====
-- internal/controller/dedup.go: the in-memory guard that drops an event seen within the TTL.
--
-- `Deduper` holds the TTL and, for each key, the instant at which its mark expires; the mutex makes
-- each call of `should_process` one atomic step. The injected clock is the argument `now`, in
-- nanoseconds. Go's order of iteration over the map does not matter to the sweep, which drops every
-- expired entry.
pub mod Once
pub mod Memory
pub mod Refinement
mod Tests
use kscribe.Prelude.{
  Bool, List, Option, String, StringMap, [], false, if◌then◌else◌, insert, is_positive, keep_if,
  leb, length, lookup, ltb, none, not, pos_part, some, true, ℕ, ℤ, ◌*◌, ◌+◌, ◌∷◌,
}

pub record Deduper : Type 0 where
  pub ttl : ℕ
  pub seen : StringMap ℕ

abbrev pub default_dedup_ttl : ℕ
default_dedup_ttl = 3600 * 1000000000

abbrev pub dedup_sweep_thresh : ℕ
dedup_sweep_thresh = 1024

-- A TTL that is not positive is replaced by the default.
unfoldable pub new_deduper : ℤ → Deduper
new_deduper ttl =
    if is_positive ttl
    then record { ttl = pos_part ttl; seen = [] }
    else record { ttl = default_dedup_ttl; seen = [] }

-- now.Before(exp), for the entry of a key, if it has one
abbrev pub is_marked : Option ℕ → ℕ → Bool
is_marked none now = false
is_marked (some exp) now = ltb now exp

-- the entries that the sweep leaves: those with not now.After(exp)
abbrev pub unexpired : ℕ → String × ℕ → Bool
unexpired now (k, exp) = not (ltb exp now)

unfoldable pub sweep : ℕ → StringMap ℕ → StringMap ℕ
sweep now seen = if leb dedup_sweep_thresh (length seen) then keep_if (unexpired now) seen else seen

unfoldable pub should_process : Deduper → String → ℕ → Deduper × Bool
unfolding sweep
should_process d key now =
    if is_marked (lookup key d.seen) now
    then (d, false)
    else (record d { seen = insert key (now + d.ttl) (sweep now d.seen) }, true)

-- A sequence of calls, each with its key and instant.
unfoldable pub process_all : Deduper → List (String × ℕ) → Deduper
process_all d [] = d
process_all d ((key, now) ∷ rest) = process_all (should_process d key now).0 rest
