-- ===== src/Store/Order.antt =====
-- The order of stored instants against the order of time.
use kscribe.Prelude.{[], arith, ltb, true, ℕ, ◌%◌, ◌*◌, ◌++◌, ◌+◌, ◌/◌, ◌<◌, ◌∷◌, ◌≡◌, ◌≢◌}
use kscribe.Store.Schema.{second, fraction_text, text_before, stored_before, trim_zeros, digits}

-- Instants in different seconds compare as they follow one another; so a cutoff misjudges an instant
-- only within its own second.
pub stored_before_chronological : (a b : ℕ) → a / second ≢ b / second → stored_before a b ≡ ltb a b
unfolding stored_before
stored_before_chronological a b h = ground (arith, h)

whole_second : (t : ℕ) → t % second ≡ 0 → fraction_text t ≡ b'Z' ∷ []
unfolding fraction_text
whole_second t h = rw h

with_fraction :
    (t : ℕ)
    → 0 < t % second
    → fraction_text t ≡ b'.' ∷ (trim_zeros (digits 9 (t % second)) ++ b'Z' ∷ [])
unfolding fraction_text
with_fraction t h = ground arith

-- Within one second the order of the texts is not the order of time: an instant with a fraction
-- stands before the whole second that precedes it.
pub same_second_reversed :
    (s f : ℕ) → 0 < f → f < second → stored_before (s * second + f) (s * second) ≡ true
unfolding stored_before text_before
same_second_reversed s f positive less =
    let same : (s * second + f) / second ≡ s = omega arith in
    let whole : s * second / second ≡ s = omega arith in
    rw
      (
        same,
        whole,
        whole_second (s * second) (omega arith),
        with_fraction (s * second + f) (omega arith),
      )
      (ground arith)
