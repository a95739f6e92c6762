-- ===== src/Operator/Sweeps.antt =====
-- What the retention loop leaves in the store.
use kscribe.Prelude.{
  All, Bool, Bool-cases, List, [], inl, inr, keep_if, not, refl, true, ℕ, ◌++◌, ◌-◌, ◌∷◌, ◌≡◌,
}
use kscribe.Cluster.{Client}
use kscribe.Operator.{prune_round, run_pruner}
use kscribe.Store.Pruning.{PruneFaults, no_faults, is_old, prune}
use kscribe.Store.Schema.{Db}

keep_if-All : {A : Type 0} (p : A → Bool) (xs : List A) → All (λ x. p x ≡ true) (keep_if p xs)
keep_if-All p [] = tt
keep_if-All p (x ∷ xs) = elim (Bool-cases (p x)) [
  | inl kept ↦ rw kept (kept, keep_if-All p xs)
  | inr dropped ↦ rw dropped (keep_if-All p xs)
]

run_pruner-append :
    {W : Type 0} (client : Client W) (retention : ℕ) (rounds later : List (PruneFaults × ℕ))
    (state : Db × W)
    → run_pruner client retention (rounds ++ later) state
      ≡ run_pruner client retention later (run_pruner client retention rounds state)
unfolding run_pruner
run_pruner-append client retention [] later state = refl
run_pruner-append client retention (round ∷ rounds) later state =
    run_pruner-append client retention rounds later _

-- After a turn of the loop in which the store has no fault, every incident is kept by its cutoff,
-- whatever failed in the turns before.
pub sound_round_cleans :
    {W : Type 0} (client : Client W) (retention now : ℕ) (rounds : List (PruneFaults × ℕ))
    (state : Db × W)
    → All
        (λ row. not (is_old (now - retention) row) ≡ true)
        (run_pruner client retention (rounds ++ (no_faults, now) ∷ []) state).0.incidents
unfolding run_pruner prune_round prune
sound_round_cleans client retention now rounds state =
    rw (run_pruner-append client retention rounds ((no_faults, now) ∷ []) state)
      (keep_if-All _ (run_pruner client retention rounds state).0.incidents)
