-- ===== src/Retention/Exact.antt =====
-- A sweep against a client that records the deletions it is asked for.
use kscribe.Prelude.{
  Bool, Bool-cases, List, Option, [], arith, count_if, if◌then◌else◌, inl, inr, keep_if, length,
  length-append, ltb, none, not, or_default, refl, some, suc, sym, true, ℕ, ◌++◌, ◌+◌, ◌↔◌, ◌∙◌,
  ◌∷◌, ◌≡◌, ◌≤◌, ◌⊎◌,
}
use mathlib.Core.List.{append-nil, append_assoc}
use kscribe.Api.{
  DiagnosisPhase, unset, pending, diagnosing, done, partial, failed, KscribeDiagnosis,
}
use kscribe.Errors.{Error, is_not_found, ok}
use kscribe.Cluster.{Client}
use kscribe.Retention.{
  is_terminal, is_prunable, after_delete, prune_one, prune_all, prune_diagnosis_crs,
}

-- The objects whose deletion was asked for, in their order, beside the state of the world.
abbrev pub Recorded : Type 0 → Type 0
Recorded W = List KscribeDiagnosis × W

abbrev pub recording : {W : Type 0} → Client W → Client (Recorded W)
recording c = record {
  get_event = λ ns name s. let (a, w) = c.get_event ns name s.1 in (a, (s.0, w));
  list_policies = λ ns s. let (a, w) = c.list_policies ns s.1 in (a, (s.0, w));
  get_policy = λ ns name s. let (a, w) = c.get_policy ns name s.1 in (a, (s.0, w));
  get_diagnosis = λ ns name s. let (a, w) = c.get_diagnosis ns name s.1 in (a, (s.0, w));
  list_diagnoses = λ s. let (a, w) = c.list_diagnoses s.1 in (a, (s.0, w));
  create_diagnosis = λ kd s. let (a, w) = c.create_diagnosis kd s.1 in (a, (s.0, w));
  update_diagnosis = λ kd s. let (a, w) = c.update_diagnosis kd s.1 in (a, (s.0, w));
  update_status = λ kd s. let (a, w) = c.update_status kd s.1 in (a, (s.0, w));
  delete_diagnosis = λ kd s. let (a, w) = c.delete_diagnosis kd s.1 in (a, (s.0 ++ kd ∷ [], w));
}

module _ {W : Type 0} (c : Client W) (cutoff : ℕ) where
  log-prune_one :
      (kd : KscribeDiagnosis) (acc : ℕ × List Error) (s : Recorded W)
      → (prune_one (recording c) cutoff kd acc s).1.0
        ≡ (if is_prunable cutoff kd then s.0 ++ kd ∷ [] else s.0)
  unfolding prune_one
  log-prune_one kd acc s = elim (Bool-cases (is_prunable cutoff kd)) [
    | inl old ↦ rw old refl
    | inr young ↦ rw young refl
  ]

  log-prune_all :
      (items : List KscribeDiagnosis) (acc : ℕ × List Error) (s : Recorded W)
      → (prune_all (recording c) cutoff items acc s).1.0 ≡ s.0 ++ keep_if (is_prunable cutoff) items
  unfolding prune_all
  log-prune_all [] acc s = sym (append-nil s.0)
  log-prune_all (kd ∷ rest) acc s =
      log-prune_all rest (prune_one (recording c) cutoff kd acc s).0
        (prune_one (recording c) cutoff kd acc s).1
      ∙ elim (Bool-cases (is_prunable cutoff kd)) [
        | inl old ↦
            rw (log-prune_one kd acc s)
              (rw old (append_assoc s.0 (kd ∷ []) (keep_if (is_prunable cutoff) rest)))
        | inr young ↦ rw (log-prune_one kd acc s) (rw young refl)
      ]

  total-after_delete :
      (kd : KscribeDiagnosis) (failure : Option Error) (acc : ℕ × List Error)
      → (after_delete c kd failure acc).0 + length (after_delete c kd failure acc).1
        ≡ suc (acc.0 + length acc.1)
  total-after_delete kd none acc = omega arith
  total-after_delete kd (some e) acc = elim (Bool-cases (is_not_found e)) [
    | inl gone ↦ rw gone (omega arith)
    | inr bad ↦ rw bad (rw (length-append acc.1 (_ ∷ [])) (omega arith))
  ]

  total-prune_one :
      (kd : KscribeDiagnosis) (acc : ℕ × List Error) (w : W)
      → (prune_one c cutoff kd acc w).0.0 + length (prune_one c cutoff kd acc w).0.1
        ≡ (if is_prunable cutoff kd then suc (acc.0 + length acc.1) else acc.0 + length acc.1)
  unfolding prune_one
  total-prune_one kd acc w = elim (Bool-cases (is_prunable cutoff kd)) [
    | inl old ↦ rw old (total-after_delete kd (c.delete_diagnosis kd w).0 acc)
    | inr young ↦ rw young refl
  ]

  total-prune_all :
      (items : List KscribeDiagnosis) (acc : ℕ × List Error) (w : W)
      → (prune_all c cutoff items acc w).0.0 + length (prune_all c cutoff items acc w).0.1
        ≡ (acc.0 + length acc.1) + count_if (is_prunable cutoff) items
  unfolding prune_all
  total-prune_all [] acc w = omega arith
  total-prune_all (kd ∷ rest) acc w = ground (
    arith,
    total-prune_all rest (prune_one c cutoff kd acc w).0 (prune_one c cutoff kd acc w).1,
    total-prune_one kd acc w,
  )

-- The run has ended, and it was completed, or, where no completion is recorded, created, at the cutoff
-- or before.
abbrev pub IsDue : ℕ → KscribeDiagnosis → Type 0
IsDue cutoff kd =
    ((kd.status.phase ≡ done) ⊎ ((kd.status.phase ≡ partial) ⊎ (kd.status.phase ≡ failed)))
    × (((t : ℕ) → kd.status.completed_at ≡ some t → t ≤ cutoff)
        × (kd.status.completed_at ≡ none → kd.creation_timestamp ≤ cutoff))

ended :
    (phase : DiagnosisPhase)
    → (is_terminal phase ≡ true) ↔ ((phase ≡ done) ⊎ ((phase ≡ partial) ⊎ (phase ≡ failed)))
ended unset =
    (λ h. cc, λ h. elim h [ inl e ↦ cc | inr rest ↦ elim rest [ inl e ↦ cc | inr e ↦ cc ] ])
ended pending =
    (λ h. cc, λ h. elim h [ inl e ↦ cc | inr rest ↦ elim rest [ inl e ↦ cc | inr e ↦ cc ] ])
ended diagnosing =
    (λ h. cc, λ h. elim h [ inl e ↦ cc | inr rest ↦ elim rest [ inl e ↦ cc | inr e ↦ cc ] ])
ended done = (λ h. inl refl, λ h. refl)
ended partial = (λ h. inr (inl refl), λ h. refl)
ended failed = (λ h. inr (inr refl), λ h. refl)

in_time :
    (completed : Option ℕ) (created cutoff : ℕ)
    → (not (ltb cutoff (or_default completed created)) ≡ true)
      ↔ (((t : ℕ) → completed ≡ some t → t ≤ cutoff) × (completed ≡ none → created ≤ cutoff))
in_time none created cutoff =
    (λ h. (λ t e. cc, λ e. ground (arith, h)), λ h. ground (arith, h.1 refl))
in_time (some t) created cutoff = (
  λ h. (λ u e. (let same : t ≡ u = cc in ground (arith, h, same)), λ e. cc),
  λ h. ground (arith, h.0 t refl),
)

is_prunable-IsDue :
    (cutoff : ℕ) (kd : KscribeDiagnosis) → (is_prunable cutoff kd ≡ true) ↔ IsDue cutoff kd
unfolding is_prunable
is_prunable-IsDue cutoff kd =
    let phases = ended kd.status.phase in
    let times = in_time kd.status.completed_at kd.creation_timestamp cutoff in
    (
      λ h. (phases.0 (ground (arith, h)), times.0 (ground (arith, h))),
      λ h. (let a = phases.1 h.0 in let b = times.1 h.1 in rw (a, b) refl),
    )

-- A sweep asks the server to delete exactly the listed objects that are due (in a terminal phase, and
-- finished at the cutoff or before), each once and in the order of the list, whichever deletions fail.
pub prune_deletes_exactly :
    {W : Type 0} (c : Client W) (cutoff : ℕ) (w : W) (items : List KscribeDiagnosis)
    → (c.list_diagnoses w).0 ≡ ok items
    → (due : KscribeDiagnosis → Bool) × ((kd : KscribeDiagnosis)
        → (due kd ≡ true) ↔ IsDue cutoff kd)
      × ((prune_diagnosis_crs (recording c) cutoff ([], w)).1.0 ≡ keep_if due items)
unfolding prune_diagnosis_crs
prune_deletes_exactly c cutoff w items listed = (
  is_prunable cutoff,
  is_prunable-IsDue cutoff,
  rw listed (log-prune_all c cutoff items (0, []) ([], (c.list_diagnoses w).1)),
)

-- Every such object is counted as deleted or has its error among those returned.
pub prune_accounts :
    {W : Type 0} (c : Client W) (cutoff : ℕ) (w : W) (items : List KscribeDiagnosis)
    → (c.list_diagnoses w).0 ≡ ok items
    → (prune_diagnosis_crs c cutoff w).0.0 + length (prune_diagnosis_crs c cutoff w).0.1
      ≡ count_if (is_prunable cutoff) items
unfolding prune_diagnosis_crs
prune_accounts c cutoff w items listed =
    rw listed (omega (arith, total-prune_all c cutoff items (0, []) (c.list_diagnoses w).1))
