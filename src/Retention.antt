-- ===== src/Retention.antt =====
-- internal/controller/prune.go: which KscribeDiagnosis objects one sweep deletes.
--
-- The errors that errors.Join joins are a list; no error is the empty list.
pub mod Exact
mod Tests
use kscribe.Prelude.{
  Bool, List, Option, [], bytes, false, if◌then◌else◌, ltb, none, not, or_default, some, suc, true,
  ℕ, ◌&&◌, ◌++◌, ◌∷◌,
}
use kscribe.Api.{DiagnosisPhase, KscribeDiagnosis}
use kscribe.Errors.{Error, wrap, is_not_found, Result, ok, err}
use kscribe.Cluster.{Client}

abbrev pub is_terminal : DiagnosisPhase → Bool
is_terminal DiagnosisPhase.done = true
is_terminal DiagnosisPhase.partial = true
is_terminal DiagnosisPhase.failed = true
is_terminal _ = false

-- status.completedAt, or else the creation
abbrev pub finished_at : KscribeDiagnosis → ℕ
finished_at kd = or_default kd.status.completed_at kd.creation_timestamp

-- The two guards of the loop.
unfoldable pub is_prunable : ℕ → KscribeDiagnosis → Bool
is_prunable cutoff kd = is_terminal kd.status.phase && not (ltb cutoff (finished_at kd))

module _ {W : Type 0} (client : Client W) where
  -- an object that is gone counts as deleted
  abbrev pub after_delete : KscribeDiagnosis → Option Error → ℕ × List Error → ℕ × List Error
  after_delete kd none (deleted, errors) = (suc deleted, errors)
  after_delete kd (some e) (deleted, errors) = if is_not_found e then (suc deleted, errors) else (
    deleted,
    errors
        ++ wrap
            (bytes "delete "
              ++ (bytes kd.namespace ++ (bytes "/" ++ (bytes kd.name ++ bytes ": "))))
            e
          ∷ [],
  )

  unfoldable pub prune_one : ℕ → KscribeDiagnosis → ℕ × List Error → W → (ℕ × List Error) × W
  prune_one cutoff kd acc w =
      if is_prunable cutoff kd
      then (let (failure, w') = client.delete_diagnosis kd w in (after_delete kd failure acc, w'))
      else (acc, w)

  unfoldable pub prune_all : ℕ → List KscribeDiagnosis → ℕ × List Error → W → (ℕ × List Error) × W
  prune_all cutoff [] acc w = (acc, w)
  prune_all cutoff (kd ∷ rest) acc w =
      let (acc', w') = prune_one cutoff kd acc w in prune_all cutoff rest acc' w'

  abbrev pub after_list : ℕ → Result (List KscribeDiagnosis) → W → (ℕ × List Error) × W
  after_list cutoff (err e) w = ((0, e ∷ []), w)
  after_list cutoff (ok items) w = prune_all cutoff items (0, []) w

  unfoldable pub prune_diagnosis_crs : ℕ → W → (ℕ × List Error) × W
  prune_diagnosis_crs cutoff w =
      let (answer, w') = client.list_diagnoses w in after_list cutoff answer w'
