-- ===== src/Reconciler/Marks.antt =====
-- The status mutations of `Reconcile` of internal/controller/kscribediagnosis_controller.go: what each
-- patchStatus call does to the object that it has just fetched.
use kscribe.Prelude.{Bool, Bytes, String, bytes, false, none, some, true, ℕ}
use kscribe.Api.{
  pending, diagnosing, failed, Condition, condition_diagnosing, condition_diagnosed,
  condition_persisted, KscribeDiagnosisStatus, KscribeDiagnosis,
}
use kscribe.Errors.{Error, error_text}
use kscribe.Agent.{Outcome}
use kscribe.Reconciler.{Reconciler}

-- a status condition of the object's generation
abbrev pub condition_of : KscribeDiagnosis → String → Bool → String → Bytes → Condition
condition_of o kind status reason message = record {
  kind = kind;
  status = status;
  reason = reason;
  message = message;
  observed_generation = o.generation;
}

abbrev pub rca_summary : Outcome → Bytes → Bytes
rca_summary outcome old = elim outcome.rca [ none ↦ old | some rca ↦ rca.summary ]

abbrev pub rca_root_cause : Outcome → Bytes → Bytes
rca_root_cause outcome old = elim outcome.rca [ none ↦ old | some rca ↦ rca.root_cause ]

module _ {W : Type 0} (r : Reconciler W) where
  abbrev pub set : Condition → KscribeDiagnosisStatus → KscribeDiagnosisStatus
  set c s = record s { conditions = r.set_condition s.conditions c }

  -- The mutations of the status, in the order of the source.
  unfoldable pub mark_throttled : KscribeDiagnosis → KscribeDiagnosis
  mark_throttled o = record o {
    status =
        set
          (condition_of o condition_diagnosed false "RateLimited"
            (bytes "diagnosis start rate limit reached; will retry"))
          (record (o.status) { phase = pending });
  }

  unfoldable pub mark_started : ℕ → String → String → KscribeDiagnosis → KscribeDiagnosis
  mark_started started provider model o = record o {
    status =
        set
          (condition_of o condition_diagnosing true "DiagnosisStarted"
            (bytes "Diagnosis loop started"))
          (record (o.status) {
            phase = diagnosing;
            started_at = some started;
            llm_provider = provider;
            llm_model = model;
            observed_generation = o.generation;
          });
  }

  unfoldable pub mark_failed : ℕ → String → String → Outcome → KscribeDiagnosis → KscribeDiagnosis
  mark_failed completed provider model outcome o = record o {
    status =
        set (condition_of o condition_diagnosed false "ProviderError" outcome.raw_error)
          (record (o.status) {
            phase = failed;
            completed_at = some completed;
            llm_provider = provider;
            llm_model = model;
            tokens_used = outcome.tokens_used;
            observed_generation = o.generation;
          });
  }

  unfoldable pub mark_storage_error : Error → KscribeDiagnosis → KscribeDiagnosis
  mark_storage_error e o = record o {
    status =
        set (condition_of o condition_persisted false "StorageError" (error_text e))
          (record (o.status) { persisted = false });
  }

  unfoldable pub mark_finished : ℕ → String → String → Outcome → KscribeDiagnosis → KscribeDiagnosis
  mark_finished completed provider model outcome o = record o {
    status =
        set (condition_of o condition_diagnosed true "Diagnosed" (bytes "Diagnosis complete")) (
          set
            (condition_of o condition_persisted true "Persisted" (bytes "RCA written to state DB"))
            (record (o.status) {
              phase = outcome.phase;
              completed_at = some completed;
              llm_provider = provider;
              llm_model = model;
              tokens_used = outcome.tokens_used;
              persisted = true;
              observed_generation = o.generation;
              summary = rca_summary outcome (o.status).summary;
              root_cause = rca_root_cause outcome (o.status).root_cause;
            }));
  }
