-- ===== src/Reconciler/Durable.antt =====
-- Every path of Reconcile keeps the store ahead of the status.
use kscribe.Prelude.{Bool-cases, Bytes, Option, String, inl, inr, none, refl, some, true, ◌≡◌}
use mathlib.Core.Path.{subst}
use kscribe.Api.{failed, KscribeDiagnosis}
use kscribe.Errors.{Error, Result, ok, err}
use kscribe.Limiter.{RateLimiter, allow}
use kscribe.Enricher.{ObjectRef, Snapshot}
use kscribe.Agent.{Outcome, run}
use kscribe.Agent.Keeps.{run-keeps}
use kscribe.Store.Schema.{Diagnosis}
use kscribe.Reconciler.{
  Reconciler, Readings, Decision, proceed, mirror, skip, decide, incident_from_diagnosis,
  effective_llm_provider, effective_llm_model, publish_phase,
}
use kscribe.Reconciler.Marks.{
  mark_throttled, mark_started, mark_failed, mark_storage_error, mark_finished,
}
use kscribe.Reconciler.Conclude.{
  diagnosis_row, payload_of, record_failure, after_insert, persist, conclude, diagnose,
  enrich_and_diagnose, agent_of, built, is_failed,
}
use kscribe.Reconciler.Flow.{
  start, throttle, mirror_terminal, reconcile, after_started, after_mirrored, after_refetch, act,
  after_get,
}
use kscribe.Reconciler.Ordering.{
  Lawful, backed, patched-Backed, unflagged-Backed, throttled-Sets, started-Sets, failed-Sets,
  storage_error-Sets, finished-Sets, told-keeps,
}

module _ {W : Type 0} (r : Reconciler W) {Backed : W → Type 0}
    {Stored : String → String → W → Type 0} (lawful : Lawful r Backed Stored) (t : Readings)
    (namespace name : String) where
  -- an object that the server answered for the request
  module _ (kd : KscribeDiagnosis) (provider model : String) (here : kd.namespace ≡ namespace)
      (there : kd.name ≡ name) where
    record_failure-Backed :
        (outcome : Outcome) (w : W)
        → Backed w
        → Backed (record_failure r t namespace name kd provider model outcome w).1
    unfolding record_failure mark_failed
    record_failure-Backed outcome w h =
        unflagged-Backed r lawful namespace name
          (mark_failed r t.completed_at provider model outcome) (λ o. (refl, refl))
          (failed-Sets r lawful t.completed_at provider model outcome) _
          (told-keeps r lawful (backed r lawful) namespace name _ _ kd failed _ _ _ w h)

    after_insert-Backed :
        (d : Diagnosis) (outcome : Outcome) (failure : Option Error) (w : W)
        → Backed w
        → (failure ≡ none → Stored namespace name w)
        → Backed (after_insert r t namespace name kd provider model d outcome failure w).1
    unfolding after_insert mark_finished mark_storage_error
    after_insert-Backed d outcome (some e) w h stored =
        unflagged-Backed r lawful namespace name (mark_storage_error r e) (λ o. (refl, refl))
          (storage_error-Sets r lawful e) w h
    after_insert-Backed d outcome none w h stored =
        patched-Backed r lawful true namespace name
          (mark_finished r t.completed_at provider model outcome) (λ o. (refl, refl))
          (finished-Sets r lawful t.completed_at provider model outcome) _
          (
            told-keeps r lawful (backed r lawful) namespace name _ _ kd outcome.phase _ _ _ w h,
            λ set.
                told-keeps r lawful (lawful.keeps_stored namespace name) namespace name _ _ kd
                  outcome.phase _ _ _ w (stored refl),
          )

    conclude-Backed :
        (snapshot : Bytes) (outcome : Outcome) (w : W)
        → Backed w
        → Backed (conclude r t namespace name kd provider model snapshot outcome w).1
    unfolding conclude persist diagnosis_row
    conclude-Backed snapshot outcome w h =
        elim (Bool-cases (is_failed r t namespace name kd provider model outcome.phase)) [
          | inl bad ↦ rw bad (record_failure-Backed outcome w h)
          | inr good ↦ rw good (
              let d = diagnosis_row r kd snapshot outcome in
              let kept = lawful.inserts d (payload_of r outcome) w h in
              after_insert-Backed d outcome (r.insert_diagnosis d (payload_of r outcome) w).0
                (r.insert_diagnosis d (payload_of r outcome) w).1 kept.0
                (λ accepted.
                  subst (λ x. Stored x name (r.insert_diagnosis d (payload_of r outcome) w).1) here
                    (subst
                      (λ x. Stored kd.namespace x (r.insert_diagnosis d (payload_of r outcome) w).1)
                      there (kept.1 accepted))))
        ]

    diagnose-Backed :
        (snapshot : Bytes) (w : W)
        → Backed w
        → Backed (diagnose r t namespace name kd provider model snapshot w).1
    unfolding diagnose agent_of
    diagnose-Backed snapshot w h =
        let result = run (agent_of r t namespace name kd provider model) snapshot w in
        conclude-Backed snapshot result.0 _ (
          (backed r lawful).observes _ _ (
            (backed r lawful).observes _ _ (
              run-keeps Backed (agent_of r t namespace name kd provider model)
                (record { completes = lawful.completes; executes = lawful.executes }) snapshot w
                h)))

    built-Backed :
        (build : Option (ObjectRef → W → Result Snapshot × W)) (w : W)
        → r.build_snapshot ≡ build
        → Backed w
        → Backed (built r t namespace name kd provider model build w).1
    built-Backed none w same h = h
    built-Backed (some build) w same h = lawful.builds build _ w same h

    enrich_and_diagnose-Backed :
        (w : W) → Backed w → Backed (enrich_and_diagnose r t namespace name kd provider model w).1
    unfolding enrich_and_diagnose
    enrich_and_diagnose-Backed w h = diagnose-Backed _ _ (built-Backed r.build_snapshot w refl h)

  after_refetch-Backed :
      (provider model : String) (answer : Result KscribeDiagnosis) (w : W)
      → Backed w
      → ((kd : KscribeDiagnosis) → answer ≡ ok kd → (kd.namespace ≡ namespace) × (kd.name ≡ name))
      → Backed (after_refetch r t namespace name provider model answer w).1
  after_refetch-Backed provider model (err e) w h found = h
  after_refetch-Backed provider model (ok kd) w h found =
      enrich_and_diagnose-Backed kd provider model (found kd refl).0 (found kd refl).1 w h

  after_started-Backed :
      (kd : KscribeDiagnosis) (provider model : String) (failure : Option Error) (w : W)
      → Backed w
      → Backed (after_started r t namespace name kd provider model failure w).1
  unfolding publish_phase
  after_started-Backed kd provider model (some e) w h = h
  after_started-Backed kd provider model none w h =
      let told = (backed r lawful).publishes _ _ w h in
      after_refetch-Backed provider model _ _ ((backed r lawful).fetches namespace name _ told)
        (λ kd' same.
          let (here, (there, _)) = lawful.answers namespace name _ kd' same told in (here, there))

  after_mirrored-Backed :
      (kd : KscribeDiagnosis) (provider model : String) (failure : Option Error) (w : W)
      → Backed w
      → Backed (after_mirrored r t namespace name kd provider model failure w).1
  unfolding mark_started
  after_mirrored-Backed kd provider model (some e) w h = h
  after_mirrored-Backed kd provider model none w h = after_started-Backed kd provider model _ _ (
      unflagged-Backed r lawful namespace name (mark_started r t.started_at provider model)
        (λ o. (refl, refl)) (started-Sets r lawful t.started_at provider model) w h)

  start-Backed :
      (kd : KscribeDiagnosis) (w : W) → Backed w → Backed (start r t namespace name kd w).1
  unfolding start
  start-Backed kd w h =
      after_mirrored-Backed kd (effective_llm_provider r kd) (effective_llm_model r kd) _ _
        ((backed r lawful).upserts _ w h)

  throttle-Backed :
      (kd : KscribeDiagnosis) (w : W) → Backed w → Backed (throttle r t namespace name kd w).1
  unfolding throttle mark_throttled
  throttle-Backed kd w h =
      unflagged-Backed r lawful namespace name (mark_throttled r) (λ o. (refl, refl))
        (throttled-Sets r lawful) _ ((backed r lawful).observes _ w h)

  act-Backed :
      (kd : KscribeDiagnosis) (d : Decision) (l : Option RateLimiter) (w : W)
      → Backed w
      → Backed (act r t namespace name kd d l w).1.1
  unfolding mirror_terminal
  act-Backed kd proceed l w h = elim (Bool-cases (allow l t.allowed_at).1) [
    | inl a ↦ rw a (start-Backed kd w h)
    | inr b ↦ rw b (throttle-Backed kd w h)
  ]
  act-Backed kd mirror l w h = (backed r lawful).upserts (incident_from_diagnosis kd) w h
  act-Backed kd skip l w h = h

  after_get-Backed :
      (answer : Result KscribeDiagnosis) (l : Option RateLimiter) (w : W)
      → Backed w
      → Backed (after_get r t namespace name answer l w).1.1
  after_get-Backed (err e) l w h = h
  after_get-Backed (ok kd) l w h = act-Backed kd (decide kd t.checked_at) l w h

-- Where every object that says it is persisted has its row in the store, it is so after a call of
-- Reconcile too, on every path: a refused insert, a failed model call, a conflict, a retry. The
-- outside world is one that keeps the laws of `Lawful`.
pub reconcile-Backed :
    {W : Type 0} (r : Reconciler W) {Backed : W → Type 0} {Stored : String → String → W → Type 0}
    → Lawful r Backed Stored
    → (t : Readings) (namespace name : String) (l : Option RateLimiter) (w : W) → Backed w
    → Backed (reconcile r t namespace name l w).1.1
unfolding reconcile
reconcile-Backed r lawful t namespace name l w h =
    after_get-Backed r lawful t namespace name _ l _ ((backed r lawful).fetches namespace name w h)
