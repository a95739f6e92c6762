-- ===== src/Reconciler/Flow.antt =====
-- `Reconcile` of internal/controller/kscribediagnosis_controller.go, from the first fetch on; what follows
-- the second fetch is in Reconciler/Conclude. Each early return of the source is a branch; an error that
-- the source discards is discarded here too.
use kscribe.Prelude.{Bool, Option, String, false, if◌then◌else◌, none, some, ℤ, ◌*◌, ◌+◌}
use kscribe.Api.{diagnosing, KscribeDiagnosis}
use kscribe.Errors.{Error, ignore_not_found, Result, ok, err}
use kscribe.Limiter.{RateLimiter, allow}
use kscribe.Reconciler.{
  diagnoses_throttled_total, Reconciler, Readings, Reply, minute, reply_with, wrapped,
  incident_from_diagnosis, Decision, proceed, mirror, skip, decide, effective_llm_provider,
  effective_llm_model, publish_phase, patch_status,
}
use kscribe.Reconciler.Marks.{mark_throttled, mark_started}
use kscribe.Reconciler.Conclude.{run_incident, enrich_and_diagnose}

-- `namespace` and `name` are those of the request.
module _ {W : Type 0} (r : Reconciler W) where
  module _ (t : Readings) (namespace name : String) where
    abbrev pub after_refetch : String → String → Result KscribeDiagnosis → W → Reply × W
    after_refetch provider model (err e) w = (reply_with (ignore_not_found e), w)
    after_refetch provider model (ok kd) w =
        enrich_and_diagnose r t namespace name kd provider model w

    abbrev pub after_started : KscribeDiagnosis → String → String → Option Error → W → Reply × W
    after_started kd provider model (some e) w =
        (reply_with (wrapped "update status (diagnosing): " (some e)), w)
    after_started kd provider model none w =
        let w1 = publish_phase r namespace name diagnosing w in
        let (answer, w2) = r.client.get_diagnosis namespace name w1 in
        after_refetch provider model answer w2

    abbrev pub after_mirrored : KscribeDiagnosis → String → String → Option Error → W → Reply × W
    after_mirrored kd provider model (some e) w =
        (reply_with (wrapped "upsert incident (diagnosing): " (some e)), w)
    after_mirrored kd provider model none w =
        let (failure, w1) =
          patch_status r namespace name (mark_started r t.started_at provider model) w in
        after_started kd provider model failure w1

    -- step 1: the mirror says Diagnosing before the object does
    unfoldable pub start : KscribeDiagnosis → W → Reply × W
    start kd w =
        let provider = effective_llm_provider r kd in
        let model = effective_llm_model r kd in
        let (failure, w1) =
          r.upsert_incident
            (run_incident kd diagnosing t.started_at none provider model (ℤ.pos 0) false) w in
        after_mirrored kd provider model failure w1

    unfoldable pub throttle : KscribeDiagnosis → W → Reply × W
    throttle kd w =
        let w1 = r.observe diagnoses_throttled_total w in
        let (ignored, w2) = patch_status r namespace name (mark_throttled r) w1 in
        (record { requeue_after = 2 * minute + t.jitter; error = none }, w2)

    unfoldable pub mirror_terminal : KscribeDiagnosis → W → Reply × W
    mirror_terminal kd w =
        let (failure, w1) = r.upsert_incident (incident_from_diagnosis kd) w in
        (reply_with (wrapped "upsert incident (terminal mirror): " failure), w1)

    abbrev pub admit :
        KscribeDiagnosis → Option RateLimiter × Bool → W → Reply × (Option RateLimiter × W)
    admit kd (l, admitted) w =
        let (reply, w') = if admitted then start kd w else throttle kd w in (reply, (l, w'))

    abbrev pub act :
        KscribeDiagnosis → Decision → Option RateLimiter → W → Reply × (Option RateLimiter × W)
    act kd proceed l w = admit kd (allow l t.allowed_at) w
    act kd mirror l w = let (reply, w') = mirror_terminal kd w in (reply, (l, w'))
    act kd skip l w = (reply_with none, (l, w))

    abbrev pub after_get :
        Result KscribeDiagnosis → Option RateLimiter → W → Reply × (Option RateLimiter × W)
    after_get (err e) l w = (reply_with (ignore_not_found e), (l, w))
    after_get (ok kd) l w = act kd (decide kd t.checked_at) l w

    unfoldable pub reconcile : Option RateLimiter → W → Reply × (Option RateLimiter × W)
    reconcile l w =
        let (answer, w') = r.client.get_diagnosis namespace name w in after_get answer l w'
