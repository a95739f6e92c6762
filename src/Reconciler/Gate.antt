-- ===== src/Reconciler/Gate.antt =====
-- What Reconcile does with an object before any diagnosis starts: a settled object is mirrored, a
-- throttled one waits.
use kscribe.Prelude.{Option, String, eq_refl, none, refl, some, true, ℕ, ◌≡◌}
use kscribe.Api.{phase_string, KscribeDiagnosis}
use kscribe.Errors.{Error, ok}
use kscribe.Limiter.{RateLimiter}
use kscribe.Store.{is_incident, new_row, merge_row, upsert_incident, find_incident}
use kscribe.Store.Schema.{Incident, Db, fmt_time_ptr}
use kscribe.Store.Upsert.{stored, find-upsert_incident}
use kscribe.Reconciler.{Reconciler, Readings, Metric, reply_with, incident_from_diagnosis}
use kscribe.Reconciler.Flow.{reconcile, mirror_terminal}
use kscribe.Reconciler.Due.{IsSettled, settled_mirrors}

-- The row of an object's key has its status; the start and the completion are cut to seconds.
pub record Shows (kd : KscribeDiagnosis) (row : Incident) : Type 0 where
  phase : row.phase ≡ phase_string kd.status.phase
  persisted : row.persisted ≡ kd.status.persisted
  prompt_redacted : row.prompt_redacted ≡ kd.status.prompt_redacted
  tokens : row.tokens_used ≡ kd.status.tokens_used
  started : row.started_at ≡ fmt_time_ptr kd.status.started_at
  completed : row.completed_at ≡ fmt_time_ptr kd.status.completed_at

stored-Shows :
    (kd : KscribeDiagnosis) (now : ℕ) (old : Option Incident)
    → Shows kd (stored old (new_row now (incident_from_diagnosis kd)))
unfolding new_row merge_row incident_from_diagnosis
stored-Shows kd now none = record {
  phase = refl;
  persisted = refl;
  prompt_redacted = refl;
  tokens = refl;
  started = refl;
  completed = refl;
}
stored-Shows kd now (some old) = record {
  phase = refl;
  persisted = refl;
  prompt_redacted = refl;
  tokens = refl;
  started = refl;
  completed = refl;
}

own_key :
    (kd : KscribeDiagnosis) → is_incident kd.namespace kd.name (incident_from_diagnosis kd) ≡ true
unfolding incident_from_diagnosis
own_key kd = rw (eq_refl kd.namespace, eq_refl kd.name) refl

-- Where the reconciler writes to the store, Reconcile of a settled object leaves a row of its key in the
-- store that shows the object's status, whatever the row was before; it reports no error, asks for
-- nothing later and takes nothing from the limiter.
pub settled_shown :
    {W : Type 0} (r : Reconciler W) (t : Readings) (namespace name : String)
    (l : Option RateLimiter) (kd : KscribeDiagnosis) (w : W) (db_of : W → Db) (now : ℕ)
    → ((i : Incident) (v : W)
        → ((r.upsert_incident i v).0 ≡ none)
          × (db_of (r.upsert_incident i v).1 ≡ (upsert_incident none now i (db_of v)).1))
    → (r.client.get_diagnosis namespace name w).0 ≡ ok kd
    → IsSettled kd
    → let (reply, (l', w')) = reconcile r t namespace name l w in
      (row : Incident) × (find_incident kd.namespace kd.name (db_of w').incidents ≡ some row)
      × Shows kd row
      × (reply ≡ reply_with none)
      × (l' ≡ l)
unfolding reconcile mirror_terminal incident_from_diagnosis
settled_shown r t namespace name l kd w db_of now writes found settled =
    let v = (r.client.get_diagnosis namespace name w).1 in
    let i = incident_from_diagnosis kd in
    rw found (
      rw (settled_mirrors kd t.checked_at settled) (
        stored (find_incident kd.namespace kd.name (db_of v).incidents) (new_row now i),
        rw (writes i v).1
            (rw (find-upsert_incident kd.namespace kd.name now i (db_of v)) (rw (own_key kd) refl)),
        stored-Shows kd now (find_incident kd.namespace kd.name (db_of v).incidents),
        rw (writes i v).0 refl,
        refl,
      ))

-- An API server that serves one object, `object_of` the world, and takes its updates; `retry` runs an
-- attempt that meets no error once.
pub record Serves {W : Type 0} (r : Reconciler W) (namespace name : String)
    (object_of : W → KscribeDiagnosis) : Type 0 where
  pub fetches : (w : W) → r.client.get_diagnosis namespace name w ≡ (ok (object_of w), w)
  pub accepts : (o : KscribeDiagnosis) (w : W) → (r.client.update_status o w).0 ≡ none
  pub updates : (o : KscribeDiagnosis) (w : W) → object_of (r.client.update_status o w).1 ≡ o
  pub observes : (m : Metric) (w : W) → object_of (r.observe m w) ≡ object_of w
  pub retries :
      (once : W → Option Error × W) (w : W)
      → (once w).0 ≡ none
      → r.retry_on_conflict once w ≡ once w
