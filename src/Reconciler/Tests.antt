-- ===== src/Reconciler/Tests.antt =====
-- Reconcile against a concrete world: one object in the API server, and whether its row is stored.
use kscribe.Prelude.{
  Bool, Bool-cases, String, [], arith, bytes, eq_iff, false, if◌then◌else◌, inl, inr, none, refl,
  some, true, ℤ, ◌&&◌, ◌==◌, ◌↔◌, ◌∷◌, ◌≡◌,
}
use mathlib.Core.Bool.{false≢true}
use mathlib.Core.Path.{subst}
use kscribe.Api.{KscribeDiagnosis, DiagnosisPhase, done, diagnosing, pending, empty_status}
use kscribe.Errors.{not_found, Result, ok, err}
use kscribe.Cluster.{Client}
use kscribe.Limiter.{RateLimiter}
use kscribe.Agent.Schema.{message_of, Response}
use kscribe.Store.{upsert_incident, find_incident}
use kscribe.Store.Schema.{Incident, Db}
use kscribe.Reconciler.{Reconciler, Readings, reply_with, has_storage_error, decide, skip}
use kscribe.Reconciler.Flow.{reconcile}
use kscribe.Reconciler.Gate.{Shows, settled_shown}
use kscribe.Reconciler.Due.{InProgress, decided_when-IsDue}
use kscribe.Reconciler.Ordering.{Keeps, Lawful}
use kscribe.Reconciler.Durable.{reconcile-Backed}

-- The object that the server holds, and whether the store has its row.
abbrev World : Type 0
World = KscribeDiagnosis × Bool

abbrev fetched : String → String → KscribeDiagnosis → Result KscribeDiagnosis
fetched ns name kd = if kd.namespace == ns && kd.name == name then ok kd else err (not_found [])

abbrev server : Client World
server = record {
  get_event = λ ns name w. (err (not_found []), w);
  list_policies = λ ns w. (ok [], w);
  get_policy = λ ns name w. (err (not_found []), w);
  get_diagnosis = λ ns name w. (fetched ns name w.0, w);
  list_diagnoses = λ w. (ok (w.0 ∷ []), w);
  create_diagnosis = λ kd w. (none, w);
  update_diagnosis = λ kd w. (none, w);
  update_status = λ kd w. (none, (kd, w.1));
  delete_diagnosis = λ kd w. (none, w);
}

abbrev answer : Response
answer = record {
  choices =
      (record { message = message_of "assistant" (bytes "cause"); finish_reason = "stop" }) ∷ [];
  usage = record { total_tokens = ℤ.pos 7 };
}

abbrev operator : Reconciler World
operator = record {
  client = server;
  upsert_incident = λ i w. (none, w);
  insert_diagnosis = λ d p w. (none, (w.0, true));
  agent_provider = record { complete = λ req w. (ok answer, w) };
  tool_executor = none;
  tools = [];
  unmarshal_rca = λ content. ok (record {
    summary = content;
    root_cause = content;
    contributing_factors = [];
    remediation_steps = [];
    confidence = 0;
    reasoning = [];
  });
  build_snapshot = none;
  patterns = record { replace_all = λ r s p. s; sensitive_key = λ name. false };
  marshal_snapshot = λ s. ok (bytes "{}");
  marshal_trace = λ steps. bytes "[]";
  publish = none;
  notify = none;
  observe = λ m w. w;
  set_condition = λ conditions c. c ∷ conditions;
  retry_on_conflict = λ attempt w. attempt w;
  llm_provider = "openai";
  llm_model = "small";
  max_iter = ℤ.pos 5;
}

abbrev of_phase : DiagnosisPhase → KscribeDiagnosis
of_phase phase = record {
  namespace = "shop";
  name = "ksd-1";
  generation = 1;
  creation_timestamp = 0;
  labels = [];
  spec = record {
    involved_object_name = "cart";
    involved_object_namespace = "shop";
    involved_object_kind = "Pod";
    reason = "BackOff";
    message = bytes "restarting";
    event_uid = "1";
    count = ℤ.pos 1;
    first_timestamp = none;
    last_timestamp = none;
    policy_ref = "";
    llm_provider = "";
    llm_model = "";
    llm_base_url = "";
    max_iterations = none;
    redact = none;
  };
  status = record empty_status { phase = phase; started_at = some 1 };
}

abbrev readings : Readings
readings = record {
  checked_at = 5;
  allowed_at = 5;
  started_at = 5;
  elapsed = 3;
  completed_at = 8;
  jitter = 7;
}

abbrev Stored : String → String → World → Type 0
Stored ns name w = w.1 ≡ true

abbrev Backed : World → Type 0
Backed w = w.0.status.persisted ≡ true → w.1 ≡ true

fetched-ok :
    (ns name : String) (held kd : KscribeDiagnosis)
    → fetched ns name held ≡ ok kd
    → (held ≡ kd) × ((held.namespace ≡ ns) × (held.name ≡ name))
fetched-ok ns name held kd h = elim (Bool-cases (held.namespace == ns && held.name == name)) [
  | inl hit ↦
      let same : ok held ≡ ok kd = rw hit at h in
      (
        cc,
        (
          ground (arith, eq_iff held.namespace ns, hit),
          ground (arith, eq_iff held.namespace ns, eq_iff held.name name, hit),
        ),
      )
  | inr miss ↦ absurd (ground (arith, h, miss))
]

answers-named :
    (ns name : String) (held kd : KscribeDiagnosis) (b : Bool)
    → fetched ns name held ≡ ok kd
    → Backed (held, b)
    → (kd.namespace ≡ ns) × ((kd.name ≡ name) × (kd.status.persisted ≡ true → b ≡ true))
answers-named ns name held kd b h backed =
    let (same, (e, e')) = fetched-ok ns name held kd h in
    subst (λ k. (k.namespace ≡ ns) × ((k.name ≡ name) × (k.status.persisted ≡ true → b ≡ true)))
      same (e, (e', backed))

all-Keeps : (P : World → Type 0) → Keeps operator P
all-Keeps P = record {
  fetches = λ ns name w h. h;
  upserts = λ i w h. h;
  observes = λ m w h. h;
  notifies = λ n w h. h;
  publishes = λ id html w h. h;
}

operator-Lawful : Lawful operator Backed Stored
operator-Lawful = record {
  keeps_backed = all-Keeps Backed;
  keeps_stored = λ ns name. all-Keeps (Stored ns name);
  completes = λ req w h. h;
  executes = λ x name args w absent h. cc;
  builds = λ build o w absent h. cc;
  answers = λ ns name w kd h backed. answers-named ns name w.0 kd w.1 h backed;
  updates = λ o w ready h. ready;
  updates_keep_rows = λ o ns name w h. h;
  inserts = λ d p w h. (λ flag. refl, λ accepted. refl);
  retries = λ P attempt once w h. once w h;
}

abbrev waiting : World
waiting = (of_phase pending, false)

not_persisted : Backed waiting
not_persisted h = absurd (false≢true h)

reconcile-Backed_example : Backed (reconcile operator readings "shop" "ksd-1" none waiting).1.1
reconcile-Backed_example =
    reconcile-Backed operator operator-Lawful readings "shop" "ksd-1" none waiting not_persisted

-- The same operator against a server of one object, which it finds by any key, and a store.
abbrev Shop : Type 0
Shop = KscribeDiagnosis × Db

abbrev empty_db : Db
empty_db = record {
  incidents = [];
  diagnoses = [];
  chat_messages = [];
  last_diagnosis = 0;
  last_message = 0;
}

abbrev shop_operator : Reconciler Shop
shop_operator = record {
  client = record {
    get_event = λ ns name w. (err (not_found []), w);
    list_policies = λ ns w. (ok [], w);
    get_policy = λ ns name w. (err (not_found []), w);
    get_diagnosis = λ ns name w. (ok w.0, w);
    list_diagnoses = λ w. (ok (w.0 ∷ []), w);
    create_diagnosis = λ kd w. (none, w);
    update_diagnosis = λ kd w. (none, w);
    update_status = λ kd w. (none, (kd, w.1));
    delete_diagnosis = λ kd w. (none, w);
  };
  upsert_incident = λ i w. let (failure, db) = upsert_incident none 9 i w.1 in (failure, (w.0, db));
  insert_diagnosis = λ d p w. (none, w);
  agent_provider = record { complete = λ req w. (ok answer, w) };
  tool_executor = none;
  tools = [];
  unmarshal_rca = operator.unmarshal_rca;
  build_snapshot = none;
  patterns = operator.patterns;
  marshal_snapshot = operator.marshal_snapshot;
  marshal_trace = operator.marshal_trace;
  publish = none;
  notify = none;
  observe = λ m w. w;
  set_condition = operator.set_condition;
  retry_on_conflict = λ attempt w. attempt w;
  llm_provider = "openai";
  llm_model = "small";
  max_iter = ℤ.pos 5;
}

writes :
    (i : Incident) (w : Shop)
    → ((shop_operator.upsert_incident i w).0 ≡ none)
      × ((shop_operator.upsert_incident i w).1.1 ≡ (upsert_incident none 9 i w.1).1)
unfolding upsert_incident
writes i w = (refl, refl)

settled_shown_example :
    let (reply, (l', w')) =
      reconcile shop_operator readings "shop" "ksd-1" none (of_phase done, empty_db) in
    (row : Incident) × (find_incident "shop" "ksd-1" w'.1.incidents ≡ some row)
    × Shows (of_phase done) row
    × (reply ≡ reply_with none)
    × (l' ≡ none)
settled_shown_example =
    settled_shown shop_operator readings "shop" "ksd-1" none (of_phase done)
      (of_phase done, empty_db) (λ w. w.1) 9 writes refl (inl refl)

no_storage_error : has_storage_error (of_phase diagnosing) ≡ false
unfolding has_storage_error
no_storage_error = refl

decided_when-IsDue_example :
    (decide (of_phase diagnosing) 5 ≡ skip) ↔ InProgress (of_phase diagnosing) 5
decided_when-IsDue_example = decided_when-IsDue (of_phase diagnosing) 5 skip

left_alone : decide (of_phase diagnosing) 5 ≡ skip
left_alone =
    (decided_when-IsDue (of_phase diagnosing) 5 skip).1
      (refl, refl, no_storage_error, (1, refl, omega arith))

abbrev exhausted : RateLimiter
exhausted = record { limit = ℤ.pos 1; window = 100; starts = 1 ∷ [] }
