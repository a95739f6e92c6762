-- ===== src/Watcher/Backfill.antt =====
-- Filling the missing fields of an existing diagnosis.
use kscribe.Prelude.{
  Bytes, Option, String, [], arith, eq_iff, false, is_empty, is_zero, none, refl, some, ℤ, ◌∷◌, ◌≡◌,
  ◌≢◌,
}
use kscribe.Api.{KscribeDiagnosisSpec}
use kscribe.Cluster.{Event}
use kscribe.Policy.{ResolvedPolicy}
use kscribe.Watcher.{backfill_spec, fill_string, fill_bytes, fill_count, fill_option}

-- A field that was set stays; one that was not takes the value.
abbrev Kept : String → String → Type 0
Kept field result = field ≢ "" → result ≡ field

fill_string-again :
    (field value : String)
    → fill_string (fill_string field value).0 value ≡ ((fill_string field value).0, false)
fill_string-again field value = ground (arith, eq_iff field "", eq_iff value "")

fill_bytes-again :
    (field value : Bytes)
    → fill_bytes (fill_bytes field value).0 value ≡ ((fill_bytes field value).0, false)
fill_bytes-again [] [] = refl
fill_bytes-again [] (x ∷ xs) = refl
fill_bytes-again (y ∷ ys) value = refl

fill_count-again :
    (field value : ℤ)
    → fill_count (fill_count field value).0 value ≡ ((fill_count field value).0, false)
fill_count-again field value = ground arith

fill_option-again {ℓ} :
    {A : Type ℓ} (field value : Option A)
    → fill_option (fill_option field value).0 value ≡ ((fill_option field value).0, false)
fill_option-again none none = refl
fill_option-again none (some v) = refl
fill_option-again (some f) value = refl

module _ (s : KscribeDiagnosisSpec) (ev : Event) (policy : ResolvedPolicy) where
  -- Filling twice from the same event and policy is filling once, and the second time reports no
  -- change, so no update is sent.
  pub backfill_idempotent :
      backfill_spec (backfill_spec s ev policy).0 ev policy ≡ ((backfill_spec s ev policy).0, false)
  unfolding backfill_spec
  backfill_idempotent = simp (
    fill_string-again s.involved_object_name ev.involved_object.name,
    fill_string-again s.involved_object_namespace ev.involved_object.namespace,
    fill_string-again s.involved_object_kind ev.involved_object.kind,
    fill_string-again s.reason ev.reason,
    fill_bytes-again s.message ev.message,
    fill_string-again s.event_uid ev.uid,
    fill_string-again s.policy_ref policy.policy_ref,
    fill_string-again s.llm_provider policy.llm_provider,
    fill_string-again s.llm_model policy.llm_model,
    fill_string-again s.llm_base_url policy.llm_base_url,
    fill_count-again s.count ev.count,
    fill_option-again s.first_timestamp ev.first_timestamp,
    fill_option-again s.last_timestamp ev.last_timestamp,
    fill_option-again s.max_iterations policy.max_iterations,
    fill_option-again s.redact policy.redact,
  )

-- What was set in `s` is the same in `r`.
pub record Preserves (s r : KscribeDiagnosisSpec) : Type 0 where
  object_name : Kept s.involved_object_name r.involved_object_name
  object_namespace : Kept s.involved_object_namespace r.involved_object_namespace
  object_kind : Kept s.involved_object_kind r.involved_object_kind
  reason : Kept s.reason r.reason
  message : is_empty s.message ≡ false → r.message ≡ s.message
  event_uid : Kept s.event_uid r.event_uid
  policy_ref : Kept s.policy_ref r.policy_ref
  llm_provider : Kept s.llm_provider r.llm_provider
  llm_model : Kept s.llm_model r.llm_model
  llm_base_url : Kept s.llm_base_url r.llm_base_url
  count : is_zero s.count ≡ false → r.count ≡ s.count
  first : s.first_timestamp ≢ none → r.first_timestamp ≡ s.first_timestamp
  last : s.last_timestamp ≢ none → r.last_timestamp ≡ s.last_timestamp
  max_iterations : s.max_iterations ≢ none → r.max_iterations ≡ s.max_iterations
  redact : s.redact ≢ none → r.redact ≡ s.redact

fill_string-Kept : (field value : String) → Kept field (fill_string field value).0
fill_string-Kept field value set = ground (arith, eq_iff field "")

fill_option-set {ℓ} :
    {A : Type ℓ} (field value : Option A) → field ≢ none → (fill_option field value).0 ≡ field
fill_option-set none value set = absurd (set refl)
fill_option-set (some f) value set = refl

module _ (s : KscribeDiagnosisSpec) (ev : Event) (policy : ResolvedPolicy) where
  -- No field that was set is overwritten.
  pub backfill-Preserves : Preserves s (backfill_spec s ev policy).0
  unfolding backfill_spec
  backfill-Preserves = record {
    object_name = fill_string-Kept s.involved_object_name ev.involved_object.name;
    object_namespace = fill_string-Kept s.involved_object_namespace ev.involved_object.namespace;
    object_kind = fill_string-Kept s.involved_object_kind ev.involved_object.kind;
    reason = fill_string-Kept s.reason ev.reason;
    message = λ h. ground arith;
    event_uid = fill_string-Kept s.event_uid ev.uid;
    policy_ref = fill_string-Kept s.policy_ref policy.policy_ref;
    llm_provider = fill_string-Kept s.llm_provider policy.llm_provider;
    llm_model = fill_string-Kept s.llm_model policy.llm_model;
    llm_base_url = fill_string-Kept s.llm_base_url policy.llm_base_url;
    count = λ h. ground arith;
    first = fill_option-set s.first_timestamp ev.first_timestamp;
    last = fill_option-set s.last_timestamp ev.last_timestamp;
    max_iterations = fill_option-set s.max_iterations policy.max_iterations;
    redact = fill_option-set s.redact policy.redact;
  }
