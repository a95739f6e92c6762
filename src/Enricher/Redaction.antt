-- ===== src/Enricher/Redaction.antt =====
-- What redaction does to every field of a snapshot.
use kscribe.Prelude.{
  All, Bytes, List, Option, String, [], ap, false, length, map, none, refl, some, suc, true, ◌∷◌,
  ◌≡◌,
}
use mathlib.Core.Option
use kscribe.Enricher.{
  EnvVar, PodLog, PodContext, EventSummary, NodeCondition, DeploymentStatus, ReplicaSetStatus,
  Snapshot, redacted_placeholder, Patterns, redact, redact_env_value, redact_pod, redact_snapshot,
}

-- a predicate of what is there
abbrev Each : {A : Type 0} → (A → Type 0) → Option A → Type 0
Each P none = Unit
Each P (some a) = P a

All-map :
    {A B : Type 0} (P : B → Type 0) (f : A → B) (xs : List A)
    → ((a : A) → P (f a))
    → All P (map f xs)
All-map P f [] h = tt
All-map P f (a ∷ rest) h = (h a, All-map P f rest h)

Each-map :
    {A B : Type 0} (P : B → Type 0) (f : A → B) (o : Option A)
    → ((a : A) → P (f a))
    → Each P (Option.map f o)
Each-map P f none h = tt
Each-map P f (some a) h = h a

module _ (x : Patterns) where
  -- a text that came out of the redaction
  abbrev IsRedacted : Bytes → Type 0
  IsRedacted t = (s : Bytes) × (t ≡ redact x s)

  -- the value of a variable: the placeholder if its name is sensitive
  abbrev EnvIsRedacted : EnvVar → Type 0
  EnvIsRedacted e =
      (x.sensitive_key e.name ≡ true → e.value ≡ redacted_placeholder)
      × (x.sensitive_key e.name ≡ false → IsRedacted e.value)

  pub record PodIsRedacted (pc : PodContext) : Type 0 where
    annotations : All (λ (a : String × Bytes). IsRedacted a.1) pc.annotations
    env_vars : All EnvIsRedacted pc.env_vars
    logs : All (λ (l : PodLog). IsRedacted l.lines) pc.logs

  -- Every free text of a snapshot came out of the redaction, apart from `partly`.
  pub record IsSafe (s : Snapshot) : Type 0 where
    message : IsRedacted s.message
    pods : All PodIsRedacted s.pod_contexts
    events : All (λ (e : EventSummary). IsRedacted e.message) s.related_events
    nodes : All (λ (c : NodeCondition). IsRedacted c.message) s.node_conditions
    deployment : Each (λ (d : DeploymentStatus). All IsRedacted d.conditions) s.deployment_status
    replica_set : Each (λ (r : ReplicaSetStatus). All IsRedacted r.conditions) s.replica_set_status

  redact_env_value-safe :
      (e : EnvVar) → EnvIsRedacted (record e { value = redact_env_value x e.name e.value })
  unfolding redact_env_value
  redact_env_value-safe e = (λ h. rw h, λ h. (e.value, rw h))

  redact_pod-safe : (pc : PodContext) → PodIsRedacted (redact_pod x pc)
  unfolding redact_pod
  redact_pod-safe pc = record {
    annotations = All-map _ _ pc.annotations (λ a. (a.1, refl));
    env_vars = All-map _ _ pc.env_vars redact_env_value-safe;
    logs = All-map _ _ pc.logs (λ l. (l.lines, refl));
  }

  -- Every message, log, annotation and condition of a redacted snapshot came out of the redaction,
  -- and every variable with a sensitive name holds the placeholder.
  pub redact_snapshot-IsSafe : (s : Snapshot) → IsSafe (redact_snapshot x s)
  unfolding redact_snapshot
  redact_snapshot-IsSafe s = record {
    message = (s.message, refl);
    pods = All-map _ _ s.pod_contexts redact_pod-safe;
    events = All-map _ _ s.related_events (λ e. (e.message, refl));
    nodes = All-map _ _ s.node_conditions (λ c. (c.message, refl));
    deployment = Each-map _ _ s.deployment_status (λ d. All-map _ _ d.conditions (λ c. (c, refl)));
    replica_set =
        Each-map _ _ s.replica_set_status (λ r. All-map _ _ r.conditions (λ c. (c, refl)));
  }

-- Redaction keeps the identity of the event and its object, the number of entries of every list, and
-- the list of collection failures, whose texts it does not read.
pub record SameShape (s t : Snapshot) : Type 0 where
  uid : t.event_uid ≡ s.event_uid
  reason : t.reason ≡ s.reason
  namespace : t.namespace ≡ s.namespace
  kind : t.object_kind ≡ s.object_kind
  name : t.object_name ≡ s.object_name
  pods :
      map (λ (p : PodContext). p.pod_name) t.pod_contexts
      ≡ map (λ (p : PodContext). p.pod_name) s.pod_contexts
  events : length t.related_events ≡ length s.related_events
  nodes : length t.node_conditions ≡ length s.node_conditions
  failures : t.partly ≡ s.partly

length-map : {A B : Type 0} (f : A → B) (xs : List A) → length (map f xs) ≡ length xs
length-map f [] = refl
length-map f (a ∷ rest) = ap suc (length-map f rest)

pod_names :
    (x : Patterns) (pods : List PodContext)
    → map (λ (p : PodContext). p.pod_name) (map (redact_pod x) pods)
      ≡ map (λ (p : PodContext). p.pod_name) pods
unfolding redact_pod
pod_names x [] = refl
pod_names x (p ∷ rest) = ap (λ names. p.pod_name ∷ names) (pod_names x rest)

-- A redacted snapshot is of the same event, object and pods, with as many entries, and with its
-- collection failures as they were.
pub redact_snapshot-SameShape : (x : Patterns) (s : Snapshot) → SameShape s (redact_snapshot x s)
unfolding redact_snapshot
redact_snapshot-SameShape x s = record {
  uid = refl;
  reason = refl;
  namespace = refl;
  kind = refl;
  name = refl;
  pods = pod_names x s.pod_contexts;
  events = length-map _ s.related_events;
  nodes = length-map _ s.node_conditions;
  failures = refl;
}
