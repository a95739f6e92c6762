-- ===== src/Policy.antt =====
-- internal/controller/diagnosispolicy_controller.go: the policy in force for an event's namespace.
pub mod Precedence
mod Tests
use kscribe.Prelude.{
  Bool, List, Option, String, [], bytes, if◌then◌else◌, is_empty, none, not, or_default, some,
  to_int32, true, ℤ, ◌&&◌, ◌++◌, ◌==◌, ◌∷◌,
}
use kscribe.Api.{DiagnosisPolicy}
use kscribe.Config.{Config, or_else}
use kscribe.Cluster.{wrap, is_not_found, Result, ok, err, Client}

-- `event_reasons` is nil or empty where any reason is accepted.
pub record ResolvedPolicy : Type 0 where
  pub enabled : Bool
  pub event_reasons : List String
  pub llm_provider : String
  pub llm_model : String
  pub llm_base_url : String
  pub max_iterations : Option ℤ
  pub redact : Option Bool
  pub policy_ref : String

unfoldable pub from_config : Config → ResolvedPolicy
from_config cfg = record {
  enabled = true;
  event_reasons = cfg.event_reason_allowlist;
  llm_provider = cfg.llm_provider;
  llm_model = cfg.llm_model;
  llm_base_url = cfg.llm_base_url;
  max_iterations = some (to_int32 cfg.max_iterations);
  redact = some cfg.redact_enabled;
  policy_ref = "";
}

-- a pointer that is set replaces the old one
abbrev pub or_keep {ℓ} : {A : Type ℓ} → Option A → Option A → Option A
or_keep none old = old
or_keep (some value) old = some value

unfoldable pub merge_with_config : DiagnosisPolicy → Config → ResolvedPolicy
unfolding from_config
merge_with_config p cfg =
    let r = from_config cfg in
    record r {
      policy_ref = p.name;
      enabled = or_default p.spec.enabled r.enabled;
      event_reasons =
          if is_empty p.spec.event_reasons then r.event_reasons else p.spec.event_reasons;
      llm_provider = or_else p.spec.llm_provider r.llm_provider;
      llm_model = or_else p.spec.llm_model r.llm_model;
      llm_base_url = or_else p.spec.llm_base_url r.llm_base_url;
      max_iterations = or_keep p.spec.max_iterations r.max_iterations;
      redact = or_keep p.spec.redact r.redact;
    }

module _ {W : Type 0} (client : Client W) where
  -- the first policy of the namespace, if it has one
  abbrev pub first_policy : Result (List DiagnosisPolicy) → Result (Option DiagnosisPolicy)
  first_policy (err e) = err e
  first_policy (ok []) = ok none
  first_policy (ok (p ∷ rest)) = ok (some p)

  unfoldable pub find_any_policy : String → W → Result (Option DiagnosisPolicy) × W
  find_any_policy namespace w =
      let (answer, w') = client.list_policies namespace w in (first_policy answer, w')

  abbrev pub named_policy : Result DiagnosisPolicy → Result (Option DiagnosisPolicy)
  named_policy (ok p) = ok (some p)
  named_policy (err e) = if is_not_found e then ok none else err e

  unfoldable pub find_named_policy : String → String → W → Result (Option DiagnosisPolicy) × W
  find_named_policy namespace name w =
      let (answer, w') = client.get_policy namespace name w in (named_policy answer, w')

  abbrev apply_policy : Config → Option DiagnosisPolicy → ResolvedPolicy
  apply_policy cfg none = from_config cfg
  apply_policy cfg (some p) = merge_with_config p cfg

  abbrev pub after_default :
      Config → String → Result (Option DiagnosisPolicy) → Result ResolvedPolicy
  after_default cfg operator (err e) =
      err (wrap (bytes "lookup default policy in " ++ bytes operator ++ bytes ": ") e)
  after_default cfg operator (ok found) = ok (apply_policy cfg found)

  -- with no policy in the event's namespace: the operator's default, unless it is the same namespace
  abbrev pub after_any :
      String → String → Config → Result (Option DiagnosisPolicy) → W → Result ResolvedPolicy × W
  after_any event_ns operator_ns cfg (err e) w =
      (err (wrap (bytes "lookup policy in " ++ bytes event_ns ++ bytes ": ") e), w)
  after_any event_ns operator_ns cfg (ok (some p)) w = (ok (merge_with_config p cfg), w)
  after_any event_ns operator_ns cfg (ok none) w =
      if not (operator_ns == "") && not (operator_ns == event_ns)
      then (let (found, w') = find_named_policy operator_ns "default" w in
          (after_default cfg operator_ns found, w'))
      else (ok (from_config cfg), w)

  unfoldable pub resolve_policy : String → String → Config → W → Result ResolvedPolicy × W
  unfolding find_any_policy find_named_policy
  resolve_policy event_ns operator_ns cfg w =
      let (found, w') = find_any_policy event_ns w in after_any event_ns operator_ns cfg found w'
