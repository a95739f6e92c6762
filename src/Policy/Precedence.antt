-- ===== src/Policy/Precedence.antt =====
-- Which policy wins, whatever the API server answers.
use kscribe.Prelude.{Bytes, List, String, [], false, true, ◌∷◌, ◌≡◌, ◌≢◌, ◌⊎◌}
use kscribe.Api.{DiagnosisPolicy}
use kscribe.Config.{Config}
use kscribe.Cluster.{Error, wrap, Result, ok, err, Client, is_not_found}
use kscribe.Policy.{from_config, merge_with_config, ResolvedPolicy}

module _ {W : Type 0} (client : Client W) (event_ns operator_ns : String) (cfg : Config)
    (w : W) where
  -- the answer to the list of the event's namespace, and the state after it
  abbrev pub answered : Result (List DiagnosisPolicy)
  answered = (client.list_policies event_ns w).0

  abbrev pub listed : W
  listed = (client.list_policies event_ns w).1

  -- there is an operator's namespace, and it is not the event's
  abbrev pub Elsewhere : Type 0
  Elsewhere = (operator_ns ≢ "") × (operator_ns ≢ event_ns)

  -- The six ways to choose, each with what the server answered.
  pub data Chosen : Result ResolvedPolicy → Type 0 where
    by_event :
        (p : DiagnosisPolicy) (rest : List DiagnosisPolicy)
        → answered ≡ ok (p ∷ rest)
        → Chosen (ok (merge_with_config p cfg))
    by_operator :
        answered ≡ ok []
        → (operator_ns ≡ "") ⊎ (operator_ns ≡ event_ns)
        → Chosen (ok (from_config cfg))
    no_default :
        (e : Error)
        → answered ≡ ok []
        → Elsewhere
        → (client.get_policy operator_ns "default" listed).0 ≡ err e
        → is_not_found e ≡ true
        → Chosen (ok (from_config cfg))
    by_default :
        (p : DiagnosisPolicy)
        → answered ≡ ok []
        → Elsewhere
        → (client.get_policy operator_ns "default" listed).0 ≡ ok p
        → Chosen (ok (merge_with_config p cfg))
    list_failed : (e : Error) (text : Bytes) → answered ≡ err e → Chosen (err (wrap text e))
    default_failed :
        (e : Error) (text : Bytes)
        → answered ≡ ok []
        → Elsewhere
        → (client.get_policy operator_ns "default" listed).0 ≡ err e
        → is_not_found e ≡ false
        → Chosen (err (wrap text e))
