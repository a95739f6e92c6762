-- ===== src/Watcher/Events.antt =====
-- Which events reach the API server.
use kscribe.Prelude.{
  Bool-cases, List, String, [], any_of, arith, eq_iff, false, inl, inr, none, refl, some, sym, true,
  ℕ, ◌+◌, ◌<◌, ◌==◌, ◌↔◌, ◌∷◌, ◌≡◌, ◌⊎◌,
}
use mathlib.Core.List.{Memᴰ}
use kscribe.Api.{KscribeDiagnosis, KscribeDiagnosisSpec}
use kscribe.Cluster.{Error, Event, Client, ok, is_already_exists, event_type_warning}
use kscribe.Dedup.{Deduper, should_process, process_all}
use kscribe.Dedup.Once.{accepted_once, UpTo}
use kscribe.Policy.{ResolvedPolicy}
use kscribe.Watcher.{
  Deps, event_key, reason_allowed, diagnosis_of_event, backfill_spec, create_diagnosis,
  backfill_existing_diagnosis, process_event,
}
use kscribe.Watcher.Backfill.{backfill_idempotent}

module _ {W : Type 0} (client : Client W) (deps : Deps) where
  duplicate_dropped :
      (ev : Event) (now : ℕ) (w : W) (d : Deduper)
      → should_process d (event_key ev) now ≡ (d, false)
      → process_event client deps ev now d w ≡ (none, (d, w))
  unfolding process_event
  duplicate_dropped ev now w d refused = elim (Bool-cases (ev.kind == event_type_warning)) [
    | inl warning ↦ rw (warning, refused)
    | inr normal ↦ rw normal
  ]

  -- an event that comes through the checks has left its mark
  marks :
      (ev : Event) (now : ℕ) (d : Deduper) (w : W)
      → ev.kind ≡ event_type_warning
      → (process_event client deps ev now d w).1.0 ≡ (should_process d (event_key ev) now).0
  unfolding process_event
  marks ev now d w warning = ground (arith, eq_iff ev.kind event_type_warning)

  -- Once the deduper lets a Warning event through at `now`, every event with the same key is dropped
  -- at each instant before `now` plus the TTL, whatever the deduper was asked up to then: no error,
  -- and neither the deduper nor the cluster changes. It does not matter whether a diagnosis was
  -- created for the first one.
  pub one_event_per_window :
      (ev later : Event) (now now' : ℕ) (d : Deduper) (calls : List (String × ℕ)) (w w' : W)
      → ev.kind ≡ event_type_warning
      → (should_process d (event_key ev) now).1 ≡ true
      → event_key later ≡ event_key ev
      → now' < now + d.ttl
      → UpTo now' calls
      → process_event client deps later now'
          (process_all (process_event client deps ev now d w).1.0 calls)
          w'
        ≡ (none, (process_all (process_event client deps ev now d w).1.0 calls, w'))
  one_event_per_window ev later now now' d calls w w' warning fresh same soon up =
      rw (marks ev now d w warning) (
        duplicate_dropped later now' w' (process_all (should_process d (event_key ev) now).0 calls)
          (rw same (accepted_once d (event_key ev) now now' calls fresh soon up)))

  -- An error comes only from an event that was let through.
  error_was_fresh :
      (ev : Event) (now : ℕ) (d : Deduper) (w : W) (e : Error)
      → (process_event client deps ev now d w).0 ≡ some e
      → (ev.kind ≡ event_type_warning) × ((should_process d (event_key ev) now).1 ≡ true)
  unfolding process_event
  error_was_fresh ev now d w e failed = ground (arith, eq_iff ev.kind event_type_warning)

  -- When an event ends in an error (its policy could not be read, or its diagnosis not created), the
  -- mark stays: a retry of the same event before its TTL is over ends without an error and does not
  -- reach the cluster.
  pub failure_not_retried :
      (ev : Event) (now now' : ℕ) (d : Deduper) (w w' : W) (e : Error)
      → (process_event client deps ev now d w).0 ≡ some e
      → now' < now + d.ttl
      → process_event client deps ev now' (process_event client deps ev now d w).1.0 w'
        ≡ (none, ((process_event client deps ev now d w).1.0, w'))
  unfolding process_all
  failure_not_retried ev now now' d w w' e failed soon =
      let (warning, fresh) = error_was_fresh ev now d w e failed in
      one_event_per_window ev ev now now' d [] w w' warning fresh refl soon tt

  -- Where the diagnosis of an event exists already, and its spec is one that was filled from the
  -- same event and policy, creating it again succeeds with no update: the cluster is as the server's
  -- answers to the create and the get leave it.
  pub recreate_is_quiet :
      (ev : Event) (policy : ResolvedPolicy) (w : W) (e : Error) (s : KscribeDiagnosisSpec)
      (old : KscribeDiagnosis)
      → (client.create_diagnosis (diagnosis_of_event deps ev policy) w).0 ≡ some e
      → is_already_exists e ≡ true
      → (client.get_diagnosis
          (diagnosis_of_event deps ev policy).namespace
          (diagnosis_of_event deps ev policy).name
          (client.create_diagnosis (diagnosis_of_event deps ev policy) w).1).0
        ≡ ok (record old { spec = (backfill_spec s ev policy).0 })
      → create_diagnosis client deps ev policy w ≡ (
        none,
        (client.get_diagnosis
            (diagnosis_of_event deps ev policy).namespace
            (diagnosis_of_event deps ev policy).name
            (client.create_diagnosis (diagnosis_of_event deps ev policy) w).1).1,
      )
  unfolding create_diagnosis backfill_existing_diagnosis
  recreate_is_quiet ev policy w e s old exists is found =
      rw (exists, is, found, backfill_idempotent s ev policy)

any_of-Memᴰ :
    (reason : String) (l : List String) → any_of (λ x. x == reason) l ≡ true → Memᴰ reason l
any_of-Memᴰ reason [] h = cc
any_of-Memᴰ reason (a ∷ rest) h = elim (Bool-cases (a == reason)) [
  | inl same ↦ Memᴰ.head (sym ((eq_iff a reason).0 same))
  | inr other ↦ Memᴰ.tail (any_of-Memᴰ reason rest (ground (arith, other)))
]

Memᴰ-any_of :
    (reason : String) (l : List String) → Memᴰ reason l → any_of (λ x. x == reason) l ≡ true
Memᴰ-any_of reason [] m = elim m [ ]
Memᴰ-any_of reason (a ∷ rest) (Memᴰ.head p) = ground (arith, eq_iff a reason, p)
Memᴰ-any_of reason (a ∷ rest) (Memᴰ.tail m) = ground (arith, Memᴰ-any_of reason rest m)

-- A reason is allowed exactly when the list is empty or holds it.
pub reason_allowed_iff :
    (reason : String) (allowed : List String)
    → (reason_allowed reason allowed ≡ true) ↔ ((allowed ≡ []) ⊎ Memᴰ reason allowed)
unfolding reason_allowed
reason_allowed_iff reason [] = (λ h. inl refl, λ h. refl)
reason_allowed_iff reason (a ∷ rest) = (
  λ h. inr (any_of-Memᴰ reason (a ∷ rest) h),
  λ h. elim h [ inl e ↦ cc | inr m ↦ Memᴰ-any_of reason (a ∷ rest) m ],
)
