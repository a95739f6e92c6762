-- ===== src/Reconciler/Ordering.antt =====
-- The order of the writes (docs/adr: the database first, then the status): an object that says that
-- its diagnosis is persisted has a row in the store, at every step of Reconcile.
--
-- What the libraries do is assumed as documented: `Keeps` says that a call leaves a fact about the
-- world true, and `Lawful` what the API server, the store and client-go's retry owe.
use kscribe.Prelude.{
  Bool, Bytes, List, Option, String, arith, false, inl, inr, none, refl, some, sym, true, ℕ, ◌∙◌,
  ◌≡◌, ◌⊎◌,
}
use mathlib.Core.Path.{subst}
use kscribe.Api.{DiagnosisPhase, KscribeDiagnosis}
use kscribe.Errors.{Error, Result, ok, err}
use kscribe.Enricher.{ObjectRef, Snapshot}
use kscribe.Notify.{Notification}
use kscribe.Agent.{Outcome}
use kscribe.Agent.Schema.{Request, ToolExecutor}
use kscribe.Store.Schema.{Incident, Diagnosis}
use kscribe.Reconciler.{
  Metric, RcaPayload, Reconciler, publish_if, notify_if, notify_terminal, publish_phase, patch_once,
  patch_status, after_fetch,
}
use kscribe.Reconciler.Marks.{
  mark_throttled, mark_started, mark_failed, mark_storage_error, mark_finished,
}

module _ {W : Type 0} (r : Reconciler W) where
  -- The calls that neither send a status nor insert a row leave `P` true.
  pub record Keeps (P : W → Type 0) : Type 0 where
    pub fetches :
        (namespace name : String) (w : W) → P w → P (r.client.get_diagnosis namespace name w).1
    pub upserts : (i : Incident) (w : W) → P w → P (r.upsert_incident i w).1
    pub observes : (m : Metric) (w : W) → P w → P (r.observe m w)
    pub notifies : (n : Notification) (w : W) → P w → P (notify_if r r.notify n w)
    pub publishes :
        (id : String) (html : Bytes) (w : W) → P w → P (publish_if r r.publish id html w)

  -- What the outside owes: `Backed` is the fact about the world that every object which says that it
  -- is persisted has its row, `Stored a b` that the object b of the namespace a has one.
  pub record Lawful (Backed : W → Type 0) (Stored : String → String → W → Type 0) : Type 1 where
    pub keeps_backed : Keeps Backed
    pub keeps_stored : (namespace name : String) → Keeps (Stored namespace name)
    pub completes : (req : Request) (w : W) → Backed w → Backed (r.agent_provider.complete req w).1
    pub executes :
        (x : ToolExecutor W) (name : String) (args : Bytes) (w : W)
        → r.tool_executor ≡ some x
        → Backed w
        → Backed (x.execute name args w).1
    pub builds :
        (build : ObjectRef → W → Result Snapshot × W) (o : ObjectRef) (w : W)
        → r.build_snapshot ≡ some build
        → Backed w
        → Backed (build o w).1
    -- the API server answers the object that was asked for, as it holds it
    pub answers :
        (namespace name : String) (w : W) (kd : KscribeDiagnosis)
        → (r.client.get_diagnosis namespace name w).0 ≡ ok kd
        → Backed w
        → (kd.namespace ≡ namespace)
          × ((kd.name ≡ name)
              × (kd.status.persisted ≡ true
                  → Stored namespace name (r.client.get_diagnosis namespace name w).1))
    -- a status update changes no other object, and deletes no row
    pub updates :
        (o : KscribeDiagnosis) (w : W)
        → (o.status.persisted ≡ true → Stored o.namespace o.name w)
        → Backed w
        → Backed (r.client.update_status o w).1
    pub updates_keep_rows :
        (o : KscribeDiagnosis) (namespace name : String) (w : W)
        → Stored namespace name w
        → Stored namespace name (r.client.update_status o w).1
    -- an accepted row is there; a refused one does no harm
    pub inserts :
        (d : Diagnosis) (p : RcaPayload) (w : W)
        → Backed w
        → Backed (r.insert_diagnosis d p w).1
          × ((r.insert_diagnosis d p w).0 ≡ none
              → Stored d.namespace d.name (r.insert_diagnosis d p w).1)
    -- a retry runs its attempt and does nothing else
    pub retries :
        (P : W → Type 0) (attempt : W → Option Error × W)
        → ((w : W) → P w → P (attempt w).1)
        → (w : W) → P w
        → P (r.retry_on_conflict attempt w).1

  module _ {Backed : W → Type 0} {Stored : String → String → W → Type 0}
      (lawful : Lawful Backed Stored) where
    abbrev pub backed : Keeps Backed
    backed = lawful.keeps_backed

    abbrev pub NamedAlike : (KscribeDiagnosis → KscribeDiagnosis) → Type 0
    NamedAlike mutate =
        (o : KscribeDiagnosis) → ((mutate o).namespace ≡ o.namespace) × ((mutate o).name ≡ o.name)

    -- The fact that an attempt needs: objects are backed, and this one has its row if the mutation
    -- itself may set the flag.
    abbrev pub Ready : Bool → String → String → W → Type 0
    Ready b namespace name w = Backed w × (b ≡ true → Stored namespace name w)

    -- A mutation that sets the flag only where `b` allows it.
    abbrev pub Sets : Bool → (KscribeDiagnosis → KscribeDiagnosis) → Type 0
    Sets b mutate =
        (o : KscribeDiagnosis)
        → (mutate o).status.persisted ≡ true
        → (o.status.persisted ≡ true) ⊎ (b ≡ true)

    module _ (b : Bool) (namespace name : String) (mutate : KscribeDiagnosis → KscribeDiagnosis)
        (alike : NamedAlike mutate) (sets : Sets b mutate) where
      sent-Ready :
          (answer : Result KscribeDiagnosis) (w : W)
          → Ready b namespace name w
          → ((kd : KscribeDiagnosis)
              → answer ≡ ok kd
              → (kd.namespace ≡ namespace)
                × ((kd.name ≡ name) × (kd.status.persisted ≡ true → Stored namespace name w)))
          → Ready b namespace name (after_fetch r mutate answer w).1
      sent-Ready (err e) w h found = h
      sent-Ready (ok cur) w h found = (
        lawful.updates (mutate cur) w here h.0,
        λ set. lawful.updates_keep_rows (mutate cur) namespace name w (h.1 set),
      )
        where
          here :
              (mutate cur).status.persisted ≡ true
              → Stored (mutate cur).namespace (mutate cur).name w
          here flag =
              subst (λ x. Stored x (mutate cur).name w) (sym ((alike cur).0 ∙ (found cur refl).0))
                (subst (λ x. Stored namespace x w) (sym ((alike cur).1 ∙ (found cur refl).1.0))
                  (elim (sets cur flag) [ inl was ↦ (found cur refl).1.1 was | inr set ↦ h.1 set ]))

      once-Ready :
          (w : W)
          → Ready b namespace name w
          → Ready b namespace name (patch_once r namespace name mutate w).1
      unfolding patch_once
      once-Ready w h =
          sent-Ready (r.client.get_diagnosis namespace name w).0
            (r.client.get_diagnosis namespace name w).1
            (
              backed.fetches namespace name w h.0,
              λ set. (lawful.keeps_stored namespace name).fetches namespace name w (h.1 set),
            )
            (λ kd same. lawful.answers namespace name w kd same h.0)

      pub patched-Backed :
          (w : W) → Ready b namespace name w → Backed (patch_status r namespace name mutate w).1
      unfolding patch_status
      patched-Backed w h =
          (lawful.retries (Ready b namespace name) (patch_once r namespace name mutate) once-Ready w
            h).0

    never : {A : Type 0} → false ≡ true → A
    never h = ground arith

    -- Before the row is written: a mutation that does not set the flag.
    pub unflagged-Backed :
        (namespace name : String) (mutate : KscribeDiagnosis → KscribeDiagnosis)
        → NamedAlike mutate
        → Sets false mutate
        → (w : W) → Backed w
        → Backed (patch_status r namespace name mutate w).1
    unflagged-Backed namespace name mutate alike sets w h =
        patched-Backed false namespace name mutate alike sets w (h, never)

    -- The four mutations that do not set the flag, and the one that does.
    pub throttled-Sets : Sets false (mark_throttled r)
    unfolding mark_throttled
    throttled-Sets o h = inl h

    pub started-Sets :
        (at : ℕ) (provider model : String) → Sets false (mark_started r at provider model)
    unfolding mark_started
    started-Sets at provider model o h = inl h

    pub failed-Sets :
        (at : ℕ) (provider model : String) (outcome : Outcome)
        → Sets false (mark_failed r at provider model outcome)
    unfolding mark_failed
    failed-Sets at provider model outcome o h = inl h

    pub storage_error-Sets : (e : Error) → Sets false (mark_storage_error r e)
    unfolding mark_storage_error
    storage_error-Sets e o h = never h

    pub finished-Sets :
        (at : ℕ) (provider model : String) (outcome : Outcome)
        → Sets true (mark_finished r at provider model outcome)
    finished-Sets at provider model outcome o h = inr refl

    -- what follows a run: the incident, the counter, the notification, the page
    pub told-keeps :
        {P : W → Type 0}
        → Keeps P
        → (namespace name : String) (i : Incident) (m : Metric) (kd : KscribeDiagnosis)
          (phase : DiagnosisPhase) (summary cause : Bytes) (steps : List Bytes) (w : W)
        → P w
        → P (
            publish_phase r namespace name phase (
              notify_terminal r kd phase summary cause steps
                (r.observe m (r.upsert_incident i w).1)))
    unfolding publish_phase notify_terminal
    told-keeps k namespace name i m kd phase summary cause steps w h =
        k.publishes _ _ _ (k.notifies _ _ (k.observes m _ (k.upserts i w h)))
