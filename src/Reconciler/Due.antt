-- ===== src/Reconciler/Due.antt =====
-- What Reconcile decides about an object that it has fetched: a run, a mirrored row, or nothing.
use kscribe.Prelude.{
  Bool, Bool-cases, Option, arith, false, if◌then◌else◌, inl, inr, leb, none, not, refl, some, true,
  ℕ, ◌&&◌, ◌+◌, ◌<◌, ◌↔◌, ◌≡◌, ◌≤◌, ◌⊎◌,
}
use mathlib.Core.Path.{subst}
use kscribe.Api.{
  DiagnosisPhase, unset, pending, diagnosing, done, partial, failed, KscribeDiagnosis,
}
use kscribe.Reconciler.{
  has_storage_error, stale_since, Decision, decide, decide_phase, mirror, proceed, skip,
  diagnosis_is_stale,
}

-- The diagnosis has ended: its phase says so, or its row is known to be stored.
abbrev pub IsSettled : KscribeDiagnosis → Type 0
IsSettled kd =
    (kd.status.phase ≡ done)
    ⊎ ((kd.status.phase ≡ partial)
        ⊎ ((kd.status.phase ≡ failed)
            ⊎ ((kd.status.phase ≡ diagnosing) × (kd.status.persisted ≡ true))))

pub settled_mirrors : (kd : KscribeDiagnosis) (now : ℕ) → IsSettled kd → decide kd now ≡ mirror
unfolding decide
settled_mirrors kd now (inl h) = rw h refl
settled_mirrors kd now (inr (inl h)) = rw h refl
settled_mirrors kd now (inr (inr (inl h))) = rw h refl
settled_mirrors kd now (inr (inr (inr (h, p)))) = rw h (rw p refl)

-- The start of the run is not known, or it is ten minutes ago or more.
abbrev pub IsOverdue : Option ℕ → ℕ → Type 0
IsOverdue started now = (started ≡ none) ⊎ ((t : ℕ) × (started ≡ some t) × (t + 600000000000 ≤ now))

-- An object that is new or Pending, or Diagnosing with no row after a storage error or an overdue run.
abbrev pub NeedsRun : KscribeDiagnosis → ℕ → Type 0
NeedsRun kd now =
    (kd.status.phase ≡ unset)
    ⊎ ((kd.status.phase ≡ pending)
        ⊎ ((kd.status.phase ≡ diagnosing)
            × (kd.status.persisted ≡ false)
            × ((has_storage_error kd ≡ true) ⊎ IsOverdue kd.status.started_at now)))

-- A run that began less than ten minutes ago, with neither a row nor a storage error.
abbrev pub InProgress : KscribeDiagnosis → ℕ → Type 0
InProgress kd now =
    (kd.status.phase ≡ diagnosing)
    × (kd.status.persisted ≡ false)
    × (has_storage_error kd ≡ false)
    × ((t : ℕ) × (kd.status.started_at ≡ some t) × (now < t + 600000000000))

-- When each decision is due.
abbrev pub IsDue : KscribeDiagnosis → ℕ → Decision → Type 0
IsDue kd now proceed = NeedsRun kd now
IsDue kd now mirror = IsSettled kd
IsDue kd now skip = InProgress kd now

overdue-stale :
    (started : Option ℕ) (now : ℕ) → IsOverdue started now → stale_since started now ≡ true
overdue-stale started now (inl unknown) = rw unknown refl
overdue-stale started now (inr (t, known, late)) = rw known (ground (arith, late))

pub needed_proceeds : (kd : KscribeDiagnosis) (now : ℕ) → NeedsRun kd now → decide kd now ≡ proceed
unfolding decide has_storage_error diagnosis_is_stale
needed_proceeds kd now (inl h) = rw h refl
needed_proceeds kd now (inr (inl h)) = rw h refl
needed_proceeds kd now (inr (inr (h, p, inl e))) = rw h (rw p (rw e refl))
needed_proceeds kd now (inr (inr (h, p, inr late))) =
    let stale = overdue-stale kd.status.started_at now late in
    rw h (
      rw p (elim (Bool-cases (has_storage_error kd)) [
        | inl a ↦ rw a refl
        | inr b ↦ rw b (rw stale refl)
      ]))

InProgress-skips : (kd : KscribeDiagnosis) (now : ℕ) → InProgress kd now → decide kd now ≡ skip
unfolding decide has_storage_error diagnosis_is_stale
InProgress-skips kd now (h, p, e, (t, known, recent)) =
    let fresh : leb (t + 600000000000) now ≡ false = ground (arith, recent) in
    rw h (rw p (rw e (rw known (rw fresh refl))))

-- what is due of an object that is Diagnosing without a row or a storage error
waiting-IsDue :
    (kd : KscribeDiagnosis) (now : ℕ) (started : Option ℕ)
    → kd.status.phase ≡ diagnosing
    → kd.status.persisted ≡ false
    → has_storage_error kd ≡ false
    → kd.status.started_at ≡ started
    → IsDue kd now (if not (stale_since started now) then skip else proceed)
waiting-IsDue kd now none h p e unknown = inr (inr (h, p, inr (inl unknown)))
waiting-IsDue kd now (some t) h p e known = elim (Bool-cases (leb (t + 600000000000) now)) [
  | inl late ↦ rw late (inr (inr (h, p, inr (inr (t, known, ground (arith, late))))))
  | inr recent ↦ rw recent (h, p, e, (t, known, ground (arith, recent)))
]

diagnosing-IsDue :
    (kd : KscribeDiagnosis) (now : ℕ) (stored_row failed_write : Bool)
    → kd.status.phase ≡ diagnosing
    → kd.status.persisted ≡ stored_row
    → has_storage_error kd ≡ failed_write
    → IsDue kd now (
        if stored_row
        then mirror
        else if not failed_write && not (stale_since kd.status.started_at now)
        then skip
        else proceed)
diagnosing-IsDue kd now true e h p w = inr (inr (inr (h, p)))
diagnosing-IsDue kd now false true h p w = inr (inr (h, p, inl w))
diagnosing-IsDue kd now false false h p w = waiting-IsDue kd now kd.status.started_at h p w refl

phase-IsDue :
    (kd : KscribeDiagnosis) (now : ℕ) (phase : DiagnosisPhase)
    → kd.status.phase ≡ phase
    → IsDue kd now (decide_phase phase kd now)
unfolding diagnosis_is_stale
phase-IsDue kd now unset h = inl h
phase-IsDue kd now pending h = inr (inl h)
phase-IsDue kd now diagnosing h =
    diagnosing-IsDue kd now kd.status.persisted (has_storage_error kd) h refl refl
phase-IsDue kd now done h = inl h
phase-IsDue kd now partial h = inr (inl h)
phase-IsDue kd now failed h = inr (inr (inl h))

due_decided : (kd : KscribeDiagnosis) (now : ℕ) (d : Decision) → IsDue kd now d → decide kd now ≡ d
due_decided kd now proceed h = needed_proceeds kd now h
due_decided kd now mirror h = settled_mirrors kd now h
due_decided kd now skip h = InProgress-skips kd now h

-- Each decision of Reconcile is taken exactly when it is due: a run, for an object that is new or Pending,
-- or Diagnosing with no row after a storage error or with no start in the last ten minutes; a mirrored
-- row, for one that has ended or whose row is known; nothing, for a run that is in progress.
pub decided_when-IsDue :
    (kd : KscribeDiagnosis) (now : ℕ) (d : Decision) → (decide kd now ≡ d) ↔ IsDue kd now d
unfolding decide
decided_when-IsDue kd now d =
    (λ h. subst (IsDue kd now) h (phase-IsDue kd now kd.status.phase refl), due_decided kd now d)
