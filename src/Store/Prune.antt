-- ===== src/Store/Prune.antt =====
-- Retention: what one prune removes, and that a failed one removes nothing.
use kscribe.Prelude.{
  Bool, Bool-cases, Bytes, List, Option, String, [], arith, bytes, count_if, eq_iff, false,
  if◌then◌else◌, inl, inr, keep_if, length, none, not, refl, some, true, ℕ, ◌&&◌, ◌+◌, ◌==◌, ◌∷◌,
  ◌≡◌,
}
use kscribe.Errors.{Error, Result, ok, err}
use kscribe.Store.Schema.{Incident, Diagnosis, ChatMessage, Db}
use kscribe.Store.{is_incident, is_message, is_diagnosis, find_incident, list_chat_messages}
use kscribe.Store.Pruning.{
  is_old, in_old, PruneFaults, no_faults, prune, prune_tx, unless_refused, delete_in_tx,
  delete_chat, delete_diagnoses, delete_incidents,
}
use kscribe.Store.Transaction.{Session, idle, begin_tx, rollback}
use kscribe.Store.Upsert.{UniqueKeys, key_same}

-- whether a lookup found an old row
abbrev pub old_found : ℕ → Option Incident → Bool
old_found cutoff none = false
old_found cutoff (some row) = is_old cutoff row

-- A row that no lookup finds is not in the old ones.
in_old-absent :
    (cutoff : ℕ) (rows : List Incident) (ns name : String)
    → find_incident ns name rows ≡ none
    → in_old cutoff rows ns name ≡ false
unfolding in_old find_incident
in_old-absent cutoff [] ns name h = refl
in_old-absent cutoff (row ∷ rest) ns name h = ground (arith, in_old-absent cutoff rest ns name)

in_old-find :
    (cutoff : ℕ) (rows : List Incident) (ns name : String)
    → UniqueKeys rows
    → in_old cutoff rows ns name ≡ old_found cutoff (find_incident ns name rows)
unfolding in_old find_incident
in_old-find cutoff [] ns name u = refl
in_old-find cutoff (row ∷ rest) ns name u = elim (Bool-cases (is_incident ns name row)) [
  | inl hit ↦
      let (e, e') = key_same ns name row hit in
      rw hit (ground (arith, hit, in_old-absent cutoff rest ns name (rw (← e, ← e') u.0)))
  | inr miss ↦ rw miss (ground (arith, miss, in_old-find cutoff rest ns name u.1))
]

-- What is left of a lookup: nothing, if it found an old row.
find-keep_if :
    (cutoff : ℕ) (rows : List Incident) (ns name : String)
    → UniqueKeys rows
    → find_incident ns name (keep_if (λ row. not (is_old cutoff row)) rows)
      ≡ (if old_found cutoff (find_incident ns name rows) then none else find_incident ns name rows)
unfolding find_incident
find-keep_if cutoff [] ns name u = refl
find-keep_if cutoff (row ∷ rest) ns name u = elim (Bool-cases (is_incident ns name row)) [
  | inl hit ↦
      let (e, e') = key_same ns name row hit in
      let gone : find_incident ns name rest ≡ none = rw (← e, ← e') u.0 in
      ground (arith, hit, gone, find-keep_if cutoff rest ns name u.1)
  | inr miss ↦ ground (arith, miss, find-keep_if cutoff rest ns name u.1)
]

message_key :
    (ns name : String) (m : ChatMessage)
    → is_message ns name m ≡ true
    → (m.namespace ≡ ns) × (m.name ≡ name)
message_key ns name m h = (
  ground (arith, eq_iff m.namespace ns),
  ground (arith, eq_iff m.namespace ns, eq_iff m.name name),
)

diagnosis_key :
    (ns name : String) (d : Diagnosis)
    → is_diagnosis ns name d ≡ true
    → (d.namespace ≡ ns) × (d.name ≡ name)
diagnosis_key ns name d h = (
  ground (arith, eq_iff d.namespace ns),
  ground (arith, eq_iff d.namespace ns, eq_iff d.name name),
)

-- Children of one key, out of those that are kept by a test of their key.
module _ {A : Type 0} (gone : String → String → Bool) (ns_of name_of : A → String)
    (ns name : String) where
  abbrev is_child : A → Bool
  is_child x = ns_of x == ns && name_of x == name

  children-keep_if :
      (xs : List A)
      → keep_if is_child (keep_if (λ x. not (gone (ns_of x) (name_of x))) xs)
        ≡ (if gone ns name then [] else keep_if is_child xs)
  children-keep_if [] = ground arith
  children-keep_if (x ∷ xs) = elim (Bool-cases (is_child x)) [
    | inl hit ↦
        let e : ns_of x ≡ ns = ground (arith, eq_iff (ns_of x) ns) in
        let e' : name_of x ≡ name = ground (arith, eq_iff (ns_of x) ns, eq_iff (name_of x) name) in
        let same : gone (ns_of x) (name_of x) ≡ gone ns name = cc in
        ground (arith, hit, same, children-keep_if xs)
    | inr miss ↦ ground (arith, miss, children-keep_if xs)
  ]

-- what the rows kept and the rows removed come to
length-kept :
    {A : Type 0} (p : A → Bool) (xs : List A)
    → length (keep_if (λ x. not (p x)) xs) + count_if p xs ≡ length xs
length-kept p [] = refl
length-kept p (x ∷ xs) = ground (arith, length-kept p xs)

module _ (cutoff : ℕ) (db : Db) (u : UniqueKeys db.incidents) where
  abbrev pruned : Db
  pruned = (prune no_faults cutoff db).1

  -- Whether the incident of a key is old.
  abbrev old_key : String → String → Bool
  old_key ns name = old_found cutoff (find_incident ns name db.incidents)

  -- In tables with one row for each key, a prune that meets no fault removes an incident exactly
  -- when it was last updated before the cutoff (as the stored texts compare), and with it all its diagnoses and chat messages; what
  -- belongs to other keys is as before.
  pub prune_exact :
      (ns name : String)
      → (find_incident ns name pruned.incidents
          ≡ (if old_key ns name then none else find_incident ns name db.incidents))
        × (list_chat_messages ns name pruned
            ≡ (if old_key ns name then [] else list_chat_messages ns name db))
        × (keep_if (is_diagnosis ns name) pruned.diagnoses
            ≡ (if old_key ns name then [] else keep_if (is_diagnosis ns name) db.diagnoses))
  unfolding prune list_chat_messages
  prune_exact ns name = (
    find-keep_if cutoff db.incidents ns name u,
    rw (← in_old-find cutoff db.incidents ns name u) (
        children-keep_if (in_old cutoff db.incidents) (λ (m : ChatMessage). m.namespace)
          (λ m. m.name) ns name db.chat_messages),
    rw (← in_old-find cutoff db.incidents ns name u) (
        children-keep_if (in_old cutoff db.incidents) (λ (d : Diagnosis). d.namespace) (λ d. d.name)
          ns name db.diagnoses),
  )

-- Where nothing is open before: the transaction is over, and either the removed incidents are counted or the
-- database is as it was.
abbrev Atomic : Db → Result ℕ × Session Db → Type 0
Atomic db r =
    (r.1.tx ≡ none)
    × ((n : ℕ) → r.0 ≡ ok n → length r.1.stored.incidents + n ≡ length db.incidents)
    × ((e : Error) → r.0 ≡ err e → r.1.stored ≡ db)

-- a statement that is refused, before the rollback
refused-Atomic :
    (fault : Option Error) (prefix : Bytes) (s : Session Db) (next : Result ℕ × Session Db)
    → Atomic s.stored (next.0, rollback next.1)
    → Atomic s.stored
        ((unless_refused fault prefix s next).0, rollback (unless_refused fault prefix s next).1)
refused-Atomic none prefix s next h = h
refused-Atomic (some e) prefix s next h = (refl, λ n h'. cc, λ e' h'. refl)

prune_tx-Atomic : (f : PruneFaults) (cutoff : ℕ) (db : Db) → Atomic db (prune_tx f cutoff (idle db))
unfolding prune_tx delete_in_tx delete_chat delete_diagnoses delete_incidents
prune_tx-Atomic f cutoff db = begun f.begin_tx
  where
    begun :
        (fault : Option Error)
        → Atomic db (
            unless_refused fault (bytes "begin prune tx: ") (idle db) (
              (delete_in_tx f cutoff (begin_tx (idle db))).0,
              rollback (delete_in_tx f cutoff (begin_tx (idle db))).1,
            ))
    begun (some e) = (refl, λ n h. cc, λ e' h. refl)
    begun none = refused-Atomic f.chat_messages _ _ _ (
        refused-Atomic f.diagnoses _ _ _ (
          refused-Atomic f.incidents _ _ _ (
            refused-Atomic f.commit _ _ _
              (refl, λ n h. ground (arith, length-kept (is_old cutoff) db.incidents), λ e h. cc))))

-- The number that a prune reports is the number of incidents that it removed.
pub prune_counts :
    (f : PruneFaults) (cutoff : ℕ) (db : Db) (n : ℕ)
    → (prune f cutoff db).0 ≡ ok n
    → length (prune f cutoff db).1.incidents + n ≡ length db.incidents
unfolding prune
prune_counts f cutoff db n h = (prune_tx-Atomic f cutoff db).1 n h

-- However a prune ends, no transaction is left open on its connection; and one that reports an error,
-- whichever of its steps failed and whatever it had deleted before, leaves the stored tables as they were.
pub prune_atomic :
    (f : PruneFaults) (cutoff : ℕ) (db : Db)
    → let (answer, s) = prune_tx f cutoff (idle db) in
      (s.tx ≡ none) × ((e : Error) → answer ≡ err e → s.stored ≡ db)
prune_atomic f cutoff db = ((prune_tx-Atomic f cutoff db).0, (prune_tx-Atomic f cutoff db).2)
