-- ===== src/Store/Pruning.antt =====
-- internal/store/sqlite.go: Prune, in its transaction, and what the driver may refuse in it.
use kscribe.Prelude.{
  Bool, Bytes, List, Option, String, any_of, bytes, count_if, keep_if, none, not, or_default, some,
  ℕ, ◌&&◌,
}
use kscribe.Errors.{Error, wrap, Result, ok, err}
use kscribe.Store.Transaction.{Session, idle, view, begin_tx, exec, rollback, commit}
use kscribe.Store.Schema.{Incident, Db, stored_before}
use kscribe.Store.{is_incident}

-- updated_at < cutoff
abbrev pub is_old : ℕ → Incident → Bool
is_old cutoff row = stored_before (or_default row.updated_at 0) cutoff

-- (namespace, name) IN (SELECT namespace, name FROM incidents WHERE updated_at < cutoff)
unfoldable pub in_old : ℕ → List Incident → String → String → Bool
in_old cutoff incidents namespace name =
    any_of (λ row. is_old cutoff row && is_incident namespace name row) incidents

-- What the driver refuses in one call of `prune`, if anything.
pub record PruneFaults : Type 0 where
  pub begin_tx : Option Error
  pub chat_messages : Option Error
  pub diagnoses : Option Error
  pub incidents : Option Error
  pub commit : Option Error

abbrev pub no_faults : PruneFaults
no_faults = record {
  begin_tx = none;
  chat_messages = none;
  diagnoses = none;
  incidents = none;
  commit = none;
}

-- the three DELETE statements
unfoldable pub delete_chat : ℕ → Db → Db
delete_chat cutoff db = record db {
  chat_messages =
      keep_if (λ m. not (in_old cutoff db.incidents m.namespace m.name)) db.chat_messages;
}

unfoldable pub delete_diagnoses : ℕ → Db → Db
delete_diagnoses cutoff db = record db {
  diagnoses = keep_if (λ d. not (in_old cutoff db.incidents d.namespace d.name)) db.diagnoses;
}

unfoldable pub delete_incidents : ℕ → Db → Db × ℕ
delete_incidents cutoff db = (
  record db { incidents = keep_if (λ row. not (is_old cutoff row)) db.incidents },
  count_if (is_old cutoff) db.incidents,
)

-- A statement of the transaction: the driver's refusal, or what follows it.
abbrev pub unless_refused :
    Option Error → Bytes → Session Db → Result ℕ × Session Db → Result ℕ × Session Db
unless_refused none prefix s next = next
unless_refused (some e) prefix s next = (err (wrap prefix e), s)

-- The statements and the commit; the answer is the number of rows that the last statement removed.
unfoldable pub delete_in_tx : PruneFaults → ℕ → Session Db → Result ℕ × Session Db
unfolding delete_chat delete_diagnoses delete_incidents
delete_in_tx f cutoff s = unless_refused f.chat_messages (bytes "prune children: ") s (
    let s1 = exec (delete_chat cutoff) s in
    unless_refused f.diagnoses (bytes "prune children: ") s1 (
      let s2 = exec (delete_diagnoses cutoff) s1 in
      unless_refused f.incidents (bytes "prune incidents: ") s2 (
        let s3 = exec (λ db. (delete_incidents cutoff db).0) s2 in
        unless_refused f.commit (bytes "commit prune tx: ") s3
          (ok (delete_incidents cutoff (view s2)).1, commit s3))))

-- Prune on its connection: the deferred Rollback comes last.
unfoldable pub prune_tx : PruneFaults → ℕ → Session Db → Result ℕ × Session Db
unfolding delete_in_tx
prune_tx f cutoff s =
    unless_refused f.begin_tx (bytes "begin prune tx: ") s
      (let (answer, s') = delete_in_tx f cutoff (begin_tx s) in (answer, rollback s'))

-- The same on the tables.
unfoldable pub prune : PruneFaults → ℕ → Db → Result ℕ × Db
unfolding prune_tx
prune f cutoff db = let (answer, s) = prune_tx f cutoff (idle db) in (answer, s.stored)
