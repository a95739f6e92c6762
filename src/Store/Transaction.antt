-- ===== src/Store/Transaction.antt =====
-- The transactions of database/sql, as internal/store uses them: a statement changes the transaction's own
-- view, a commit makes that view the database, a rollback forgets it. Nothing is left for a rollback that
-- follows a commit (sql.ErrTxDone). A commit that fails stores nothing and ends the transaction.
use kscribe.Prelude.{Option, none, or_default, some}
use mathlib.Core.Option

pub record Session (D : Type 0) : Type 0 where
  pub stored : D
  pub tx : Option D

module _ {D : Type 0} where
  -- a connection with no transaction
  abbrev pub idle : D → Session D
  idle d = record { stored = d; tx = none }

  -- what a statement sees
  abbrev pub view : Session D → D
  view s = or_default s.tx s.stored

  abbrev pub begin_tx : Session D → Session D
  begin_tx s = record s { tx = some s.stored }

  abbrev pub exec : (D → D) → Session D → Session D
  exec change s = record s { tx = Option.map change s.tx }

  abbrev pub rollback : Session D → Session D
  rollback s = record s { tx = none }

  abbrev pub commit : Session D → Session D
  commit s = record { stored = view s; tx = none }
