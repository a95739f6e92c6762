-- ===== src/Notify.antt =====
-- internal/notify: the payload of a finished diagnosis and its fan-out to the channels.
--
-- A notifier acts on the outside world `W`.
pub mod Render
pub mod Senders
pub mod Escapes
pub mod Mentions
pub mod Fanout
mod Tests
use kscribe.Prelude.{Bytes, List, Option, String, [], bytes, none, some, ◌++◌, ◌∷◌}
use kscribe.Errors.{Error, other, error_text}

pub record Notification : Type 0 where
  pub phase : String
  pub reason : String
  pub namespace : String
  pub object : String
  pub summary : Bytes
  pub root_cause : Bytes
  pub remediation : List Bytes

-- Notifier
pub record Notifier (W : Type 0) : Type 0 where
  pub notify : Notification → W → Option Error × W

-- The text of errors.Join: one error to a line.
unfoldable pub joined_text : List Error → Bytes
joined_text [] = []
joined_text (e ∷ []) = error_text e
joined_text (e ∷ (f ∷ rest)) = error_text e ++ bytes "\n" ++ joined_text (f ∷ rest)

-- errors.Join
abbrev pub join_errors : List Error → Option Error
join_errors [] = none
join_errors (e ∷ rest) = some (other (joined_text (e ∷ rest)))

abbrev pub add_error : Option Error → List Error → List Error
add_error none errs = errs
add_error (some e) errs = errs ++ e ∷ []

module _ {W : Type 0} where
  -- the loop of Notify over the notifiers, with the errors so far
  unfoldable pub notify_each : List (Notifier W) → Notification → List Error → W → List Error × W
  notify_each [] n errs w = (errs, w)
  notify_each (notifier ∷ rest) n errs w =
      let (e, w') = notifier.notify n w in notify_each rest n (add_error e errs) w'

  unfoldable pub multi : List (Notifier W) → Notifier W
  multi notifiers = record {
    notify = λ n w. let (errs, w') = notify_each notifiers n [] w in (join_errors errs, w');
  }
