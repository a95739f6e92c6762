-- ===== src/Operator/Channels.antt =====
-- The reconciler's notifier serves every configured channel.
use kscribe.Prelude.{List, Option, [], none, refl, some, ◌∷◌, ◌≡◌}
use kscribe.Errors.{Error}
use kscribe.Notify.{Notification, Notifier, multi, notify_each, add_error, join_errors}
use kscribe.Notify.Fanout.{is_error}
use kscribe.Operator.{chosen_notifier}

-- A notifier, or none, does what notifying a list of channels does.
abbrev pub Serves :
    {W : Type 0} → Notification → W → List (Notifier W) → Option (Notifier W) → Type 0
Serves n w channels none = channels ≡ []
Serves n w channels (some notifier) =
    ((notifier.notify n w).1 ≡ ((multi channels).notify n w).1)
    × (is_error (notifier.notify n w).0 ≡ is_error ((multi channels).notify n w).0)

is_error-single : (e : Option Error) → is_error e ≡ is_error (join_errors (add_error e []))
is_error-single none = refl
is_error-single (some e) = refl

-- The notifier that is chosen notifies all the channels in their order, and fails exactly where one of
-- them does; there is none only without channels.
pub chosen_notifier-Serves :
    {W : Type 0} (channels : List (Notifier W)) (n : Notification) (w : W)
    → Serves n w channels (chosen_notifier channels)
unfolding chosen_notifier multi notify_each
chosen_notifier-Serves [] n w = refl
chosen_notifier-Serves (only ∷ []) n w = (refl, is_error-single (only.notify n w).0)
chosen_notifier-Serves (first ∷ (second ∷ rest)) n w = (refl, refl)
