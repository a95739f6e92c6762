-- ===== src/Notify/Tests.antt =====
-- The theorems of the notifications at a hostile one.
use kscribe.Prelude.{[], bytes, count_if, eqb, none, refl, some, suc, true, ℕ, ◌+◌, ◌||◌, ◌∷◌, ◌≡◌}
use kscribe.Errors.{other, error_text}
use kscribe.Notify.{Notification, Notifier, notify_each, multi, joined_text}
use kscribe.Notify.Render.{html, slack_escape, slack_text}
use kscribe.Notify.Fanout.{answers, is_error, multi_continues}
use kscribe.Notify.Escapes.{step_tags, html_tags_fixed}
use kscribe.Notify.Mentions.{slack_text_plain, shown, shown-slack_escape}

abbrev hostile : Notification
hostile = record {
  phase = "Done";
  reason = "BackOff";
  namespace = "shop";
  object = "cart";
  summary = bytes "<img src=x> & more";
  root_cause = [];
  remediation = bytes "<!channel>" ∷ bytes "restart" ∷ [];
}

html_tags_fixed_example :
    count_if (λ c. eqb c 60) (html hostile) ≡ 8 + 4 + 0 + step_tags (hostile.remediation)
unfolding bytes
html_tags_fixed_example = html_tags_fixed hostile

slack_text_plain_example : count_if (λ c. eqb c 60 || eqb c 62) (slack_text hostile) ≡ 0
slack_text_plain_example = slack_text_plain hostile

shown-slack_escape_example :
    shown 0 (slack_escape (bytes "<!channel> &amp;")) ≡ bytes "<!channel> &amp;"
shown-slack_escape_example = shown-slack_escape (bytes "<!channel> &amp;")

-- A channel that counts its notifications in the world, and one that fails besides.
abbrev counter : Notifier ℕ
counter = record { notify = λ n w. (none, suc w) }

abbrev failing : Notifier ℕ
failing = record { notify = λ n w. (some (other (bytes "down")), suc w) }

multi_continues_example :
    (((multi (failing ∷ counter ∷ [])).notify hostile 0).1
      ≡ (answers (failing ∷ counter ∷ []) hostile 0).1)
    × (is_error ((multi (failing ∷ counter ∷ [])).notify hostile 0).0 ≡ true)
multi_continues_example = multi_continues (failing ∷ counter ∷ []) hostile 0

both_notified : (multi (failing ∷ counter ∷ [])).notify hostile 0 ≡ (some (other (bytes "down")), 2)
unfolding multi notify_each joined_text error_text
both_notified = refl
