-- ===== src/Notify/Escapes.antt =====
-- No field of a notification can add markup of its own.
use kscribe.Prelude.{
  Bytes, List, [], arith, bytes, count_if, count_if-append, encode_rune, eqb, escape_byte,
  escape_html, if◌then◌else◌, is_empty, length, refl, suc, ℕ, ◌*◌, ◌++◌, ◌+◌, ◌∷◌, ◌≡◌,
}
use kscribe.Notify.{Notification}
use kscribe.Notify.Render.{unless_empty, list_items, remediation_html, html}

-- the number of tags that a text opens
unfoldable tags : Bytes → ℕ
tags s = count_if (λ c. eqb c 60) s

tags-append : (a b : Bytes) → tags (a ++ b) ≡ tags a + tags b
unfolding tags
tags-append a b = count_if-append (λ c. eqb c 60) a b

tags-escape_byte : (c : ℕ) → tags (escape_byte c) ≡ 0
unfolding tags bytes encode_rune
tags-escape_byte c = ground arith

tags-escape : (s : Bytes) → tags (escape_html s) ≡ 0
unfolding escape_html tags
tags-escape [] = refl
tags-escape (c ∷ rest) = omega (
  arith,
  count_if-append (λ d. eqb d 60) (escape_byte c) (escape_html rest),
  tags-escape_byte c,
  tags-escape rest,
)

tags_none : tags [] ≡ 0
unfolding tags
tags_none = refl

-- The constant texts of the message.
tags_div : tags (bytes "<div style=\"font-family:system-ui,sans-serif;max-width:640px\">") ≡ 1
unfolding tags bytes encode_rune
tags_div = refl

tags_heading : tags (bytes "<h2 style=\"margin:0 0 4px\">") ≡ 1
unfolding tags bytes encode_rune
tags_heading = refl

tags_dash : tags (bytes " — ") ≡ 0
unfolding tags bytes encode_rune
tags_dash = refl

tags_heading_end : tags (bytes "</h2>") ≡ 1
unfolding tags bytes encode_rune
tags_heading_end = refl

tags_place : tags (bytes "<p style=\"color:#555;margin:0 0 16px\">") ≡ 1
unfolding tags bytes encode_rune
tags_place = refl

tags_slash : tags (bytes "/") ≡ 0
unfolding tags bytes encode_rune
tags_slash = refl

tags_place_end : tags (bytes "</p>") ≡ 1
unfolding tags bytes encode_rune
tags_place_end = refl

tags_summary : tags (bytes "<p><strong>Summary:</strong> ") ≡ 3
unfolding tags bytes encode_rune
tags_summary = refl

tags_cause : tags (bytes "<p><strong>Root cause:</strong> ") ≡ 3
unfolding tags bytes encode_rune
tags_cause = refl

tags_steps : tags (bytes "<p><strong>Remediation:</strong></p><ol>") ≡ 5
unfolding tags bytes encode_rune
tags_steps = refl

tags_item : tags (bytes "<li>") ≡ 1
unfolding tags bytes encode_rune
tags_item = refl

tags_item_end : tags (bytes "</li>") ≡ 1
unfolding tags bytes encode_rune
tags_item_end = refl

tags_steps_end : tags (bytes "</ol>") ≡ 1
unfolding tags bytes encode_rune
tags_steps_end = refl

tags_footer :
    tags (
      bytes
        "<p style=\"color:#888;font-size:12px;margin-top:24px\">Sent by kscribe — see the dashboard for redacted context, trace, and chat.</p></div>")
    ≡ 3
unfolding tags bytes encode_rune
tags_footer = refl

ruleset fixed_tags = (
  tags_div, tags_heading, tags_dash, tags_heading_end, tags_place, tags_slash, tags_place_end,
  tags_summary, tags_cause, tags_steps, tags_item, tags_item_end, tags_steps_end, tags_footer,
)

tags-unless_empty :
    (field text : Bytes) (n : ℕ)
    → tags text ≡ n
    → tags (unless_empty field text) ≡ (if is_empty field then 0 else n)
unfolding tags
tags-unless_empty [] text n h = refl
tags-unless_empty (c ∷ rest) text n h = h

tags-list_items : (steps : List Bytes) → tags (list_items steps) ≡ 2 * length steps
tags-list_items [] = tags_none
tags-list_items (step ∷ rest) =
    simp (tags-append, tags-escape, fixed_tags, tags-list_items rest) (omega arith)

-- the tags of the list of steps: none, or six and two for each step
abbrev pub step_tags : List Bytes → ℕ
step_tags [] = 0
step_tags (step ∷ rest) = 6 + 2 * suc (length rest)

tags-remediation_html : (steps : List Bytes) → tags (remediation_html steps) ≡ step_tags steps
tags-remediation_html [] = tags_none
tags-remediation_html (step ∷ rest) =
    simp (tags-append, tags-list_items, fixed_tags, tags-escape) (omega arith)

tags_field :
    (field opening : Bytes)
    → tags opening ≡ 3
    → tags (unless_empty field (opening ++ escape_html field ++ bytes "</p>"))
      ≡ (if is_empty field then 0 else 4)
tags_field field opening h =
    tags-unless_empty field _ 4 (simp (tags-append, tags-escape, fixed_tags, h) (omega arith))

tags-html :
    (n : Notification)
    → tags (html n)
      ≡ 8
        + (if is_empty n.summary then 0 else 4)
        + (if is_empty n.root_cause then 0 else 4)
        + step_tags n.remediation
unfolding html
tags-html n =
    simp
      (
        tags-append,
        tags-escape,
        fixed_tags,
        tags-remediation_html,
        tags_field n.summary (bytes "<p><strong>Summary:</strong> ") tags_summary,
        tags_field n.root_cause (bytes "<p><strong>Root cause:</strong> ") tags_cause,
      )
      (omega arith)

-- The mail has eight tags, four more for each of summary and root cause that is given, and those of the
-- list of steps: no text of the notification, which a model or an event has written, opens a tag.
pub html_tags_fixed :
    (n : Notification)
    → count_if (λ c. eqb c 60) (html n)
      ≡ 8
        + (if is_empty n.summary then 0 else 4)
        + (if is_empty n.root_cause then 0 else 4)
        + step_tags n.remediation
unfolding tags
html_tags_fixed n = tags-html n
