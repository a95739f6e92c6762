-- ===== src/Limiter/Window.antt =====
-- The cap that the limiter promises, over every window and every sequence of calls.
use kscribe.Prelude.{
  Bool, Bool-cases, List, [], arith, count_if, count_if-append, count_if_mono, if◌then◌else◌, inl,
  inr, is_positive, keep_if, keep_if-append, keep_if-keep_if, leb, length, length-append,
  length-keep_if, length-keep_if-le, ltb, pos_part, refl, some, true, ℕ, ◌&&◌, ◌++◌, ◌+◌, ◌<◌, ◌∙◌,
  ◌∷◌, ◌≡◌, ◌≤◌,
}
use mathlib.Core.Path.{subst}
use kscribe.Limiter.{RateLimiter, is_recent, allow_capped, allow, allow_all}

-- Starts in the window of length `w` that ends at `t`.
abbrev pub in_window : ℕ → ℕ → ℕ → Bool
in_window w t x = leb x t && ltb t (x + w)

-- Each instant is at least the one before it.
abbrev pub Ascending : ℕ → List ℕ → Type 0
Ascending lo [] = Unit
Ascending lo (t ∷ ts) = (lo ≤ t) × Ascending t ts

-- What holds of the limiter, all starts granted so far, and the last instant asked.
record Inv (l : RateLimiter) (granted : List ℕ) (last : ℕ) : Type 0 where
  held : l.starts ≡ keep_if (is_recent l.window last) granted
  within : length l.starts ≤ pos_part l.limit
  capped : (t : ℕ) → count_if (in_window l.window t) granted ≤ pos_part l.limit
  some_room : 0 < l.window

-- the starts kept at `now` are those of all granted that are recent at `now`
pub kept :
    (w last now : ℕ) (granted : List ℕ)
    → last ≤ now
    → keep_if (is_recent w now) (keep_if (is_recent w last) granted)
      ≡ keep_if (is_recent w now) granted
kept w last now granted h =
    keep_if-keep_if (is_recent w now) (is_recent w last) granted (λ x p. ground arith)

-- at an instant from `now` on, the window holds no more than what is recent at `now`
window-le-kept :
    (w now t : ℕ) (granted : List ℕ)
    → now ≤ t
    → count_if (in_window w t) granted ≤ length (keep_if (is_recent w now) granted)
window-le-kept w now t granted h = omega (
  arith,
  length-keep_if (is_recent w now) granted,
  count_if_mono (in_window w t) (is_recent w now) granted (λ x p. ground arith),
)

pub count-grant :
    (w now t limit : ℕ) (granted : List ℕ)
    → length (keep_if (is_recent w now) granted) < limit
    → count_if (in_window w t) granted ≤ limit
    → count_if (in_window w t) (granted ++ now ∷ []) ≤ limit
count-grant w now t limit granted room before = elim (Bool-cases (leb now t)) [
  | inl reached ↦
      ground
        (arith, count_if-append (in_window w t) granted (now ∷ []), window-le-kept w now t granted)
  | inr later ↦ ground (arith, count_if-append (in_window w t) granted (now ∷ []))
]

module _ (l : RateLimiter) (granted : List ℕ) (last now : ℕ) (asked : last ≤ now) where
  abbrev after : RateLimiter
  after = (allow_capped l now).0

  abbrev grants : List ℕ
  grants = if (allow_capped l now).1 then granted ++ now ∷ [] else granted

  keep_now :
      Inv l granted last
      → keep_if (is_recent l.window now) l.starts ≡ keep_if (is_recent l.window now) granted
  keep_now i = rw i.held (kept l.window last now granted asked)

  allow_capped-held :
      Inv l granted last → after.starts ≡ keep_if (is_recent after.window now) grants
  unfolding allow_capped
  allow_capped-held i =
      ground
        (arith, i.some_room, keep_now i, keep_if-append (is_recent l.window now) granted (now ∷ []))

  allow_capped-within : Inv l granted last → length after.starts ≤ pos_part after.limit
  unfolding allow_capped
  allow_capped-within i = ground (
    arith,
    i.within,
    length-keep_if-le (is_recent l.window now) l.starts,
    length-append (keep_if (is_recent l.window now) l.starts) (now ∷ []),
  )

  allow_capped-capped :
      Inv l granted last
      → (t : ℕ) → count_if (in_window after.window t) grants ≤ pos_part after.limit
  unfolding allow_capped
  allow_capped-capped i t =
      ground (arith, i.capped t, keep_now i, count-grant l.window now t (pos_part l.limit) granted)

  allow_capped-Inv : Inv l granted last → Inv after grants now
  unfolding allow_capped
  allow_capped-Inv i = record {
    held = allow_capped-held i;
    within = allow_capped-within i;
    capped = allow_capped-capped i;
    some_room = ground (arith, i.some_room);
  }

limit-allow_capped : (l : RateLimiter) (now : ℕ) → (allow_capped l now).0.limit ≡ l.limit
unfolding allow_capped
limit-allow_capped l now = ground arith

window-allow_capped : (l : RateLimiter) (now : ℕ) → (allow_capped l now).0.window ≡ l.window
unfolding allow_capped
window-allow_capped l now = ground arith

-- The calls behind the check of the limit.
unfoldable capped_all : RateLimiter → List ℕ → List ℕ → RateLimiter × List ℕ
capped_all l granted [] = (l, granted)
capped_all l granted (now ∷ rest) =
    let (l', admitted) = allow_capped l now in
    capped_all l' (if admitted then granted ++ now ∷ [] else granted) rest

-- The invariant after any run of calls; the last instant asked comes with it.
abbrev pub last_of : ℕ → List ℕ → ℕ
last_of last [] = last
last_of last (now ∷ rest) = last_of now rest

capped_all-Inv :
    (l : RateLimiter) (granted calls : List ℕ) (last : ℕ)
    → Inv l granted last
    → Ascending last calls
    → Inv (capped_all l granted calls).0 (capped_all l granted calls).1 (last_of last calls)
unfolding capped_all
capped_all-Inv l granted [] last i up = i
capped_all-Inv l granted (now ∷ rest) last i up =
    capped_all-Inv (allow_capped l now).0
      (if (allow_capped l now).1 then granted ++ now ∷ [] else granted) rest now
      (allow_capped-Inv l granted last now up.0 i) up.1

limit-capped_all :
    (l : RateLimiter) (granted calls : List ℕ) → (capped_all l granted calls).0.limit ≡ l.limit
unfolding capped_all
limit-capped_all l granted [] = refl
limit-capped_all l granted (now ∷ rest) =
    limit-capped_all (allow_capped l now).0
      (if (allow_capped l now).1 then granted ++ now ∷ [] else granted) rest
    ∙ limit-allow_capped l now

window-capped_all :
    (l : RateLimiter) (granted calls : List ℕ) → (capped_all l granted calls).0.window ≡ l.window
unfolding capped_all
window-capped_all l granted [] = refl
window-capped_all l granted (now ∷ rest) =
    window-capped_all (allow_capped l now).0
      (if (allow_capped l now).1 then granted ++ now ∷ [] else granted) rest
    ∙ window-allow_capped l now

module _ (l : RateLimiter) (calls : List ℕ) (fresh : l.starts ≡ []) (w : 0 < l.window) where
  fresh-Inv : Inv l [] 0
  fresh-Inv = record {
    held = fresh;
    within = rw fresh (omega arith);
    capped = λ t. omega arith;
    some_room = w;
  }

  run-Inv :
      Ascending 0 calls → Inv (capped_all l [] calls).0 (capped_all l [] calls).1 (last_of 0 calls)
  run-Inv up = capped_all-Inv l [] calls 0 fresh-Inv up

-- with a positive limit every call reaches the window
allow_all-capped :
    (l : RateLimiter) (granted calls : List ℕ)
    → is_positive l.limit ≡ true
    → allow_all (some l) granted calls
      ≡ (some (capped_all l granted calls).0, (capped_all l granted calls).1)
unfolding allow_all capped_all allow
allow_all-capped l granted [] p = refl
allow_all-capped l granted (now ∷ rest) p = rw p (
    allow_all-capped (allow_capped l now).0
      (if (allow_capped l now).1 then granted ++ now ∷ [] else granted) rest
      (rw (limit-allow_capped l now) p))

module _ (l : RateLimiter) (calls : List ℕ) (limited : is_positive l.limit ≡ true)
    (fresh : l.starts ≡ []) (w : 0 < l.window) (up : Ascending 0 calls) where
  -- Whatever instants a client asks at, in order, from a limiter with a positive limit, no recorded start
  -- and a positive window: a stretch of that length, wherever it ends, holds at most the limit of
  -- granted starts.
  pub starts_capped :
      (t : ℕ) → count_if (in_window l.window t) (allow_all (some l) [] calls).1 ≤ pos_part l.limit
  starts_capped t = rw (allow_all-capped l [] calls limited) (
      simp (← limit-capped_all l [] calls) (
        subst
          (λ (v : ℕ).
            count_if (in_window v t) (capped_all l [] calls).1
            ≤ pos_part (capped_all l [] calls).0.limit)
          (window-capped_all l [] calls) ((run-Inv l calls fresh w up).capped t)))

  -- After such a run, a call at an instant that is not before the earlier ones is admitted exactly
  -- when fewer starts than the limit were granted in the window that ends then.
  pub admits_below_limit :
      (now : ℕ)
      → last_of 0 calls ≤ now
      → (allow (allow_all (some l) [] calls).0 now).1
        ≡ ltb (count_if (is_recent l.window now) (allow_all (some l) [] calls).1) (pos_part l.limit)
  unfolding allow allow_capped
  admits_below_limit now late = rw (allow_all-capped l [] calls limited) (
      rw (limit-capped_all l [] calls) (
        rw limited (
          ground (
            arith,
            limit-capped_all l [] calls,
            window-capped_all l [] calls,
            length-keep_if (is_recent l.window now) (capped_all l [] calls).1,
            keep_now (capped_all l [] calls).0 (capped_all l [] calls).1 (last_of 0 calls) now late
                (run-Inv l calls fresh w up),
          ))))
