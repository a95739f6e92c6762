-- ===== src/Limiter.antt =====
-- internal/controller/ratelimit.go: the sliding-window cap on diagnosis starts.
--
-- `RateLimiter` holds the limit, the window and the recorded starts, oldest first; the mutex makes
-- each call of `allow` one atomic step. Instants and durations are numbers of nanoseconds. The
-- injected clock is the argument `now`. `t.After(now.Add(-window))` is read as `now < t + window`.
pub mod Window
mod Tests
use kscribe.Prelude.{
  Bool, List, Option, [], false, if◌then◌else◌, is_positive, keep_if, leb, length, ltb, none,
  pos_part, some, true, ℕ, ℤ, ◌*◌, ◌++◌, ◌+◌, ◌∷◌,
}

abbrev pub hour : ℕ
hour = 3600 * 1000000000

pub record RateLimiter : Type 0 where
  pub limit : ℤ
  pub window : ℕ
  pub starts : List ℕ

unfoldable pub new_rate_limiter : ℤ → RateLimiter
new_rate_limiter limit = record { limit = limit; window = hour; starts = [] }

-- t.After(cutoff), for a start `t`
abbrev pub is_recent : ℕ → ℕ → ℕ → Bool
is_recent window now t = ltb now (t + window)

-- The body behind the nil and limit checks.
unfoldable pub allow_capped : RateLimiter → ℕ → RateLimiter × Bool
allow_capped l now =
    let keep = keep_if (is_recent l.window now) l.starts in
    if leb (pos_part l.limit) (length keep)
    then (record l { starts = keep }, false)
    else (record l { starts = keep ++ now ∷ [] }, true)

-- A nil limiter and a limit that is not positive admit everything and record nothing.
unfoldable pub allow : Option RateLimiter → ℕ → Option RateLimiter × Bool
unfolding allow_capped
allow none now = (none, true)
allow (some l) now =
    if is_positive l.limit
    then (let (l', admitted) = allow_capped l now in (some l', admitted))
    else (some l, true)

-- A client that asks at the given instants, and the starts that it was granted so far.
unfoldable pub allow_all : Option RateLimiter → List ℕ → List ℕ → Option RateLimiter × List ℕ
allow_all l granted [] = (l, granted)
allow_all l granted (now ∷ rest) =
    let (l', admitted) = allow l now in
    allow_all l' (if admitted then granted ++ now ∷ [] else granted) rest
