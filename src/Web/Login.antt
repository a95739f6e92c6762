-- ===== src/Web/Login.antt =====
-- internal/web/auth.go: who may use the dashboard, and the limit on failed logins.
--
-- The mutex makes each method of the limiter one step; each reads the clock once, which is an argument
-- in nanoseconds. subtle.ConstantTimeCompare is the equality of the texts. A request is what the checks
-- read of it: the text behind "Bearer " in its Authorization header, the login cookie, the method, and
-- whether it accepts HTML and whether its path ends in /stream.
pub mod Lockout
pub mod Guesses
use kscribe.Prelude.{
  Bool, List, Option, String, StringMap, [], false, if◌then◌else◌, insert, is_empty, keep_if, leb,
  length, lookup, ltb, none, not, or_default, remove, some, ℕ, ◌&&◌, ◌*◌, ◌++◌, ◌==◌, ◌||◌, ◌∷◌,
}
use kscribe.Limiter.{is_recent}

abbrev pub login_attempt_limit : ℕ
login_attempt_limit = 10

abbrev pub login_attempt_window : ℕ
login_attempt_window = 60 * 1000000000

abbrev pub login_tracked_ips_max : ℕ
login_tracked_ips_max = 1024

-- a nil map is the empty one
pub record LoginLimiter : Type 0 where
  pub failures : StringMap (List ℕ)

abbrev pub failures_of : LoginLimiter → String → List ℕ
failures_of l ip = or_default (lookup ip l.failures) []

unfoldable pub too_many : LoginLimiter → String → ℕ → LoginLimiter × Bool
too_many l ip now =
    let keep = keep_if (is_recent login_attempt_window now) (failures_of l ip) in
    (
      record {
        failures = if is_empty keep then remove ip l.failures else insert ip keep l.failures;
      },
      leb login_attempt_limit (length keep),
    )

-- the reset of a map that has grown too large
abbrev pub reset_if_large : LoginLimiter → LoginLimiter
reset_if_large l =
    if ltb login_tracked_ips_max (length l.failures) then record { failures = [] } else l

unfoldable pub record_failure : LoginLimiter → String → ℕ → LoginLimiter
record_failure l ip now =
    let l' = reset_if_large l in
    record { failures = insert ip (failures_of l' ip ++ now ∷ []) l'.failures }

pub record Credentials : Type 0 where
  pub bearer : Option String
  pub cookie : Option String

abbrev pub token_matches : String → Option String → Bool
token_matches token none = false
token_matches token (some candidate) = candidate == token

unfoldable pub authorized : String → Credentials → Bool
authorized token c = token_matches token c.bearer || token_matches token c.cookie

pub data Access : Type 0 where
  serve redirect_to_login unauthorized : Access

unfoldable pub require_auth : String → Credentials → Bool → Bool → Bool → Access
unfolding authorized
require_auth token c is_get accepts_html is_stream =
    if authorized token c
    then serve
    else if is_get && accepts_html && not is_stream
    then redirect_to_login
    else unauthorized

pub data LoginReply : Type 0 where
  too_many_requests invalid_token signed_in : LoginReply

-- `checked_at` and `failed_at` are the two instants that a submission reads.
unfoldable pub login_submit :
    String → LoginLimiter → String → String → ℕ → ℕ → LoginLimiter × LoginReply
unfolding too_many record_failure
login_submit token l ip candidate checked_at failed_at =
    let (l', exhausted) = too_many l ip checked_at in
    if exhausted
    then (l', too_many_requests)
    else if candidate == token
    then (l', signed_in)
    else (record_failure l' ip failed_at, invalid_token)
