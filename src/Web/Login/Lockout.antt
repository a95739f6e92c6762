-- ===== src/Web/Login/Lockout.antt =====
-- What the limit on failed logins holds off, and how it is lost.
use kscribe.Prelude.{
  All, Bool-cases, List, Option, String, [], ap, append-nil, append_assoc, arith, eq_iff, eq_refl,
  false, inl, inr, insert, keep_if, length, lookup, ltb, none, refl, some, sym, true, ℕ, ◌++◌, ◌+◌,
  ◌<◌, ◌==◌, ◌↔◌, ◌∙◌, ◌∷◌, ◌≡◌, ◌≤◌, ◌⊎◌,
}
use kscribe.Limiter.{is_recent}
use kscribe.Web.Login.{
  login_attempt_limit, login_attempt_window, login_tracked_ips_max, LoginLimiter, too_many,
  record_failure, Credentials, token_matches, authorized, signed_in, too_many_requests,
  login_submit,
}

-- A submission signs in exactly when the address has failures left and the token is the configured one.
pub signed_in_iff :
    (token : String) (l : LoginLimiter) (ip candidate : String) (checked_at failed_at : ℕ)
    → ((login_submit token l ip candidate checked_at failed_at).1 ≡ signed_in)
      ↔ (((too_many l ip checked_at).1 ≡ false) × (candidate ≡ token))
unfolding login_submit
signed_in_iff token l ip candidate checked_at failed_at =
    elim (Bool-cases (too_many l ip checked_at).1) [
      | inl full ↦ rw full (λ h. cc, λ h. cc)
      | inr room ↦ rw room (elim (Bool-cases (candidate == token)) [
        | inl same ↦ rw same (λ h. (refl, (eq_iff candidate token).0 same), λ h. refl)
        | inr other ↦ rw other (λ h. cc, λ h. ground (arith, h, eq_iff candidate token))
      ])
    ]

-- A request is authorized exactly when one of its two credentials is the token.
pub authorized_iff :
    (token : String) (c : Credentials)
    → (authorized token c ≡ true) ↔ ((c.bearer ≡ some token) ⊎ (c.cookie ≡ some token))
unfolding authorized
authorized_iff token c = (
  λ h. elim (Bool-cases (token_matches token c.bearer)) [
    | inl yes' ↦ inl (matches-some c.bearer yes')
    | inr no' ↦ inr (matches-some c.cookie (rw no' at h))
  ],
  λ h. elim h [
    | inl e ↦ rw e (rw (eq_refl token) refl)
    | inr e ↦ rw e (rw (eq_refl token) (ground arith))
  ],
)
  where
    matches-some : (o : Option String) → token_matches token o ≡ true → o ≡ some token
    matches-some none h = cc
    matches-some (some candidate) h = ap some ((eq_iff candidate token).0 h)

-- The failures of one address, one after the other.
abbrev pub record_all : LoginLimiter → String → List ℕ → LoginLimiter
record_all l ip [] = l
record_all l ip (t ∷ rest) = record_all (record_failure l ip t) ip rest

abbrev only : String → List ℕ → LoginLimiter
only ip times = record { failures = (ip, times) ∷ [] }

record_all-only :
    (ip : String) (before times : List ℕ)
    → record_all (only ip before) ip times ≡ only ip (before ++ times)
unfolding record_failure lookup insert
record_all-only ip before [] = ap (only ip) (sym (append-nil before))
record_all-only ip before (t ∷ rest) =
    rw (eq_refl ip) (
      record_all-only ip (before ++ t ∷ []) rest ∙ ap (only ip) (append_assoc before (t ∷ []) rest))

All-recent :
    (now : ℕ) (times : List ℕ)
    → All (λ t. now < t + login_attempt_window) times
    → keep_if (is_recent login_attempt_window now) times ≡ times
All-recent now [] h = refl
All-recent now (t ∷ rest) h = ground (arith, h.0, All-recent now rest h.1)

-- After ten or more failures of an address, none a minute old, even the right token is refused.
pub failures_lock_out :
    (token : String) (ip candidate : String) (t : ℕ) (times : List ℕ) (checked_at failed_at : ℕ)
    → login_attempt_limit ≤ length (t ∷ times)
    → All (λ s. checked_at < s + login_attempt_window) (t ∷ times)
    → (login_submit token
        (record_all (record { failures = [] }) ip (t ∷ times))
        ip
        candidate
        checked_at
        failed_at).1
      ≡ too_many_requests
unfolding login_submit too_many record_failure lookup insert
failures_lock_out token ip candidate t times checked_at failed_at many recent =
    rw (record_all-only ip (t ∷ []) times)
      (rw (eq_refl ip) (rw (All-recent checked_at (t ∷ times) recent) (ground (arith, many))))

-- Once more addresses are tracked than the maximum, the next failure of any other address clears the
-- failures of an address that was locked out: it may try again at once.
pub reset_frees :
    (l : LoginLimiter) (ip other : String) (failed_at now : ℕ)
    → login_tracked_ips_max < length l.failures
    → (other == ip) ≡ false
    → (too_many (record_failure l other failed_at) ip now).1 ≡ false
unfolding too_many record_failure lookup insert
reset_frees l ip other failed_at now large differs =
    let over : ltb login_tracked_ips_max (length l.failures) ≡ true = ground (arith, large) in
    rw over (rw differs refl)
