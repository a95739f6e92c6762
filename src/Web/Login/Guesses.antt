-- ===== src/Web/Login/Guesses.antt =====
-- How many wrong tokens an address can have checked, over every sequence of submissions.
use kscribe.Prelude.{
  Bool, Bool-cases, List, String, [], arith, count_if, eq_iff, eq_refl, false, if◌then◌else◌, inl,
  inr, is_empty, keep_if, keep_if-append, length, length-insert, length-remove, lookup,
  lookup-insert, lookup-remove, ltb, refl, true, ℕ, ◌&&◌, ◌++◌, ◌<◌, ◌==◌, ◌∙◌, ◌∷◌, ◌≡◌, ◌≤◌,
}
use mathlib.Core.Path.{subst}
use kscribe.Limiter.{is_recent}
use kscribe.Limiter.Window.{in_window, kept, count-grant}
use kscribe.Web.Login.{
  login_attempt_limit, login_attempt_window, login_tracked_ips_max, LoginLimiter, failures_of,
  LoginReply, too_many_requests, invalid_token, signed_in, too_many, record_failure, login_submit,
}

-- A submission of the login form, at the instant at which it is handled.
pub record Submission : Type 0 where
  pub ip : String
  pub candidate : String
  pub handled_at : ℕ

abbrev is_invalid : LoginReply → Bool
is_invalid too_many_requests = false
is_invalid invalid_token = true
is_invalid signed_in = false

abbrev pub submitted : String → LoginLimiter → Submission → LoginLimiter × LoginReply
submitted token l s = login_submit token l s.ip s.candidate s.handled_at s.handled_at

abbrev with_guess : String → List ℕ → Submission → LoginReply → List ℕ
with_guess ip guesses s reply =
    if s.ip == ip && is_invalid reply then guesses ++ s.handled_at ∷ [] else guesses

-- The instants at which a wrong token of the address `ip` was checked, behind the earlier ones.
unfoldable pub guesses_of : String → String → LoginLimiter → List ℕ → List Submission → List ℕ
guesses_of token ip l guesses [] = guesses
guesses_of token ip l guesses (s ∷ rest) =
    let (l', reply) = submitted token l s in
    guesses_of token ip l' (with_guess ip guesses s reply) rest

-- The submissions come in order, from `lo` on.
abbrev pub InOrder : ℕ → List Submission → Type 0
InOrder lo [] = Unit
InOrder lo (s ∷ rest) = (lo ≤ s.handled_at) × InOrder s.handled_at rest

-- No submission finds the maximal number of addresses tracked.
abbrev pub NeverFull : String → LoginLimiter → List Submission → Type 0
NeverFull token l [] = Unit
NeverFull token l (s ∷ rest) =
    (length l.failures < login_tracked_ips_max) × NeverFull token (submitted token l s).0 rest

is_empty-nil : (times : List ℕ) → is_empty times ≡ true → times ≡ []
is_empty-nil [] e = refl
is_empty-nil (t ∷ times) e = cc

failures-too_many :
    (l : LoginLimiter) (ip asked : String) (now : ℕ)
    → failures_of (too_many l ip now).0 asked ≡ (
        if ip == asked
        then keep_if (is_recent login_attempt_window now) (failures_of l ip)
        else failures_of l asked)
unfolding too_many
failures-too_many l ip asked now =
    let kept_times = keep_if (is_recent login_attempt_window now) (failures_of l ip) in
    elim (Bool-cases (is_empty kept_times)) [
      | inl none_kept ↦ rw none_kept (
          rw (lookup-remove ip asked l.failures)
            (ground (arith, is_empty-nil kept_times none_kept)))
      | inr some_kept ↦
          rw some_kept (rw (lookup-insert ip asked kept_times l.failures) (ground arith))
    ]

failures-record_failure :
    (l : LoginLimiter) (ip asked : String) (now : ℕ)
    → length l.failures ≤ login_tracked_ips_max
    → failures_of (record_failure l ip now) asked
      ≡ (if ip == asked then failures_of l ip ++ now ∷ [] else failures_of l asked)
unfolding record_failure
failures-record_failure l ip asked now small =
    let fits : ltb login_tracked_ips_max (length l.failures) ≡ false = ground (arith, small) in
    rw fits (rw (lookup-insert ip asked (failures_of l ip ++ now ∷ []) l.failures) (ground arith))

length-too_many :
    (l : LoginLimiter) (ip : String) (now : ℕ)
    → length l.failures < login_tracked_ips_max
    → length (too_many l ip now).0.failures ≤ login_tracked_ips_max
unfolding too_many
length-too_many l ip now small = ground (
  arith,
  length-remove ip l.failures,
  length-insert ip (keep_if (is_recent login_attempt_window now) (failures_of l ip)) l.failures,
)

-- The failures that a check at `now` keeps.
abbrev found : List ℕ → ℕ → List ℕ
found times now = keep_if (is_recent login_attempt_window now) times

-- What holds of the failures kept for an address and of its guesses from the instant `last` on.
record Counted (times guesses : List ℕ) (last : ℕ) : Type 0 where
  kept_alike :
      (now : ℕ)
      → last ≤ now
      → keep_if (is_recent login_attempt_window now) times
        ≡ keep_if (is_recent login_attempt_window now) guesses
  capped : (t : ℕ) → count_if (in_window login_attempt_window t) guesses ≤ login_attempt_limit

later-Counted :
    (times guesses : List ℕ) (last now : ℕ)
    → last ≤ now
    → Counted times guesses last
    → Counted times guesses now
later-Counted times guesses last now h c = record {
  kept_alike = λ n up. c.kept_alike n (omega (arith, h, up));
  capped = c.capped;
}

-- The failures that a submission finds kept, and a wrong guess behind them.
module _ (times guesses : List ℕ) (now : ℕ) (c : Counted times guesses now) where
  found-Counted : Counted (found times now) guesses now
  found-Counted = record {
    kept_alike = λ n up. kept login_attempt_window now n times up ∙ c.kept_alike n up;
    capped = c.capped;
  }

  guess-Counted :
      length (found times now) < login_attempt_limit
      → Counted (found times now ++ now ∷ []) (guesses ++ now ∷ []) now
  guess-Counted room = record {
    kept_alike = λ n up.
        rw (keep_if-append (is_recent login_attempt_window n) (found times now) (now ∷ [])) (
          rw (keep_if-append (is_recent login_attempt_window n) guesses (now ∷ []))
            (rw (found-Counted.kept_alike n up) refl));
    capped = λ t.
        count-grant login_attempt_window now t login_attempt_limit guesses
          (rw (← c.kept_alike now (omega arith)) room) (c.capped t);
  }

module _ (token : String) (l : LoginLimiter) (guesses : List ℕ) (s : Submission) where
  abbrev checked : LoginLimiter × Bool
  checked = too_many l s.ip s.handled_at

  room-found :
      checked.1 ≡ false → length (found (failures_of l s.ip) s.handled_at) < login_attempt_limit
  unfolding too_many
  room-found room = ground (arith, room)

  -- the failures of the submission's own address behind the check
  own-found : failures_of checked.0 s.ip ≡ found (failures_of l s.ip) s.handled_at
  own-found = rw (failures-too_many l s.ip s.ip s.handled_at) (rw (eq_refl s.ip) refl)

  own-Counted :
      length l.failures < login_tracked_ips_max
      → Counted (failures_of l s.ip) guesses s.handled_at
      → Counted
          (failures_of (submitted token l s).0 s.ip)
          (with_guess s.ip guesses s (submitted token l s).1)
          s.handled_at
  unfolding login_submit
  own-Counted small c =
      let sifted = found-Counted (failures_of l s.ip) guesses s.handled_at c in
      elim (Bool-cases checked.1) [
        | inl full ↦ rw full (rw (eq_refl s.ip) (rw own-found sifted))
        | inr room ↦ rw room (elim (Bool-cases (s.candidate == token)) [
          | inl right ↦ rw right (rw (eq_refl s.ip) (rw own-found sifted))
          | inr wrong ↦ rw wrong (
              rw (eq_refl s.ip) (
                rw
                  (failures-record_failure checked.0 s.ip s.ip s.handled_at
                    (length-too_many l s.ip s.handled_at small))
                  (rw (eq_refl s.ip) (
                    rw own-found (
                      guess-Counted (failures_of l s.ip) guesses s.handled_at c
                        (room-found room))))))
        ])
      ]

  failures-other :
      (ip : String)
      → length l.failures < login_tracked_ips_max
      → (s.ip == ip) ≡ false
      → failures_of (submitted token l s).0 ip ≡ failures_of l ip
  unfolding login_submit
  failures-other ip small other =
      let before : failures_of checked.0 ip ≡ failures_of l ip =
        rw (failures-too_many l s.ip ip s.handled_at) (rw other refl) in
      elim (Bool-cases checked.1) [
        | inl full ↦ rw full before
        | inr room ↦ rw room (elim (Bool-cases (s.candidate == token)) [
          | inl right ↦ rw right before
          | inr wrong ↦ rw wrong (
              rw
                (failures-record_failure checked.0 s.ip ip s.handled_at
                  (length-too_many l s.ip s.handled_at small))
                (rw other before))
        ])
      ]

  submitted-Counted :
      (ip : String)
      → length l.failures < login_tracked_ips_max
      → Counted (failures_of l ip) guesses s.handled_at
      → Counted
          (failures_of (submitted token l s).0 ip)
          (with_guess ip guesses s (submitted token l s).1)
          s.handled_at
  submitted-Counted ip small c = elim (Bool-cases (s.ip == ip)) [
    | inl same ↦
        subst
          (λ a.
            Counted (failures_of l a) guesses s.handled_at
            → Counted (failures_of (submitted token l s).0 a)
                (with_guess a guesses s (submitted token l s).1) s.handled_at)
          ((eq_iff s.ip ip).0 same) (own-Counted small) c
    | inr other ↦ rw other (rw (failures-other ip small other) c)
  ]

guesses_of-capped :
    (token ip : String) (l : LoginLimiter) (guesses : List ℕ) (last t : ℕ)
    → (submissions : List Submission) → InOrder last submissions
    → NeverFull token l submissions
    → Counted (failures_of l ip) guesses last
    → count_if (in_window login_attempt_window t) (guesses_of token ip l guesses submissions)
      ≤ login_attempt_limit
unfolding guesses_of
guesses_of-capped token ip l guesses last t [] up room c = c.capped t
guesses_of-capped token ip l guesses last t (s ∷ rest) up room c =
    guesses_of-capped token ip (submitted token l s).0
      (with_guess ip guesses s (submitted token l s).1) s.handled_at t rest up.1 room.1
      (submitted-Counted token l guesses s ip room.0
        (later-Counted (failures_of l ip) guesses last s.handled_at up.0 c))

-- From a fresh limiter, over every sequence of submissions of any addresses, handled one after the
-- other and each at one instant, of which none finds 1024 addresses tracked: in any minute, at most ten
-- wrong tokens of one address are checked.
pub guesses_capped :
    (token ip : String) (submissions : List Submission) (t : ℕ)
    → InOrder 0 submissions
    → NeverFull token (record { failures = [] }) submissions
    → count_if
        (in_window login_attempt_window t)
        (guesses_of token ip (record { failures = [] }) [] submissions)
      ≤ login_attempt_limit
unfolding lookup
guesses_capped token ip submissions t up room =
    guesses_of-capped token ip (record { failures = [] }) [] 0 t submissions up room
      (record { kept_alike = λ n h. refl; capped = λ x. omega arith })
