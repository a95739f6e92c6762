-- ===== src/Agent/OpenAi/Bounds.antt =====
-- What of a provider's error reaches the status of an object and the store.
use mathlib.Core.Path.{subst}
use kscribe.Prelude.{
  Bool-cases, Bytes, arith, bytes, encode_rune, if◌then◌else◌, inl, inr, length, length-take-le,
  ltb, ltb_false→le, take, ◌≡◌, ◌≤◌,
}
use kscribe.Agent.Schema.{Request, Response}
use kscribe.Agent.OpenAi.{
  OpenAiClient, SdkOptions, SdkParams, SdkCompletion, trunc_err, after_create, complete, sdk_client,
  completion_params,
}
use kscribe.Errors.{Error, error_text, Result, ok, err}

excerpt-short : (s : Bytes) → length (if ltb 512 (length s) then take 512 s else s) ≤ 512
excerpt-short s = elim (Bool-cases (ltb 512 (length s))) [
  | inl long ↦ rw long (length-take-le 512 s)
  | inr short ↦ rw short (ltb_false→le 512 (length s) short)
]

trunc_err-short : (e : Error) → length (error_text (trunc_err e)) ≤ 528
unfolding trunc_err error_text bytes encode_rune
trunc_err-short e = omega (arith, excerpt-short (error_text e))

-- an error whose text has at most 528 bytes, or an answer
abbrev ErrorIsShort : Result Response → Type 0
ErrorIsShort (ok resp) = Unit
ErrorIsShort (err e) = length (error_text e) ≤ 528

after_create-ErrorIsShort :
    {W : Type 0} (answer : Result SdkCompletion × W) → ErrorIsShort (after_create answer).0
after_create-ErrorIsShort (err e, w) = trunc_err-short e
after_create-ErrorIsShort (ok resp, w) = tt

-- An error of a completion has at most 528 bytes: sixteen of its own and at most 512 of the provider's.
pub provider_error_short :
    {W : Type 0} (create : SdkOptions → SdkParams → W → Result SdkCompletion × W) (c : OpenAiClient)
    (req : Request) (w : W) (e : Error)
    → (complete create c req w).0 ≡ err e
    → length (error_text e) ≤ 528
unfolding complete
provider_error_short create c req w e failed =
    subst ErrorIsShort failed
      (after_create-ErrorIsShort (create (sdk_client c) (completion_params c req) w))
