-- ===== src/Errors.antt =====
-- Errors as values: what the program asks of an error is its kind and its text.
use kscribe.Prelude.{Bool, Bytes, Option, false, if◌then◌else◌, none, some, true, ◌++◌}

-- An error by what the program asks of it, with its text; `wrap` is fmt.Errorf("prefix: %w", err).
pub data Error : Type 0 where
  not_found already_exists conflict other : Bytes → Error
  wrap : Bytes → Error → Error

-- err.Error()
unfoldable pub error_text : Error → Bytes
error_text (not_found m) = m
error_text (already_exists m) = m
error_text (conflict m) = m
error_text (other m) = m
error_text (wrap prefix e) = prefix ++ error_text e

abbrev pub is_not_found : Error → Bool
is_not_found (not_found m) = true
is_not_found (wrap prefix e) = is_not_found e
is_not_found _ = false

abbrev pub is_already_exists : Error → Bool
is_already_exists (already_exists m) = true
is_already_exists (wrap prefix e) = is_already_exists e
is_already_exists _ = false

abbrev pub is_conflict : Error → Bool
is_conflict (conflict m) = true
is_conflict (wrap prefix e) = is_conflict e
is_conflict _ = false

-- client.IgnoreNotFound
abbrev pub ignore_not_found : Error → Option Error
ignore_not_found e = if is_not_found e then none else some e

pub data Result {ℓ} (A : Type ℓ) : Type ℓ where
  ok : A → Result A
  err : Error → Result A
