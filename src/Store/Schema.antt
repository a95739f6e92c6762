-- ===== src/Store/Schema.antt =====
-- internal/store/sqlite.go and migrations/: the rows of the three tables, and the order of stored
-- instants.
--
-- `created_at` and `updated_at` of a stored row are set. An instant is stored as UTC text: with
-- nanoseconds in these two columns, cut to seconds in `started_at` and `completed_at`. SQL compares
-- the texts: `stored_before` is that order, for years of four digits.
use kscribe.Prelude.{
  Bool, Bytes, List, Option, String, [], eqb, false, if◌then◌else◌, is_empty, ltb, none, some, suc,
  true, zero, ℕ, ℤ, ◌%◌, ◌&&◌, ◌*◌, ◌++◌, ◌+◌, ◌/◌, ◌∷◌,
}

pub record Incident : Type 0 where
  pub namespace : String
  pub name : String
  pub event_uid : String
  pub involved_object_kind : String
  pub involved_object_name : String
  pub involved_object_namespace : String
  pub reason : String
  pub message : Bytes
  pub phase : String
  pub started_at : Option ℕ
  pub completed_at : Option ℕ
  pub llm_provider : String
  pub llm_model : String
  pub tokens_used : ℤ
  pub prompt_redacted : Bool
  pub persisted : Bool
  pub created_at : Option ℕ
  pub updated_at : Option ℕ

pub record Diagnosis : Type 0 where
  pub id : ℕ
  pub namespace : String
  pub name : String
  pub event_uid : String
  pub rca_json : Bytes
  pub summary : Bytes
  pub root_cause : Bytes
  pub remediation : Bytes
  pub confidence : ℕ
  pub created_at : ℕ
  pub context_json : Bytes
  pub reasoning : Bytes
  pub trace_json : Bytes

pub record ChatMessage : Type 0 where
  pub id : ℕ
  pub namespace : String
  pub name : String
  pub role : String
  pub content : Bytes
  pub created_at : ℕ

-- The empty string leaves a field of the filter out.
pub record IncidentFilter : Type 0 where
  pub phase : String
  pub namespace : String
  pub reason : String
  pub query : String

pub record IncidentDetail : Type 0 where
  pub incident : Incident
  pub diagnoses : List Diagnosis

-- The tables, each in the order of its row ids, and the last id given to a diagnosis and a message.
pub record Db : Type 0 where
  pub incidents : List Incident
  pub diagnoses : List Diagnosis
  pub chat_messages : List ChatMessage
  pub last_diagnosis : ℕ
  pub last_message : ℕ

abbrev pub second : ℕ
second = 1000000000

-- fmtTimePtr and back: RFC3339 has no fraction of a second.
unfoldable pub fmt_time_ptr : Option ℕ → Option ℕ
fmt_time_ptr none = none
fmt_time_ptr (some t) = some (t / second * second)

-- decimal digits of a number, as many as asked
unfoldable pub digits : ℕ → ℕ → Bytes
digits zero n = []
digits (suc k) n = digits k (n / 10) ++ (b'0' + n % 10) ∷ []

-- without the zeros at the end
unfoldable pub trim_zeros : Bytes → Bytes
trim_zeros [] = []
trim_zeros (d ∷ rest) = let t = trim_zeros rest in if is_empty t && eqb d b'0' then [] else d ∷ t

-- What RFC3339Nano writes behind the seconds: the fraction without zeros at its end, and the Z.
unfoldable pub fraction_text : ℕ → Bytes
fraction_text t =
    let frac = t % second in
    if eqb frac 0 then b'Z' ∷ [] else b'.' ∷ (trim_zeros (digits 9 frac) ++ b'Z' ∷ [])

-- lexicographic order of bytes
unfoldable pub text_before : Bytes → Bytes → Bool
text_before [] [] = false
text_before [] (y ∷ ys) = true
text_before (x ∷ xs) [] = false
text_before (x ∷ xs) (y ∷ ys) = let rest = text_before xs ys in if eqb x y then rest else ltb x y

-- a < b as SQL compares the stored texts
unfoldable pub stored_before : ℕ → ℕ → Bool
stored_before a b =
    if eqb (a / second) (b / second)
    then text_before (fraction_text a) (fraction_text b)
    else ltb (a / second) (b / second)
