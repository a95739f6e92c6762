-- ===== src/Web/Server/Tests.antt =====
-- The theorems of the server at a concrete store.
use kscribe.Prelude.{
  Bool, Bytes, String, [], any_of, ap, arith, bytes, count_if, eqb, false, keep_if, length, none,
  refl, some, suc, true, zero, ℕ, ℤ, ◌*◌, ◌++◌, ◌-◌, ◌<◌, ◌∷◌, ◌≡◌, ◌≤◌, ◌⊎◌,
}
use kscribe.Store.{matches, count_incidents, order_by, updated_last}
use kscribe.Store.Sorting.{AllApart, NewestFirst}
use kscribe.Store.Schema.{stored_before, Incident, IncidentFilter, Db}
use kscribe.Web.Server.{page_size, asked_page, list_at, write_sse}
use kscribe.Web.Server.Paging.{page_exists, turned_pages, browsing_shows_all}
use kscribe.Web.Server.Frames.{long_line_lost}

abbrev incident : String → ℕ → Incident
incident name updated = record {
  namespace = "shop";
  name = name;
  event_uid = "uid-1";
  involved_object_kind = "Pod";
  involved_object_name = "cart";
  involved_object_namespace = "shop";
  reason = "BackOff";
  message = [];
  phase = "Done";
  started_at = none;
  completed_at = none;
  llm_provider = "";
  llm_model = "";
  tokens_used = ℤ.pos 0;
  prompt_redacted = false;
  persisted = true;
  created_at = some 1;
  updated_at = some updated;
}

abbrev two_incidents : Db
two_incidents = record {
  incidents = incident "ksd-1" 1 ∷ incident "ksd-2" 2000000000 ∷ [];
  diagnoses = [];
  chat_messages = [];
  last_diagnosis = 0;
  last_message = 0;
}

abbrev everything : IncidentFilter
everything = record { phase = ""; namespace = ""; reason = ""; query = "" }

abbrev like_none : Bytes → Bytes → Bool
like_none text pattern = false

abbrev as_stored : Incident → Incident → Bool
as_stored a b = true

page_exists_example :
    (1 ≤ (list_at like_none as_stored everything (asked_page (bytes "9")) two_incidents).page)
    × ((list_at like_none as_stored everything (asked_page (bytes "9")) two_incidents).page
        ≤ (list_at like_none as_stored everything (asked_page (bytes "9")) two_incidents).last_page)
    × ((count_incidents like_none everything two_incidents ≡ 0)
        ⊎ (((list_at like_none as_stored everything (asked_page (bytes "9")) two_incidents).page
                - 1)
              * page_size
            < count_incidents like_none everything two_incidents))
page_exists_example = page_exists like_none as_stored everything (bytes "9") two_incidents

-- each page's query breaks ties in another way
abbrev by_page : ℕ → Incident → Incident → Bool
by_page n a b = eqb n 1

two_apart : AllApart (keep_if (matches like_none everything true) two_incidents.incidents)
unfolding stored_before matches
two_apart = ((refl, tt), (tt, tt))

browsing_shows_all_example :
    let all =
      turned_pages like_none by_page everything two_incidents
        (list_at like_none (by_page 1) everything 1 two_incidents).last_page in
    (all
      ≡ order_by
          (updated_last (by_page 0))
          (keep_if (matches like_none everything true) two_incidents.incidents))
    × NewestFirst all
    × ((p : Incident → Bool)
        → count_if p all
          ≡ count_if p (keep_if (matches like_none everything true) two_incidents.incidents))
browsing_shows_all_example = browsing_shows_all like_none by_page everything two_incidents two_apart

-- `n` letters
abbrev letters : ℕ → Bytes
letters zero = []
letters (suc n) = b'a' ∷ letters n

length-letters : (n : ℕ) → length (letters n) ≡ n
length-letters zero = refl
length-letters (suc n) = ap suc (length-letters n)

letters-one_line : (n : ℕ) → any_of (λ c. eqb c 10) (letters n) ≡ false
letters-one_line zero = refl
letters-one_line (suc n) = ground (arith, letters-one_line n)

long_line_lost_example : write_sse (letters 65536 ++ bytes "\nmore") ≡ bytes "\n"
long_line_lost_example =
    long_line_lost (letters 65536) (bytes "\nmore") (letters-one_line 65536)
      (omega (arith, length-letters 65536))
