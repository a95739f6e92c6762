-- ===== src/Web/Server/Paging.antt =====
-- The list's pages: every page that is shown exists, and turning through them shows everything.
use kscribe.Prelude.{
  Bool, Bool-cases, Bytes, List, [], ap, arith, count_if, eqb, if◌then◌else◌, inl, inr, is_positive,
  keep_if, le→ltb, parse_int, parsed_value, pos_part, refl, suc, sym, true, zero, ℕ, ℤ, ◌*◌, ◌++◌,
  ◌-◌, ◌<◌, ◌∙◌, ◌≡◌, ◌≤◌, ◌⊎◌,
}
use kscribe.Store.{list_incidents_page, matches, count_incidents, order_by, updated_last}
use kscribe.Store.Sorting.{
  AllApart, order_by-ties, NewestFirst, order_by-NewestFirst, count_if-order_by,
}
use mathlib.Core.Path.{subst}
use kscribe.Store.Schema.{Incident, IncidentFilter, Db}
use kscribe.Store.Pages.{pages, pages_complete}
use kscribe.Web.Server.{page_size, asked_page, last_page_of, clamp_page, list_at}

module _ (like : Bytes → Bytes → Bool) (tie : Incident → Incident → Bool) where
  last_page_of-positive : (total : ℕ) → 1 ≤ last_page_of total
  unfolding last_page_of
  last_page_of-positive total = ground arith

  last_page_of-room : (total : ℕ) → total ≤ last_page_of total * page_size
  unfolding last_page_of
  last_page_of-room total = ground arith

  asked_page-positive : (text : Bytes) → 1 ≤ asked_page text
  unfolding asked_page
  asked_page-positive text = at_value (parsed_value (parse_int text))
    where
      at_value : (z : ℤ) → 1 ≤ (if is_positive z then pos_part z else 1)
      at_value (ℤ.pos zero) = omega arith
      at_value (ℤ.pos (suc n)) = omega arith
      at_value (ℤ.negsuc n) = omega arith

  clamped_offset :
      (total page : ℕ)
      → 1 ≤ page
      → page ≤ last_page_of total
      → (total ≡ 0) ⊎ ((page - 1) * page_size < total)
  unfolding last_page_of
  clamped_offset total page positive within = elim (Bool-cases (eqb total 0)) [
    | inl none_match ↦ inl (ground arith)
    | inr some_match ↦ inr (ground arith)
  ]

  -- Every request is shown a page between 1 and the last, and one that begins at an incident, unless no
  -- incident matches.
  pub page_exists :
      (filter : IncidentFilter) (text : Bytes) (db : Db)
      → let shown = list_at like tie filter (asked_page text) db in
        (1 ≤ shown.page)
        × (shown.page ≤ shown.last_page)
        × ((count_incidents like filter db ≡ 0)
            ⊎ ((shown.page - 1) * page_size < count_incidents like filter db))
  unfolding list_at
  page_exists filter text db = (low, high, clamped_offset total _ low high)
    where
      total : ℕ
      total = count_incidents like filter db

      low : 1 ≤ clamp_page (asked_page text) (last_page_of total)
      low = ground (arith, asked_page-positive text, last_page_of-positive total)

      high : clamp_page (asked_page text) (last_page_of total) ≤ last_page_of total
      high = ground arith

-- The order of rows with the same stored text, for each page that is asked for.
module _ (like : Bytes → Bytes → Bool) (ties : ℕ → Incident → Incident → Bool)
    (filter : IncidentFilter) (db : Db) where
  -- The incidents of the first pages, as they are shown one after the other.
  unfoldable pub turned_pages : ℕ → List Incident
  turned_pages zero = []
  turned_pages (suc n) = turned_pages n ++ (list_at like (ties (suc n)) filter (suc n) db).incidents

  suc-sub : (n : ℕ) → suc n - 1 ≡ n
  suc-sub n = omega arith

  turned_pages-pages :
      (n : ℕ)
      → AllApart (keep_if (matches like filter true) db.incidents)
      → n ≤ last_page_of (count_incidents like filter db)
      → turned_pages n ≡ pages like (ties 0) filter page_size db n
  unfolding turned_pages list_at list_incidents_page
  turned_pages-pages zero apart h = refl
  turned_pages-pages (suc n) apart h =
      rw
        (
          turned_pages-pages n apart (omega arith),
          le→ltb (last_page_of (count_incidents like filter db)) (suc n) h,
          suc-sub n,
          order_by-ties (ties (suc n)) (ties 0) (keep_if (matches like filter true) db.incidents)
              apart,
        )
        refl

  -- Where no two matching incidents have the same stored text of their last update, turning from the first
  -- page to the last shows every matching incident once, the one updated last first, as those texts
  -- compare, and so what the query would answer without a limit, however each page's query breaks ties.
  pub browsing_shows_all :
      AllApart (keep_if (matches like filter true) db.incidents)
      → let all = turned_pages (list_at like (ties 1) filter 1 db).last_page in
        (all ≡ order_by (updated_last (ties 0)) (keep_if (matches like filter true) db.incidents))
        × NewestFirst all
        × ((p : Incident → Bool)
            → count_if p all ≡ count_if p (keep_if (matches like filter true) db.incidents))
  unfolding list_at
  browsing_shows_all apart =
      let shown =
        turned_pages-pages _ apart (omega arith)
        ∙ pages_complete like (ties 0) filter page_size _ db
            (last_page_of-room like (ties 0) (count_incidents like filter db)) in
      (
        shown,
        subst NewestFirst (sym shown) (order_by-NewestFirst (ties 0) _),
        λ p. ap (count_if p) shown ∙ count_if-order_by (updated_last (ties 0)) p _,
      )
