-- ===== src/Store/Pages.antt =====
-- The list of incidents and its counts: pages, filters and the totals of the dashboard.
use kscribe.Prelude.{
  Bool, Bool-cases, Bytes, List, String, [], any_of, ap, arith, count_if, eq_iff, false,
  if◌then◌else◌, inl, inr, keep_if, length, length-keep_if, lookup, lookup-insert, none, or_default,
  refl, some, suc, sym, take, take-add, take_all, true, zero, ℕ, ◌&&◌, ◌*◌, ◌++◌, ◌==◌, ◌∙◌, ◌∷◌,
  ◌≡◌, ◌≢◌, ◌≤◌,
}
use native.Mathlib.Nat.{zero-mul, suc-mul}
use kscribe.Store.Schema.{Incident, IncidentFilter, Db}
use kscribe.Store.{
  matches, count_incidents, count_of_phase, add_phase, count_incidents_by_phase,
  list_incidents_page, insert_by, order_by, updated_last,
}

length-insert_by :
    {A : Type 0} (first : A → A → Bool) (x : A) (xs : List A)
    → length (insert_by first x xs) ≡ suc (length xs)
unfolding insert_by
length-insert_by first x [] = refl
length-insert_by first x (y ∷ xs) = ground (arith, length-insert_by first x xs)

length-order_by :
    {A : Type 0} (first : A → A → Bool) (xs : List A) → length (order_by first xs) ≡ length xs
unfolding order_by
length-order_by first [] = refl
length-order_by first (x ∷ xs) =
    length-insert_by first x (order_by first xs) ∙ ap suc (length-order_by first xs)

module _ (like : Bytes → Bytes → Bool) where
  -- filtering by a phase is filtering by the rest and then by the phase
  matches-phase :
      (f : IncidentFilter) (row : Incident)
      → f.phase ≢ ""
      → matches like f true row ≡ (row.phase == f.phase) && matches like f false row
  unfolding matches
  matches-phase f row h = ground (arith, eq_iff f.phase "")

  count-phase :
      (f : IncidentFilter) (rows : List Incident)
      → f.phase ≢ ""
      → count_if (matches like f true) rows ≡ count_of_phase like f f.phase rows
  count-phase f [] h = refl
  count-phase f (row ∷ rest) h = ground (arith, matches-phase f row h, count-phase f rest h)

  -- the entry of a phase, from the rows that were grouped
  lookup-add_phase :
      (f : IncidentFilter) (all rows : List Incident) (phase : String)
      → lookup phase (add_phase like f all rows) ≡ (
          if any_of (λ row. row.phase == phase) rows
          then some (count_of_phase like f phase all)
          else none)
  unfolding lookup
  lookup-add_phase f all [] phase = refl
  lookup-add_phase f all (row ∷ rest) phase =
      lookup-insert row.phase phase (count_of_phase like f row.phase all)
        (add_phase like f all rest)
      ∙ elim (Bool-cases (row.phase == phase)) [
        | inl same ↦
            rw same (ap (λ p. some (count_of_phase like f p all)) ((eq_iff row.phase phase).0 same))
        | inr other ↦ rw other (lookup-add_phase f all rest phase)
      ]

  none-count : {A : Type 0} (p : A → Bool) (xs : List A) → any_of p xs ≡ false → count_if p xs ≡ 0
  none-count p [] h = refl
  none-count p (x ∷ xs) h = ground (arith, none-count p xs)

  -- The card of a phase on the dashboard, which ignores the phase filter, shows the number of
  -- incidents that the list has once that phase is chosen; a phase without a card has none.
  pub card_is_total :
      (f : IncidentFilter) (db : Db)
      → f.phase ≢ ""
      → or_default (lookup f.phase (count_incidents_by_phase like f db)) 0
        ≡ count_incidents like f db
  unfolding count_incidents_by_phase count_incidents
  card_is_total f db h =
      rw
        (
          count-phase f db.incidents h,
          lookup-add_phase f db.incidents (keep_if (matches like f false) db.incidents) f.phase,
        )
        (elim (Bool-cases
          (any_of (λ row. row.phase == f.phase) (keep_if (matches like f false) db.incidents))) [
            | inl some_row ↦ rw some_row refl
            | inr no_row ↦
                rw no_row (sym (none-count (λ (row : Incident). row.phase == f.phase) _ no_row))
          ])

  module _ (tie : Incident → Incident → Bool) (f : IncidentFilter) (size : ℕ) (db : Db) where
    -- the first pages, one behind the other
    abbrev pub pages : ℕ → List Incident
    pages zero = []
    pages (suc n) = pages n ++ list_incidents_page like tie f size (n * size) db

    pages-take :
        (n : ℕ)
        → pages n
          ≡ take
              (n * size)
              (order_by (updated_last tie) (keep_if (matches like f true) db.incidents))
    unfolding list_incidents_page
    pages-take zero = rw zero-mul
    pages-take (suc n) = rw suc-mul (
        rw take-add (
          ap (λ (l : List Incident). l ++ list_incidents_page like tie f size (n * size) db)
            (pages-take n)))

  -- The pages of a list, put behind one another, are the matching incidents in their order: none is
  -- left out or shown twice, once the pages have room for all of them.
  pub pages_complete :
      (tie : Incident → Incident → Bool) (f : IncidentFilter) (size n : ℕ) (db : Db)
      → count_incidents like f db ≤ n * size
      → pages tie f size db n
        ≡ order_by (updated_last tie) (keep_if (matches like f true) db.incidents)
  unfolding count_incidents
  pages_complete tie f size n db room =
      pages-take tie f size db n
      ∙ take_all (n * size)
          (order_by (updated_last tie) (keep_if (matches like f true) db.incidents))
          (omega (
            arith,
            length-order_by (updated_last tie) (keep_if (matches like f true) db.incidents),
            length-keep_if (matches like f true) db.incidents,
          ))
