-- ===== src/Store/Sorting.antt =====
-- ORDER BY: the rows are sorted, and the same ones.
use kscribe.Prelude.{
  All, Bool, Bool-cases, Bytes, List, [], ap, arith, count_if, false, inl, inr, refl, true, ℕ, ◌||◌,
  ◌∙◌, ◌∷◌, ◌≡◌,
}
use kscribe.Store.Schema.{Incident, text_before, stored_before, fraction_text}
use kscribe.Store.{insert_by, order_by, is_newer, updated_last}

count_if-insert_by :
    {A : Type 0} (first : A → A → Bool) (p : A → Bool) (x : A) (xs : List A)
    → count_if p (insert_by first x xs) ≡ count_if p (x ∷ xs)
unfolding insert_by
count_if-insert_by first p x [] = refl
count_if-insert_by first p x (y ∷ xs) = ground (arith, count_if-insert_by first p x xs)

pub count_if-order_by :
    {A : Type 0} (first : A → A → Bool) (p : A → Bool) (xs : List A)
    → count_if p (order_by first xs) ≡ count_if p xs
unfolding order_by
count_if-order_by first p [] = refl
count_if-order_by first p (x ∷ xs) =
    ground (arith, count_if-insert_by first p x (order_by first xs), count_if-order_by first p xs)

-- of two texts, not each stands before the other
text_before-asym : (x y : Bytes) → text_before x y ≡ true → text_before y x ≡ false
unfolding text_before
text_before-asym [] [] h = refl
text_before-asym [] (y ∷ ys) h = refl
text_before-asym (x ∷ xs) [] h = cc
text_before-asym (x ∷ xs) (y ∷ ys) h = ground (arith, h, text_before-asym xs ys)

stored_before-asym : (a b : ℕ) → stored_before a b ≡ true → stored_before b a ≡ false
unfolding stored_before
stored_before-asym a b h = ground (arith, h, text_before-asym (fraction_text a) (fraction_text b))

abbrev pub Follows : Incident → List Incident → Type 0
Follows x [] = Unit
Follows x (y ∷ rest) = is_newer y x ≡ false

-- Each row is not newer than the one before it.
abbrev pub NewestFirst : List Incident → Type 0
NewestFirst [] = Unit
NewestFirst (x ∷ rest) = Follows x rest × NewestFirst rest

not_newer :
    (tie : Incident → Incident → Bool) (y x : Incident)
    → updated_last tie y x ≡ true
    → is_newer x y ≡ false
not_newer tie y x h = elim (Bool-cases (is_newer y x)) [
  | inl newer ↦ stored_before-asym _ _ newer
  | inr other ↦ ground (arith, h, other)
]

insert_by-Follows :
    (tie : Incident → Incident → Bool) (y x : Incident) (rows : List Incident)
    → is_newer x y ≡ false
    → Follows y rows
    → Follows y (insert_by (updated_last tie) x rows)
unfolding insert_by
insert_by-Follows tie y x [] h f = h
insert_by-Follows tie y x (z ∷ rows) h f = elim (Bool-cases (updated_last tie z x)) [
  | inl before ↦ rw before f
  | inr behind ↦ rw behind h
]

insert_by-NewestFirst :
    (tie : Incident → Incident → Bool) (x : Incident) (rows : List Incident)
    → NewestFirst rows
    → NewestFirst (insert_by (updated_last tie) x rows)
unfolding insert_by
insert_by-NewestFirst tie x [] h = (tt, tt)
insert_by-NewestFirst tie x (y ∷ rows) h = elim (Bool-cases (updated_last tie y x)) [
  | inl before ↦ rw before (
    insert_by-Follows tie y x rows (not_newer tie y x before) h.0,
    insert_by-NewestFirst tie x rows h.1,
  )
  | inr behind ↦ rw behind (ground (arith, behind), h)
]

pub order_by-NewestFirst :
    (tie : Incident → Incident → Bool) (rows : List Incident)
    → NewestFirst (order_by (updated_last tie) rows)
unfolding order_by
order_by-NewestFirst tie [] = tt
order_by-NewestFirst tie (x ∷ rows) =
    insert_by-NewestFirst tie x (order_by (updated_last tie) rows) (order_by-NewestFirst tie rows)

-- Two rows whose stored texts differ.
abbrev pub Apart : Incident → Incident → Type 0
Apart a b = (is_newer a b || is_newer b a) ≡ true

-- No two rows have the same stored text.
abbrev pub AllApart : List Incident → Type 0
AllApart [] = Unit
AllApart (x ∷ rest) = All (Apart x) rest × AllApart rest

All-insert_by :
    {A : Type 0} (P : A → Type 0) (first : A → A → Bool) (x : A) (xs : List A)
    → P x
    → All P xs
    → All P (insert_by first x xs)
unfolding insert_by
All-insert_by P first x [] h hs = (h, tt)
All-insert_by P first x (y ∷ xs) h hs = elim (Bool-cases (first y x)) [
  | inl before ↦ rw before (hs.0, All-insert_by P first x xs h hs.1)
  | inr behind ↦ rw behind (h, hs)
]

All-order_by :
    {A : Type 0} (P : A → Type 0) (first : A → A → Bool) (xs : List A)
    → All P xs
    → All P (order_by first xs)
unfolding order_by
All-order_by P first [] h = tt
All-order_by P first (x ∷ xs) h =
    All-insert_by P first x (order_by first xs) h.0 (All-order_by P first xs h.1)

insert_by-ties :
    (tie other : Incident → Incident → Bool) (x : Incident) (rows : List Incident)
    → All (Apart x) rows
    → insert_by (updated_last tie) x rows ≡ insert_by (updated_last other) x rows
unfolding insert_by
insert_by-ties tie other x [] h = refl
insert_by-ties tie other x (y ∷ rows) h =
    let same : updated_last tie y x ≡ updated_last other y x = ground (arith, h.0) in
    rw (same, insert_by-ties tie other x rows h.1) refl

-- Where no two rows have the same text, the order of ties does not matter.
pub order_by-ties :
    (tie other : Incident → Incident → Bool) (rows : List Incident)
    → AllApart rows
    → order_by (updated_last tie) rows ≡ order_by (updated_last other) rows
unfolding order_by
order_by-ties tie other [] h = refl
order_by-ties tie other (x ∷ rows) h =
    insert_by-ties tie other x (order_by (updated_last tie) rows)
      (All-order_by (Apart x) (updated_last tie) rows h.0)
    ∙ ap (insert_by (updated_last other) x) (order_by-ties tie other rows h.1)
