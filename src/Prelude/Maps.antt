-- ===== src/Prelude/Maps.antt =====
-- Go maps with string keys, as association lists in which a key stands once.
use Prim.Native.Nat.{suc, ◌≤◌}
use Prim.Native.String.{String}
use mathlib.Core.Bool.{Bool, true, false}
use mathlib.Core.Logic.{inl, inr}
use mathlib.Core.Path.{◌≡◌, refl}
use mathlib.Core.Option.{Option, none, some}
use mathlib.Core.List.{List, [], ◌∷◌}
use native.Mathlib.Omega.{arith}
use text.Mathlib.Text.{◌==◌}
use text.Mathlib.TextEquality.{eq_iff}
use kscribe.Prelude.Tests.{if◌then◌else◌, Bool-cases}
use kscribe.Prelude.Lists.{length, keep_if}

abbrev pub StringMap {ℓ} : Type ℓ → Type ℓ
StringMap V = List (String × V)

module _ {ℓ} {V : Type ℓ} where
  -- m[key]
  unfoldable pub lookup : String → StringMap V → Option V
  lookup key [] = none
  lookup key ((used, old) ∷ rest) = if used == key then some old else lookup key rest

  -- m[key] = value, in the place of the key or behind the others
  unfoldable pub insert : String → V → StringMap V → StringMap V
  insert key value [] = (key, value) ∷ []
  insert key value ((used, old) ∷ rest) =
      let others = insert key value rest in
      if used == key then (key, value) ∷ rest else (used, old) ∷ others

  -- delete(m, key)
  unfoldable pub remove : String → StringMap V → StringMap V
  remove key [] = []
  remove key ((used, old) ∷ rest) =
      let others = remove key rest in if used == key then others else (used, old) ∷ others

  pub lookup-insert :
      (set asked : String) (value : V) (rest : StringMap V)
      → lookup asked (insert set value rest)
        ≡ (if set == asked then some value else lookup asked rest)
  unfolding lookup insert
  lookup-insert set asked value [] = refl
  lookup-insert set asked value ((used, old) ∷ rest) = ground (
    arith,
    lookup-insert set asked value rest,
    eq_iff used asked,
    eq_iff used set,
    eq_iff set asked,
  )

  pub lookup-remove :
      (k j : String) (m : StringMap V)
      → lookup j (remove k m) ≡ (if k == j then none else lookup j m)
  unfolding lookup remove
  lookup-remove k j [] = ground arith
  lookup-remove k j ((i, w) ∷ m) =
      ground (arith, eq_iff k j, eq_iff i k, eq_iff i j, lookup-remove k j m)

  pub length-insert :
      (k : String) (v : V) (m : StringMap V) → length (insert k v m) ≤ suc (length m)
  unfolding insert
  length-insert k v [] = omega arith
  length-insert k v ((j, w) ∷ m) = ground (arith, length-insert k v m)

  pub length-remove : (k : String) (m : StringMap V) → length (remove k m) ≤ length m
  unfolding remove
  length-remove k [] = omega arith
  length-remove k ((j, w) ∷ m) = ground (arith, length-remove k m)

-- Every key stands once.
module _ {ℓ} {V : Type ℓ} where
  abbrev pub Unique : StringMap V → Type ℓ
  Unique [] = Unit
  Unique ((k, v) ∷ m) = (lookup k m ≡ none) × Unique m

  pub lookup-keep_if-none :
      (p : String × V → Bool) (k : String) (m : StringMap V)
      → lookup k m ≡ none
      → lookup k (keep_if p m) ≡ none
  unfolding lookup
  lookup-keep_if-none p k [] h = refl
  lookup-keep_if-none p k ((j, w) ∷ m) h = ground (arith, lookup-keep_if-none p k m)

  pub insert-Unique : (k : String) (v : V) (m : StringMap V) → Unique m → Unique (insert k v m)
  unfolding insert lookup
  insert-Unique k v [] u = (refl, tt)
  insert-Unique k v ((j, w) ∷ m) u = elim (Bool-cases (j == k)) [
    | inl same ↦ rw same (rw (← (eq_iff j k).0 same) u.0, u.1)
    | inr other ↦ rw other (
      rw (lookup-insert k j v m) (ground (arith, u.0, eq_iff j k, eq_iff k j)),
      insert-Unique k v m u.1,
    )
  ]

  pub keep_if-Unique : (p : String × V → Bool) (m : StringMap V) → Unique m → Unique (keep_if p m)
  keep_if-Unique p [] u = tt
  keep_if-Unique p ((j, w) ∷ m) u = choose (p (j, w)) (keep_if-Unique p m u.1)
    where
      choose :
          (b : Bool)
          → Unique (keep_if p m)
          → Unique (if b then (j, w) ∷ keep_if p m else keep_if p m)
      choose true rest = (lookup-keep_if-none p j m u.0, rest)
      choose false rest = rest
