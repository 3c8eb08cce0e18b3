-- ===== src/Common/Dict.antt =====
-- Go maps with string keys as association lists; the order of the list is the order in which a
-- `range` visits the entries. Laws of lookup after insert and delete.
use mathlib.Core.Path.{◌≡◌, refl}
use mathlib.Core.Bool.{Bool, true, false}
use mathlib.Core.Option.{Option, none, some}
use mathlib.Core.List.{List, [], ◌∷◌, ◌++◌, map}
use native.Mathlib.Omega.{arith}
use crabwise.Common.Tests.{if◌then◌else◌}
use crabwise.Common.Strings.{Text, ◌==◌, ==_iff}

abbrev pub Map {ℓ} : Type ℓ → Type ℓ
Map V = List (Text × V)

module _ {ℓ} {V : Type ℓ} where
  unfoldable pub lookup : Text → Map V → Option V
  lookup key [] = none
  lookup key ((name, value) ∷ rest) = if name == key then some value else lookup key rest

  unfoldable pub insert : Text → V → Map V → Map V
  insert key new [] = (key, new) ∷ []
  insert key new ((name, value) ∷ rest) =
      if name == key then (key, new) ∷ rest else (name, value) ∷ insert key new rest

  unfoldable pub delete : Text → Map V → Map V
  delete k [] = []
  delete k ((j, v) ∷ m) = if j == k then delete k m else (j, v) ∷ delete k m

  pub lookup-insert :
      (key sought : Text) (new : V) (rest : Map V)
      → lookup sought (insert key new rest)
        ≡ (if key == sought then some new else lookup sought rest)
  unfolding lookup insert
  lookup-insert key sought new [] = refl
  lookup-insert key sought new ((name, value) ∷ rest) =
      let step = lookup-insert key sought new rest in
      ground (arith, step, ==_iff name sought, ==_iff key sought, ==_iff name key)

  pub lookup-delete :
      (k j : Text) (m : Map V) → lookup j (delete k m) ≡ (if k == j then none else lookup j m)
  unfolding lookup delete
  lookup-delete k j [] = ground arith
  lookup-delete k j ((i, w) ∷ m) =
      ground (arith, ==_iff k j, ==_iff i k, ==_iff i j, lookup-delete k j m)

  abbrev pub has : Text → Map V → Bool
  has k m = elim (lookup k m) [ none ↦ false | some v ↦ true ]

  -- `m[k]` where a missing key reads as the zero value.
  abbrev pub lookup_or : Text → Map V → V → V
  lookup_or k m d = elim (lookup k m) [ none ↦ d | some v ↦ v ]

abbrev pub keys {ℓ} : {V : Type ℓ} → Map V → List Text
keys = map (λ entry. entry.0)

-- A set of strings: `map[string]struct{}`.
unfoldable pub member : Text → List Text → Bool
member k [] = false
member k (j ∷ js) = if j == k then true else member k js

unfoldable pub add : Text → List Text → List Text
add k [] = k ∷ []
add k (j ∷ js) = if j == k then j ∷ js else j ∷ add k js

pub member-add :
    (k j : Text) (s : List Text) → member j (add k s) ≡ (if k == j then true else member j s)
unfolding member add
member-add k j [] = refl
member-add k j (i ∷ s) = ground (arith, ==_iff k j, ==_iff i k, ==_iff i j, member-add k j s)

pub member-append :
    (k : Text) (s t : List Text) → member k (s ++ t) ≡ (if member k s then true else member k t)
unfolding member
member-append k [] t = refl
member-append k (i ∷ s) t = ground (arith, member-append k s t)
