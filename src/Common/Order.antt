-- ===== src/Common/Order.antt =====
-- The order of SQLite's BINARY collation on text, and a stable sort by a text key.
use mathlib.Core.Path.{◌≡◌, refl}
use mathlib.Core.Bool.{Bool, true, false, ◌&&◌, ◌||◌}
use mathlib.Core.List.{List, [], ◌∷◌}
use native.Mathlib.Omega.{arith}
use crabwise.Common.Strings.{Text}
use crabwise.Common.Tests.{ltb, nat_eq, if◌then◌else◌}

unfoldable pub text_leb : Text → Text → Bool
text_leb [] t = true
text_leb (x ∷ s) [] = false
text_leb (x ∷ s) (y ∷ t) = ltb x y || (nat_eq x y && text_leb s t)

module _ {ℓ} {A : Type ℓ} (key : A → Text) where
  unfoldable pub insert_sorted : A → List A → List A
  insert_sorted a [] = a ∷ []
  insert_sorted a (b ∷ bs) = if text_leb (key a) (key b) then a ∷ b ∷ bs else b ∷ insert_sorted a bs

  -- Equal keys keep their order.
  unfoldable pub sort_by : List A → List A
  unfolding insert_sorted
  sort_by [] = []
  sort_by (a ∷ as') = insert_sorted a (sort_by as')

  -- Each key is at most the next one.
  abbrev pub Ascends : List A → Type 0
  Ascends [] = Unit
  Ascends (a ∷ []) = Unit
  Ascends (a ∷ b ∷ bs) = (text_leb (key a) (key b) ≡ true) × Ascends (b ∷ bs)

  pub sort_by-Ascends : (xs : List A) → Ascends xs → sort_by xs ≡ xs
  unfolding sort_by
  sort_by-Ascends [] h = refl
  sort_by-Ascends (a ∷ []) h = refl
  sort_by-Ascends (a ∷ b ∷ bs) h = rw (sort_by-Ascends (b ∷ bs) h.1) (rw h.0)

pub text_leb_total : (s t : Text) → text_leb s t ≡ false → text_leb t s ≡ true
unfolding text_leb
text_leb_total [] t h = cc
text_leb_total (x ∷ s) [] h = refl
text_leb_total (x ∷ s) (y ∷ t) h = ground (arith, text_leb_total s t)
