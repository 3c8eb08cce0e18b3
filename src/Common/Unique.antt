-- ===== src/Common/Unique.antt =====
-- Lists of texts without repetition.
use mathlib.Core.Path.{◌≡◌, refl}
use mathlib.Core.Bool.{false}
use mathlib.Core.List.{List, [], ◌∷◌, ◌++◌}
use native.Mathlib.Omega.{arith}
use crabwise.Common.Dict.{member, member-append}
use crabwise.Common.Strings.{Text, ==_comm}

-- No text occurs twice.
abbrev pub Distinct : List Text → Type 0
Distinct [] = Unit
Distinct (k ∷ ks) = (member k ks ≡ false) × Distinct ks

pub Distinct-append :
    (ks : List Text) (k : Text) → Distinct ks → member k ks ≡ false → Distinct (ks ++ k ∷ [])
unfolding member
Distinct-append [] k d n = (refl, tt)
Distinct-append (x ∷ ks) k d n = (
  ground (arith, member-append x ks (k ∷ []), d.0, ==_comm k x),
  Distinct-append ks k d.1 (ground arith),
)

pub Distinct-middle :
    (ks : List Text) (k : Text) (rest : List Text) → Distinct (ks ++ k ∷ rest) → member k ks ≡ false
unfolding member
Distinct-middle [] k rest d = refl
Distinct-middle (x ∷ ks) k rest d =
    ground (arith, member-append x ks (k ∷ rest), d.0, ==_comm k x, Distinct-middle ks k rest d.1)
