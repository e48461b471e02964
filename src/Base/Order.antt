-- ===== src/Base/Order.antt =====
-- Go's order on strings, by bytes, and `sort.Strings`. Any sort gives the same list of strings,
-- since `leb` is antisymmetric.
pub mod Laws
use Prim.Native.Nat.{compare, Ordering}
use uki.Base.Tests.{if◌then◌else◌}
use uki.Base.Bytes.{Text}
use mathlib.Core.Bool.{Bool, true, false}
use mathlib.Core.List.{List, [], ◌∷◌}

-- `a <= b` on strings.
abbrev pub leb : Text → Text → Bool
leb [] b = true
leb (x ∷ a) [] = false
leb (x ∷ a) (y ∷ b) =
    let rest = leb a b in
    elim (compare x y) [ Ordering.lt ↦ true | Ordering.eq ↦ rest | Ordering.gt ↦ false ]

unfoldable pub insert_sorted : Text → List Text → List Text
insert_sorted a [] = a ∷ []
insert_sorted a (b ∷ bs) = let rest = insert_sorted a bs in if leb a b then a ∷ b ∷ bs else b ∷ rest

-- `sort.Strings`
unfoldable pub sort_strings : List Text → List Text
unfolding insert_sorted
sort_strings [] = []
sort_strings (a ∷ as_) = insert_sorted a (sort_strings as_)
