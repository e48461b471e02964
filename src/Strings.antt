-- ===== src/Strings.antt =====
-- The functions of Go's `strings` and `fmt` that the source calls.
pub mod Split
use Prim.Native.Nat.{compare, Ordering}
use uki.Base.{ℕ, Text, Bool, List, [], ◌∷◌, ◌++◌, map, ascii, true, false}

-- `a == b` on bytes.
abbrev pub byte_eq : ℕ → ℕ → Bool
byte_eq a b = elim (compare a b) [ Ordering.eq ↦ true | _ ↦ false ]

-- One byte before the parts of the rest.
abbrev pub prepend : ℕ → List Text → List Text
prepend c [] = (c ∷ []) ∷ []
prepend c (p ∷ ps) = (c ∷ p) ∷ ps

-- `strings.SplitN(s, sep, 2)`, for a separator of one byte: the text up to the first separator
-- and all behind it, or the whole text.
unfoldable pub split_two : Text → ℕ → List Text
split_two [] sep = [] ∷ []
split_two (c ∷ s) sep =
    let rest = split_two s sep in
    elim (byte_eq c sep) [ true ↦ [] ∷ s ∷ [] | false ↦ prepend c rest ]

join_spaced : List Text → Text
join_spaced [] = []
join_spaced (s ∷ []) = s
join_spaced (s ∷ t ∷ l) = s ++ ascii " " ++ join_spaced (t ∷ l)

-- `fmt.Sprintf("%v", …)` of a slice of structures that have two strings each.
unfoldable pub format_pairs : List (Text × Text) → Text
unfolding join_spaced ascii
format_pairs l =
    ascii "["
    ++ join_spaced (map (λ (a, b). ascii "{" ++ a ++ ascii " " ++ b ++ ascii "}") l)
    ++ ascii "]"
