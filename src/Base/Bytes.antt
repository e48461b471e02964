-- ===== src/Base/Bytes.antt =====
-- Go's `string` and `[]byte`: a sequence of bytes, each as its number.
use Prim.Native.Nat.{ℕ}
use Prim.Native.Char.{code}
use Prim.Native.String.{String}
use mathlib.Core.Path.{◌≡◌, refl}
use mathlib.Core.Logic.{◌≢◌, ite}
use mathlib.Core.Bool.{Bool, true, false, not}
use mathlib.Core.List.{List, [], ◌∷◌}
use native.Mathlib.Omega.{arith}
use native.Mathlib.Decide.{ℕ_discrete}

abbrev pub Text : Type 0
Text = List ℕ

-- The bytes of an ASCII literal.
unfoldable pub ascii : String → Text
ascii String.[] = []
ascii (String.◌∷◌ c s) = code c ∷ ascii s

unfoldable pub Text-discrete : Discrete Text
unfolding ℕ_discrete
Text-discrete [] [] = yes refl
Text-discrete [] (y ∷ b) = no (λ e. cc)
Text-discrete (x ∷ a) [] = no (λ e. cc)
Text-discrete (x ∷ a) (y ∷ b) = elim (ℕ_discrete x y) [
  | no differ ↦ no (λ e. differ (cc))
  | yes p ↦ elim (Text-discrete a b) [ no differ ↦ no (λ e. differ (cc)) | yes q ↦ yes (cc) ]
]

-- `a == b` on strings. The decision stays shut in proofs, where a split on it yields the equation.
infix 50 ◌==◌
abbrev pub ◌==◌ : Text → Text → Bool
a == b = ite (Text-discrete a b) true false

-- `s == ""`
abbrev pub is_empty : Text → Bool
is_empty [] = true
is_empty (_ ∷ _) = false

-- `s != ""`
abbrev pub is_set : Text → Bool
is_set s = not (is_empty s)

pub ==-refl : (a : Text) → (a == a) ≡ true
==-refl a = ground arith

pub ==→eq : (a b : Text) → (a == b) ≡ true → a ≡ b
==→eq a b h = ground arith

pub is_empty→eq : (s : Text) → is_empty s ≡ true → s ≡ []
is_empty→eq [] h = refl
is_empty→eq (c ∷ s) h = cc

pub is_empty→ne : (s : Text) → is_empty s ≡ false → s ≢ []
is_empty→ne [] h = cc
is_empty→ne (c ∷ s) h = cc

pub is_empty-ne : (s : Text) → s ≢ [] → is_empty s ≡ false
is_empty-ne [] h = absurd (h refl)
is_empty-ne (c ∷ s) h = refl
