-- ===== src/Strings/Split.antt =====
-- `strings.SplitN` with a limit of 2 cuts at the first separator.
use native.Mathlib.Decide.{ℕ_discrete}
use uki.Base.{ℕ, Text, [], ◌∷◌, ◌++◌, ◌≡◌, ◌≢◌, refl, arith, All, ◌⊎◌, inl, inr}
use uki.Strings.{split_two}

-- The text has no such byte.
abbrev pub Lacks : ℕ → Text → Type 0
Lacks b = All (λ c. c ≢ b)

pub split_two-append :
    (a b : Text) (sep : ℕ) → Lacks sep a → split_two (a ++ sep ∷ b) sep ≡ a ∷ b ∷ []
unfolding split_two
split_two-append [] b sep _ = ground arith
split_two-append (c ∷ a) b sep (hc, ha) = ground (arith, split_two-append a b sep ha)

pub split_two_of_Lacks : (s : Text) (sep : ℕ) → Lacks sep s → split_two s sep ≡ s ∷ []
unfolding split_two
split_two_of_Lacks [] sep _ = refl
split_two_of_Lacks (c ∷ s) sep (hc, hs) = ground (arith, split_two_of_Lacks s sep hs)

-- `s` is `a`, the separator and `b`, and this separator is the first.
pub record IsCut (s : Text) (sep : ℕ) (a b : Text) : Type 0 where
  pub spelled : s ≡ a ++ sep ∷ b
  pub first : Lacks sep a

pub split_two-cut :
    (s : Text) (sep : ℕ) (a b : Text) → IsCut s sep a b → split_two s sep ≡ a ∷ b ∷ []
split_two-cut s sep a b cut = rw cut.spelled (split_two-append a b sep cut.first)

-- Either there is a separator, and the parts stand on its two sides, or there is none.
pub split_two-cases :
    (s : Text) (sep : ℕ) → ((a : Text) × (b : Text) × IsCut s sep a b) ⊎ Lacks sep s
split_two-cases [] sep = inr tt
split_two-cases (c ∷ s) sep = elim (ℕ_discrete c sep) [
  | yes same ↦ inl ([], s, record { spelled = cc; first = tt })
  | no differ ↦ elim (split_two-cases s sep) [
    | inl (a, b, cut) ↦
        inl (c ∷ a, b, record { spelled = cc cut.spelled; first = (differ, cut.first) })
    | inr lacks ↦ inr (differ, lacks)
  ]
]
