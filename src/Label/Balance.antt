-- ===== src/Label/Balance.antt =====
-- The label command opens nothing.
use uki.Base.{Text, List, [], ◌∷◌}
use uki.Effects.{Env, ℤ, print}
use uki.Effects.Resources.{IsBalanced}
use uki.Effects.Resources.Quiet.{balanced}
use uki.Label.{read, stamp, run}

module _ ⦃env : Env⦄ where
  pub IsBalanced-run : (part : ℤ) (path : Text) (rest : List Text) → IsBalanced (run part path rest)
  unfolding run read stamp print
  IsBalanced-run part path [] = search balanced depth 9
  IsBalanced-run part path (label ∷ rest) = search balanced depth 9
