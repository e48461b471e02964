-- ===== src/Label/Local.antt =====
-- The label command does not talk to a registry.
use uki.Base.{Text, List, [], ◌∷◌}
use uki.Effects.{Env, ℤ, print}
use uki.Effects.Local.{IsLocal}
use uki.Effects.Only.Calls.{only}
use uki.Label.{read, stamp, run}

module _ ⦃env : Env⦄ where
  pub IsLocal-run : (part : ℤ) (path : Text) (rest : List Text) → IsLocal (run part path rest)
  unfolding run read stamp print
  IsLocal-run part path [] = search only depth 9
  IsLocal-run part path (label ∷ rest) = search only depth 9
