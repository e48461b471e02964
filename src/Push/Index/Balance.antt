-- ===== src/Push/Index/Balance.antt =====
-- `push index` holds nothing behind its run.
use uki.Base.{List, [], ◌∷◌, ◌++◌}
use uki.Oci.{Descriptor}
use uki.Effects.{Env, print}
use uki.Effects.Resources.{IsBalanced, IsBalanced-pure, IsBalanced-bind}
use uki.Effects.Resources.Quiet.{balanced}
use uki.Push.Index.{Opts, describe, describe_all, run}
use uki.Push.Index.PlatformList.{PlatformSpec, PlatformList}

module _ ⦃env : Env⦄ where
  IsBalanced-describe : (p : PlatformSpec) → IsBalanced (describe p)
  unfolding describe
  IsBalanced-describe p = search balanced depth 9

  IsBalanced-describe_all :
      (ps : PlatformList) (ds : List Descriptor) → IsBalanced (describe_all ps ds)
  unfolding describe_all
  IsBalanced-describe_all [] ds = IsBalanced-pure ds
  IsBalanced-describe_all (p ∷ ps) ds =
      IsBalanced-bind _ _ (IsBalanced-describe p) (λ d. IsBalanced-describe_all ps (ds ++ d ∷ []))

  pub IsBalanced-run : (o : Opts) → IsBalanced (run o)
  unfolding run print
  IsBalanced-run o = search (balanced, IsBalanced-describe_all) depth 9
