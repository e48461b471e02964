-- ===== src/Push/Index/Growth.antt =====
-- `push index` only adds to the history.
use uki.Base.{List, [], ◌∷◌, ◌++◌}
use uki.Oci.{Descriptor}
use uki.Effects.{Env, print}
use uki.Effects.Grows.{Grows, Grows-pure, Grows-bind, grows_rules}
use uki.Push.Index.{Opts, describe, describe_all, run}
use uki.Push.Index.PlatformList.{PlatformSpec, PlatformList}

module _ ⦃env : Env⦄ where
  Grows-describe : (p : PlatformSpec) → Grows (describe p)
  unfolding describe
  Grows-describe p = search grows_rules depth 9

  Grows-describe_all : (ps : PlatformList) (ds : List Descriptor) → Grows (describe_all ps ds)
  unfolding describe_all
  Grows-describe_all [] ds = Grows-pure ds
  Grows-describe_all (p ∷ ps) ds =
      Grows-bind _ _ (Grows-describe p) (λ d. Grows-describe_all ps (ds ++ d ∷ []))

  pub Grows-run : (o : Opts) → Grows (run o)
  unfolding run print
  Grows-run o = search (grows_rules, Grows-describe_all) depth 9
