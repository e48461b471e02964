-- ===== src/Push/Index/Faults.antt =====
-- When `Run` of `push index` returns an error.
use uki.Base.{Text, List, [], ◌∷◌, ◌++◌, ◌≡◌, false, All}
use uki.Oci.{Ref, Descriptor}
use uki.Effects.{Env, History, ok, print}
use uki.Effects.Faults.{
  failures, IsHonest, IsHonest-pure, IsHonest-bind, IsHonest-fail_if, IsHonest-lift,
  IsHonest-succeeded, honest_rules,
}
use uki.Cliutil.{parse_platform}
use uki.Push.Index.{Opts, is_nil, describe, describe_all, run}
use uki.Push.Index.PlatformList.{PlatformSpec, PlatformList}

-- The platform and the reference of a flag can be parsed.
pub record IsValid ⦃env : Env⦄ (p : PlatformSpec) : Type 0 where
  pub os_name : Text
  pub arch : Text
  pub ref : Ref
  pub platform_parsed : parse_platform p.platform ≡ ok (os_name, arch)
  pub ref_parsed : env.parse_ref p.ref ≡ ok ref

module _ ⦃env : Env⦄ where
  IsHonest-describe : (p : PlatformSpec) → IsValid p → IsHonest (describe p)
  unfolding describe
  IsHonest-describe p v = IsHonest-bind _ _ (IsHonest-lift _ v.platform_parsed) (λ (os_name, arch).
      IsHonest-bind _ _ (IsHonest-lift _ v.ref_parsed) (λ r. search honest_rules depth 9))

  IsHonest-describe_all :
      (ps : PlatformList) (ds : List Descriptor) → All IsValid ps → IsHonest (describe_all ps ds)
  unfolding describe_all
  IsHonest-describe_all [] ds v = IsHonest-pure ds
  IsHonest-describe_all (p ∷ ps) ds (vp, v) =
      IsHonest-bind _ _ (IsHonest-describe p vp) (λ d. IsHonest-describe_all ps (ds ++ d ∷ []) v)

  pub IsHonest-run :
      (o : Opts) {ref : Ref}
      → is_nil o.platforms ≡ false
      → All IsValid o.platforms
      → env.parse_ref o.out_ref ≡ ok ref
      → IsHonest (run o)
  unfolding run print
  IsHonest-run o n v r = IsHonest-bind _ _ (IsHonest-fail_if _ _ n) (λ _.
      IsHonest-bind _ _ (IsHonest-lift _ r) (λ out_ref.
        IsHonest-bind _ _ (IsHonest-describe_all o.platforms [] v)
          (λ ds. search honest_rules depth 9)))

-- With at least one platform flag, all of which can be parsed, and a reference that can,
-- `index.Run` returns no error if none of its calls was answered with one.
pub index_run_complete :
    ⦃env : Env⦄ (o : Opts) (h : History) {ref : Ref}
    → is_nil o.platforms ≡ false
    → All IsValid o.platforms
    → env.parse_ref o.out_ref ≡ ok ref
    → failures (run o h).1 ≡ failures h
    → (run o h).0 ≡ ok tt
index_run_complete o h n v r = IsHonest-succeeded h (IsHonest-run o n v r)
