-- ===== src/Push/Plan/Faults.antt =====
-- When `Run` of `push plan` returns an error.
use uki.Base.{◌≡◌, false, is_empty}
use uki.Oci.{Ref}
use uki.Effects.{Env, History, ok, print}
use uki.Effects.Faults.{
  failures, IsHonest, IsHonest-bind, IsHonest-fail_if, IsHonest-lift, IsHonest-succeeded,
  honest_rules,
}
use uki.Push.Plan.{Opts, run}

IsHonest-run :
    ⦃env : Env⦄ (o : Opts) {ref : Ref}
    → is_empty o.file ≡ false
    → env.parse_ref o.ref ≡ ok ref
    → IsHonest (run o)
unfolding run print
IsHonest-run o f r =
    IsHonest-bind _ _ (IsHonest-fail_if _ _ f)
      (λ _. IsHonest-bind _ _ (IsHonest-lift _ r) (λ ref. search honest_rules depth 12))

-- With a file and a reference that can be parsed, `plan.Run` returns no error if none of its calls
-- was answered with one.
pub plan_run_complete :
    ⦃env : Env⦄ (o : Opts) (h : History) {ref : Ref}
    → is_empty o.file ≡ false
    → env.parse_ref o.ref ≡ ok ref
    → failures (run o h).1 ≡ failures h
    → (run o h).0 ≡ ok tt
plan_run_complete o h f r = IsHonest-succeeded h (IsHonest-run o f r)
