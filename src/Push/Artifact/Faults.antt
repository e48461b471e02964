-- ===== src/Push/Artifact/Faults.antt =====
-- When `Run` of `push artifact` returns an error.
use uki.Base.{Text, [], ◌∷◌, List, ◌≡◌, false, is_empty, refl}
use uki.Oci.{Ref, Descriptor}
use uki.Effects.{Env, History, ok, err, print}
use uki.Effects.Faults.{
  failures, IsHonest, IsHonest-bind, IsHonest-fail_if, IsHonest-lift, IsHonest-succeeded,
  honest_rules,
}
use uki.Strings.{split_two}
use uki.Cliutil.{parse_platform, invalid_platform}
use uki.Push.Artifact.{
  Opts, lacks_payload, push_file, add, add_cmdline, push_layers, push_config, upload, run,
}

module _ ⦃env : Env⦄ where
  IsHonest-add : (ref : Ref) (p m t : Text) (ds : List Descriptor) → IsHonest (add ref p m t ds)
  unfolding push_file add
  IsHonest-add ref p m t ds = search honest_rules depth 9

  IsHonest-add_cmdline :
      (ref : Ref) (t : Text) (ds : List Descriptor) → IsHonest (add_cmdline ref t ds)
  unfolding add_cmdline
  IsHonest-add_cmdline ref t ds = search honest_rules

  IsHonest-push_layers : (o : Opts) (ref : Ref) → IsHonest (push_layers o ref)
  unfolding push_layers
  IsHonest-push_layers o ref = search (honest_rules, IsHonest-add, IsHonest-add_cmdline) depth 9

  IsHonest-upload :
      (o : Opts) (os_name arch : Text) (ref : Ref) → IsHonest (upload o os_name arch ref)
  unfolding upload push_config print
  IsHonest-upload o os_name arch ref = search (honest_rules, IsHonest-push_layers) depth 9

-- A platform that is accepted is not empty.
platform_given :
    (s os_name arch : Text) → parse_platform s ≡ ok (os_name, arch) → is_empty s ≡ false
unfolding parse_platform split_two
platform_given [] os_name arch e =
    let refused : parse_platform [] ≡ err (invalid_platform []) = refl in cc
platform_given (c ∷ s) os_name arch e = refl

-- The arguments of a run are complete, and its platform and its reference can be parsed.
pub record IsValid ⦃env : Env⦄ (o : Opts) : Type 0 where
  pub os_name : Text
  pub arch : Text
  pub ref : Ref
  pub platform_parsed : parse_platform o.platform ≡ ok (os_name, arch)
  pub ref_parsed : env.parse_ref o.ref ≡ ok ref
  pub payload : lacks_payload o ≡ false

pub IsHonest-run : ⦃env : Env⦄ (o : Opts) → IsValid o → IsHonest (run o)
unfolding run
IsHonest-run o v =
    IsHonest-bind _ _ (IsHonest-fail_if _ _ (platform_given _ _ _ v.platform_parsed)) (λ _.
      IsHonest-bind _ _ (IsHonest-lift _ v.platform_parsed) (λ (os_name, arch).
        IsHonest-bind _ _ (IsHonest-fail_if _ _ v.payload) (λ _.
          IsHonest-bind _ _ (IsHonest-lift _ v.ref_parsed)
            (λ ref. IsHonest-upload o os_name arch ref))))

-- With a platform and a reference that can be parsed and some payload, `artifact.Run` returns no
-- error if none of its calls was answered with one.
pub artifact_run_complete :
    ⦃env : Env⦄ (o : Opts) (h : History)
    → IsValid o
    → failures (run o h).1 ≡ failures h
    → (run o h).0 ≡ ok tt
artifact_run_complete o h v = IsHonest-succeeded h (IsHonest-run o v)
