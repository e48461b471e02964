-- ===== src/Push/Multi/Faults.antt =====
-- When `Run` of `push multi` returns an error.
use uki.Base.{
  Text, List, [], ◌∷◌, ◌++◌, ◌≡◌, refl, true, false, All, All-append, arith, is_empty, ◌==◌, ◌&&◌,
  ◌∙◌, sym, ==-refl, ==→eq, is_empty-ne, Bool-cases, inl, inr,
}
use uki.Oci.{Ref}
use uki.Effects.{Env, Exec, History, ok, lift, wrapping, ◌>>◌}
use uki.Effects.Hoare.{Triple, Triple-pure, Triple-bind}
use uki.Effects.Faults.{
  failures, IsHonest, IsHonest-pure, IsHonest-bind, IsHonest-bind_with, IsHonest-wrapping,
  IsHonest-given, Triple-given, Triple-any, IsHonest-fail_if, IsHonest-lift, IsHonest-succeeded,
}
use uki.Cliutil.{parse_platform}
use uki.Push.Artifact
use uki.Push.Artifact.{lacks_payload}
use uki.Push.Artifact.Faults as ArtifactFaults
use uki.Push.Index.{is_nil}
use uki.Push.Index.PlatformList.{PlatformSpec, PlatformList, set}
use uki.Push.Index.PlatformList.Laws.{set-entry}
use uki.Push.Index.Faults as IndexFaults
use uki.Push.Multi.{Opts, contains, unique_platforms, suffixed, artifact_opts, push_all, run}
use uki.Push.Multi.PathList.{PathList, path_for}
use uki.Push.Multi.PathList.Laws.{IsEntry}
use uki.Push.Multi.Platforms.{
  names, mentions, HasNoEquals, unique_platforms-HasNoEquals, unique_platforms_lem,
}
use uki.Push.Multi.Refs.{derived}
use uki.Push.Multi.Delivery.{flags}

-- A platform of the flags has a path.
path_for-names :
    (l : PathList) (x : Text) → All IsEntry l → names l x ≡ true → is_empty (path_for l x) ≡ false
unfolding names path_for
path_for-names [] x v n = cc
path_for-names (p ∷ l) x (vp, v) n =
    ground (arith, path_for-names l x v, is_empty-ne p.path vp.path_set)

module _ ⦃env : Env⦄ where
  lacks_payload-mentions :
      (o : Opts) (x arch_ref : Text)
      → All (All IsEntry) (flags o)
      → mentions (flags o) x ≡ true
      → lacks_payload (artifact_opts o x arch_ref) ≡ false
  unfolding lacks_payload artifact_opts mentions
  lacks_payload-mentions o x arch_ref (vk, (vi, (vm, _))) m = ground (
    arith,
    path_for-names o.kernels x vk,
    path_for-names o.initrds x vi,
    path_for-names o.modules x vm,
  )

All-contains :
    (P : Text → Type 0) (l : List Text) → ((x : Text) → contains l x ≡ true → P x) → All P l
unfolding contains
All-contains P [] f = tt
All-contains P (a ∷ l) f =
    (f a (ground (arith, ==-refl a)), All-contains P l (λ x h. f x (ground arith)))

All-at : (P : Text → Type 0) (l : List Text) (x : Text) → All P l → contains l x ≡ true → P x
unfolding contains
All-at P [] x v c = cc
All-at P (a ∷ l) x (va, v) c = elim (Bool-cases (a == x)) [
  | inl same ↦ rw (← ==→eq a x same) va
  | inr differ ↦ All-at P l x v (ground arith)
]

-- The platform can be parsed, and so can the reference that is derived for it.
pub record IsReady ⦃env : Env⦄ (r : Ref) (platform : Text) : Type 0 where
  pub os_name : Text
  pub arch : Text
  pub ref : Ref
  pub platform_parsed : parse_platform platform ≡ ok (os_name, arch)
  pub ref_parsed : env.parse_ref (suffixed r arch) ≡ ok ref

module _ ⦃env : Env⦄ (o : Opts) (r : Ref) (parsed : env.parse_ref o.ref ≡ ok r)
    (valid : All (All IsEntry) (flags o)) where
  -- What the loop needs of a platform.
  record IsPushable (platform : Text) : Type 0 where
    ready : IsReady r platform
    plain : HasNoEquals platform
    mentioned : mentions (flags o) platform ≡ true

  spec_of : (platform : Text) → IsReady r platform → PlatformSpec
  spec_of platform v = record { platform = platform; ref = suffixed r v.arch }

  spec_of-IsValid :
      (platform : Text) (v : IsReady r platform) → IndexFaults.IsValid (spec_of platform v)
  unfolding spec_of
  spec_of-IsValid platform v = record {
    os_name = v.os_name;
    arch = v.arch;
    ref = v.ref;
    platform_parsed = v.platform_parsed;
    ref_parsed = v.ref_parsed;
  }

  artifact_opts-IsValid :
      (platform : Text) (v : IsPushable platform)
      → ArtifactFaults.IsValid (artifact_opts o platform (suffixed r v.ready.arch))
  unfolding artifact_opts
  artifact_opts-IsValid platform v = record {
    os_name = v.ready.os_name;
    arch = v.ready.arch;
    ref = v.ready.ref;
    platform_parsed = v.ready.platform_parsed;
    ref_parsed = v.ready.ref_parsed;
    payload = lacks_payload-mentions o platform (suffixed r v.ready.arch) valid v.mentioned;
  }

  -- One round of the loop, ahead of `next`.
  round-IsHonest :
      (p : Text) (ss : PlatformList) (next : PlatformList → Exec PlatformList) (v : IsPushable p)
      → ((ss' : PlatformList) → IsHonest (next ss'))
      → IsHonest (
          wrapping "push %s: %w"
            (p ∷ [])
            (Artifact.run (artifact_opts o p (suffixed r v.ready.arch)))
          >> (lift (set (p ++ b'=' ∷ suffixed r v.ready.arch) ss).0
              >> next (set (p ++ b'=' ∷ suffixed r v.ready.arch) ss).1))
  unfolding spec_of
  round-IsHonest p ss next v b = rw (set-entry (spec_of p v.ready) ss v.plain) (
      IsHonest-bind _ _
        (IsHonest-wrapping _ _ _ (ArtifactFaults.IsHonest-run _ (artifact_opts-IsValid p v)))
        (λ _. IsHonest-given _ _ refl (b _)))

  push_all-IsHonest :
      (ps : List Text) (ss : PlatformList) → All IsPushable ps → IsHonest (push_all o ps ss)
  unfolding push_all
  push_all-IsHonest [] ss _ = IsHonest-pure ss
  push_all-IsHonest (p ∷ ps) ss (vp, v) =
      IsHonest-given _ _
        (derived o.ref p vp.ready.os_name vp.ready.arch r parsed vp.ready.platform_parsed)
        (round-IsHonest p ss (push_all o ps) vp (λ ss'. push_all-IsHonest ps ss' v))

  -- The flags of the index after the loop.
  abbrev Complete : PlatformList → Type 0
  Complete ss = All IndexFaults.IsValid ss × (is_nil ss ≡ false)

  is_nil-append : (ss : PlatformList) (s : PlatformSpec) → is_nil (ss ++ s ∷ []) ≡ false
  is_nil-append [] s = refl
  is_nil-append (x ∷ ss) s = refl

  round-Complete :
      (p : Text) (ss : PlatformList) (next : PlatformList → Exec PlatformList) (v : IsPushable p)
      → Triple
          (λ _. Unit {0})
          (next (ss ++ spec_of p v.ready ∷ []))
          (λ a _. Complete a)
          (λ _. Unit {0})
      → Triple
          (λ _. Unit {0})
          (wrapping "push %s: %w"
              (p ∷ [])
              (Artifact.run (artifact_opts o p (suffixed r v.ready.arch)))
            >> (lift (set (p ++ b'=' ∷ suffixed r v.ready.arch) ss).0
                >> next (set (p ++ b'=' ∷ suffixed r v.ready.arch) ss).1))
          (λ a _. Complete a)
          (λ _. Unit {0})
  unfolding spec_of
  round-Complete p ss next v t =
      rw (set-entry (spec_of p v.ready) ss v.plain)
        (Triple-bind (λ _ _. Unit {0}) _ _ (Triple-any _) (λ _. Triple-given _ _ refl t))

  push_all-Complete :
      (ps : List Text) (ss : PlatformList)
      → All IsPushable ps
      → All IndexFaults.IsValid ss
      → (is_nil ss && is_nil ps) ≡ false
      → Triple (λ _. Unit {0}) (push_all o ps ss) (λ a _. Complete a) (λ _. Unit {0})
  unfolding push_all
  push_all-Complete [] ss _ vs n = Triple-pure ss (λ h _. (vs, ground arith))
  push_all-Complete (p ∷ ps) ss (vp, v) vs n =
      Triple-given _ _
        (derived o.ref p vp.ready.os_name vp.ready.arch r parsed vp.ready.platform_parsed)
        (round-Complete p ss (push_all o ps) vp (
          push_all-Complete ps (ss ++ spec_of p vp.ready ∷ []) v
            (All-append IndexFaults.IsValid ss _ vs (spec_of-IsValid p vp.ready, tt))
            (rw (is_nil-append ss (spec_of p vp.ready)) refl)))

  IsPushable-All :
      All (IsReady r) (unique_platforms (flags o)) → All IsPushable (unique_platforms (flags o))
  IsPushable-All ready = All-contains IsPushable (unique_platforms (flags o)) (λ x c. record {
    ready = All-at (IsReady r) _ x ready c;
    plain = All-at HasNoEquals _ x (unique_platforms-HasNoEquals (flags o) valid) c;
    mentioned = sym ((unique_platforms_lem (flags o)).1 x) ∙ c;
  })

  IsHonest-run :
      is_nil (unique_platforms (flags o)) ≡ false
      → All (IsReady r) (unique_platforms (flags o))
      → IsHonest (run o)
  unfolding run
  IsHonest-run n ready =
      let v = IsPushable-All ready in
      IsHonest-bind _ _ (IsHonest-fail_if _ _ n) (λ _.
        IsHonest-bind _ _ (IsHonest-lift _ parsed) (λ _.
          IsHonest-bind_with Complete _ _ (push_all-IsHonest _ [] v)
            (push_all-Complete _ [] v tt (ground arith))
            (λ ss (vs, k).
              IndexFaults.IsHonest-run (record { platforms = ss; out_ref = o.ref }) k vs parsed)))

-- With flags that `PathList.Set` accepted, at least one, a reference that can be parsed, and for
-- each platform of the flags a platform and a derived reference that can be parsed, `multi.Run`
-- returns no error if none of its calls was answered with one.
pub multi_run_complete :
    ⦃env : Env⦄ (o : Opts) (r : Ref) (h : History)
    → env.parse_ref o.ref ≡ ok r
    → All (All IsEntry) (flags o)
    → is_nil (unique_platforms (flags o)) ≡ false
    → All (IsReady r) (unique_platforms (flags o))
    → failures (run o h).1 ≡ failures h
    → (run o h).0 ≡ ok tt
multi_run_complete o r h parsed valid n ready =
    IsHonest-succeeded h (IsHonest-run o r parsed valid n ready)
