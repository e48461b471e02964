-- ===== src/Push/Multi/Refs.antt =====
-- The references that `push multi` derives.
use uki.Base.{Text, ascii, [], ◌∷◌, ◌++◌, ◌≡◌, refl, sym, ◌∙◌, ap, ◌↔◌}
use uki.Oci.{Ref}
use uki.Effects.{Env, Result, ok, err}
use uki.Cliutil.{parse_platform}
use uki.Push.Multi.Files.{printed}
use uki.Push.Multi.{suffixed, derive_per_arch_ref}

pub ++-cancel : (a b c : Text) → a ++ b ≡ a ++ c → b ≡ c
++-cancel [] b c h = h
++-cancel (x ∷ a) b c h = ++-cancel a b c (cc)

suffixed-cancel : (r : Ref) (a b : Text) → suffixed r a ≡ suffixed r b → a ≡ b
unfolding suffixed
suffixed-cancel r a b h =
    ++-cancel (r.host ++ ascii "/" ++ r.repo ++ ascii ":" ++ r.reference ++ ascii "-") a b h

pub derived :
    ⦃env : Env⦄ (ref platform os_name arch : Text) (r : Ref)
    → env.parse_ref ref ≡ ok r
    → parse_platform platform ≡ ok (os_name, arch)
    → derive_per_arch_ref ref platform ≡ ok (suffixed r arch)
unfolding derive_per_arch_ref
derived ref platform os_name arch r e f =
    rw (f, derive_per_arch_ref) (rw (e, derive_per_arch_ref) refl)

-- What was derived, printed from what was parsed.
pub derived_parts :
    ⦃env : Env⦄ (ref platform os_name arch arch_ref : Text)
    → parse_platform platform ≡ ok (os_name, arch)
    → derive_per_arch_ref ref platform ≡ ok arch_ref
    → (r : Ref) × (env.parse_ref ref ≡ ok r) × (arch_ref ≡ printed r arch)
unfolding derive_per_arch_ref suffixed
derived_parts ⦃env⦄ ref platform os_name arch arch_ref p d = go (env.parse_ref ref) refl
  where
    go :
        (x : Result Ref)
        → env.parse_ref ref ≡ x
        → (r : Ref) × (env.parse_ref ref ≡ ok r) × (arch_ref ≡ printed r arch)
    go (ok r) e =
        let known = derived ref platform os_name arch r e p in
        let spelled : arch_ref ≡ suffixed r arch = cc (known, d) in (r, e, spelled)
    go (err x) e =
        let failed : derive_per_arch_ref ref platform ≡ err x =
          rw (p, derive_per_arch_ref) (rw (e, derive_per_arch_ref) refl) in
        absurd (cc (failed, d))

-- For a valid reference and two valid platforms, the derived references are the same exactly when
-- the architectures are the same, whatever the operating systems are.
pub derive_per_arch_ref_iff :
    ⦃env : Env⦄ (ref p q os₁ os₂ arch₁ arch₂ : Text) (r : Ref)
    → env.parse_ref ref ≡ ok r
    → parse_platform p ≡ ok (os₁, arch₁)
    → parse_platform q ≡ ok (os₂, arch₂)
    → (derive_per_arch_ref ref p ≡ derive_per_arch_ref ref q) ↔ (arch₁ ≡ arch₂)
derive_per_arch_ref_iff ref p q os₁ os₂ arch₁ arch₂ r e f g =
    let dp = derived ref p os₁ arch₁ r e f in
    let dq = derived ref q os₂ arch₂ r e g in
    (
      λ h. suffixed-cancel r arch₁ arch₂ (cc (dp, dq, h)),
      λ h. dp ∙ (ap (λ a. ok (suffixed r a)) h ∙ sym dq),
    )
