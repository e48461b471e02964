-- ===== src/Push/Multi/Resolved.antt =====
-- The tags that `Run` of cmd/cloud-boot/push/multi leaves, one for each platform.
use uki.Base.{
  Text, ascii, List, [], ◌∷◌, ◌++◌, ◌≡◌, ◌≢◌, refl, sym, ◌∙◌, ap, All, All-map, arith, length,
  length-append,
}
use uki.Oci.{Ref}
use uki.Effects.{Env, History, ok, wrapping}
use uki.Effects.Hoare.{
  Triple, After, Triple-both, Triple-bind, Triple-fail_if, Triple-lift, Triple-pure, Triple-weaken,
  Triple-wrapping,
}
use uki.Effects.Only.{Only, Only-bind, Only-pure, Only-wrapping}
use uki.Effects.Only.Calls.{only}
use uki.Effects.Only.Growth.{Triple-only}
use uki.Cliutil.{parse_platform}
use uki.Push.Spares.{Spares-artifact, Avoids-index}
use uki.Push.Closed.{Accepted, IsClosed, manifests, indexes}
use uki.Push.Tags.{Avoids, Avoids-weaken, Spares, Only-lift_then}
use uki.Push.Artifact
use uki.Push.Artifact.{push_file, push_layers, push_config, add, add_cmdline, upload}
use uki.Push.Artifact.Delivery as Artifacts
use uki.Push.Index
use uki.Push.Index.{describe, describe_all}
use uki.Push.Index.PlatformList.{PlatformList, set}
use uki.Push.Multi.{Opts, derive_per_arch_ref, artifact_opts, push_all, unique_platforms, run}
use uki.Push.Multi.Refs.{++-cancel, derived_parts}
use uki.Push.Multi.Files.{printed}
use uki.Push.Multi.Delivery.{flags}
use uki.Push.Multi.Files.{files_of}
use uki.Push.Multi.ArchTags.{
  arch_tag, IsTag, HasTag, ResolvedAs, Resolved, ResolvedAs-later, Differ, AllDiffer,
}

module _ ⦃env : Env⦄ (o : Opts) (r : Ref) (base : env.parse_ref o.ref ≡ ok r)
    (tags : (arch : Text) (ref : Ref)
      → IsTag (arch_tag r arch)
      → env.parse_ref (printed r arch) ≡ ok ref
      → ref.reference ≡ arch_tag r arch) where
  spelled_of :
      (platform arch_ref os_name arch : Text)
      → derive_per_arch_ref o.ref platform ≡ ok arch_ref
      → parse_platform platform ≡ ok (os_name, arch)
      → arch_ref ≡ printed r arch
  spelled_of platform arch_ref os_name arch d p =
      let (s, s_parsed, spelled) = derived_parts o.ref platform os_name arch arch_ref p d in
      let same : s ≡ r = cc (base, s_parsed) in cc (same, spelled)

  tag_of :
      (platform arch_ref os_name arch : Text) (ref : Ref)
      → HasTag r platform
      → derive_per_arch_ref o.ref platform ≡ ok arch_ref
      → parse_platform platform ≡ ok (os_name, arch)
      → env.parse_ref arch_ref ≡ ok ref
      → ref.reference ≡ arch_tag r arch
  tag_of platform arch_ref os_name arch ref t d p e =
      let spelled = spelled_of platform arch_ref os_name arch d p in
      tags arch ref (t os_name arch p) (cc (spelled, e))

  -- The platforms in `platforms` have other tags.
  Spares-push_all :
      (tag : Text) (platforms : List Text) (specs : PlatformList)
      → All
          (λ q.
            (os_name arch : Text) → parse_platform q ≡ ok (os_name, arch) → arch_tag r arch ≢ tag)
          platforms
      → All (HasTag r) platforms
      → Only (Spares tag) (push_all o platforms specs)
  unfolding push_all artifact_opts
  Spares-push_all tag [] specs _ _ = Only-pure specs
  Spares-push_all tag (q ∷ platforms) specs (hq, hs) (tq, ts) = Only-lift_then _ _ (λ arch_ref d.
      Only-bind _ _
        (Only-wrapping _ _ _ (
          Spares-artifact tag (artifact_opts o q arch_ref) (λ os_name arch ref p e t.
            hq os_name arch p (sym (tag_of q arch_ref os_name arch ref tq d p e) ∙ t))))
        (λ _.
          Only-bind _ _ (search only)
            (λ _. Spares-push_all tag platforms (set (q ++ b'=' ∷ arch_ref) specs).1 hs ts)))

  artifact-Resolved :
      (platform arch_ref : Text)
      → HasTag r platform
      → derive_per_arch_ref o.ref platform ≡ ok arch_ref
      → Triple IsClosed
          (wrapping "push %s: %w"
            (platform ∷ [])
            (Artifact.run (artifact_opts o platform arch_ref)))
          (λ _ h. Resolved o r platform h × IsClosed h)
          (λ _. Unit {0})
  unfolding artifact_opts
  artifact-Resolved platform arch_ref t d = Triple-wrapping _ _ _ (record {
    at = λ h c.
        (Triple-weaken {P = Accepted (manifests h) (indexes h)} _
            (Artifacts.run-Pushed_triple (manifests h) (indexes h)
              (artifact_opts o platform arch_ref))
            (λ k a. a)
            (λ _ k p. (
              (
                p.os_name,
                p.arch,
                p.ref,
                record {
                  arch_ref = arch_ref;
                  spelled = spelled_of platform arch_ref p.os_name p.arch d p.platform_parsed;
                  platform_parsed = p.platform_parsed;
                  ref_parsed = p.ref_parsed;
                  tag_printed =
                      tag_of platform arch_ref p.os_name p.arch p.ref t d p.platform_parsed
                        p.ref_parsed;
                  files = files_of o platform;
                  published = p.delivered.published;
                  tagged = p.delivered.tagged;
                },
              ),
              p.delivered.accepted.closed,
            ))
            (λ k a. tt)).at
          h (record { closed = c; manifests = refl; indexes = refl });
  })

  arch_tag-cancel : (a b : Text) → arch_tag r a ≡ arch_tag r b → a ≡ b
  arch_tag-cancel a b h =
      ++-cancel (ascii "-") a b (++-cancel r.reference (ascii "-" ++ a) (ascii "-" ++ b) h)

  tag_differs : (arch : Text) → r.reference ≢ arch_tag r arch
  unfolding ascii
  tag_differs arch h = omega (
    arith,
    length-append r.reference (ascii "-" ++ arch),
    length-append (ascii "-") arch,
    ap length h,
  )

  -- What was pushed for a platform stays, since the others have other tags.
  push_all-keeps_Resolved :
      (platform os_name arch : Text) (ref : Ref) (platforms : List Text) (specs : PlatformList)
      → All (Differ platform) platforms
      → All (HasTag r) platforms
      → Triple IsClosed
          (push_all o platforms specs)
          (λ _ h. All (λ p. Resolved o r p h) platforms × IsClosed h)
          (λ _. Unit {0})
      → Triple
          (λ h. ResolvedAs o r platform os_name arch ref h × IsClosed h)
          (push_all o platforms specs)
          (λ _ h. All (λ p. Resolved o r p h) (platform ∷ platforms) × IsClosed h)
          (λ _. Unit {0})
  push_all-keeps_Resolved platform os_name arch ref platforms specs differ named others = record {
    at = λ h (x, c).
        (Triple-weaken {P = λ k. ResolvedAs o r platform os_name arch ref k × IsClosed k} _
            (Triple-both _
              (Triple-weaken _
                (Triple-only (Spares ref.reference) (ResolvedAs o r platform os_name arch ref) _
                  (ResolvedAs-later o r platform os_name arch ref)
                  (Spares-push_all ref.reference platforms specs
                    (All-map _ _
                      (λ q d os₂ arch₂ e t.
                        d os_name arch os₂ arch₂ x.platform_parsed e
                          (sym (arch_tag-cancel arch₂ arch (t ∙ x.tag_printed))))
                      platforms differ)
                    named))
                (λ k (y, _). y) (λ _ k y. y) (λ k y. y))
              (Triple-weaken _ others (λ k (_, d). d) (λ _ k y. y) (λ k y. y)))
            (λ k y. y) (λ _ k (y, (ys, d)). (((os_name, arch, ref, y), ys), d)) (λ k y. tt)).at
          h (x, c);
  }

  push_all-Resolved :
      (platforms : List Text) (specs : PlatformList)
      → AllDiffer platforms
      → All (HasTag r) platforms
      → Triple IsClosed
          (push_all o platforms specs)
          (λ _ h. All (λ p. Resolved o r p h) platforms × IsClosed h)
          (λ _. Unit {0})
  unfolding push_all
  push_all-Resolved [] specs _ _ = Triple-pure specs (λ h c. (tt, c))
  push_all-Resolved (platform ∷ platforms) specs (differ, rest) (t, ts) =
      Triple-bind (λ arch_ref h. (derive_per_arch_ref o.ref platform ≡ ok arch_ref) × IsClosed h) _
        _ (Triple-lift _ (λ h arch_ref e c. (e, c)) (λ h c. tt))
        (λ arch_ref. record {
          at = λ h (e, c).
              let specs' = set (platform ++ b'=' ∷ arch_ref) specs in
              (Triple-bind {P = IsClosed} (λ _ k. Resolved o r platform k × IsClosed k) _ _
                  (artifact-Resolved platform arch_ref t e)
                  (λ _.
                    Triple-bind (λ _ k. Resolved o r platform k × IsClosed k) _ _
                      (Triple-lift specs'.0 (λ k _ _ y. y) (λ k y. tt))
                      (λ _. record {
                        at = λ k ((os_name, arch, ref, x), d).
                            (push_all-keeps_Resolved platform os_name arch ref platforms specs'.1
                                differ ts (push_all-Resolved platforms specs'.1 rest ts)).at
                              k (x, d);
                      }))).at
                h c;
        })

  -- The index is published under another tag.
  index-Resolved :
      (platforms : List Text) (io : Index.Opts)
      → io.out_ref ≡ o.ref
      → Triple
          (λ h. All (λ p. Resolved o r p h) platforms)
          (Index.run io)
          (λ _ h. All (λ p. Resolved o r p h) platforms)
          (λ _. Unit {0})
  index-Resolved platforms io same_ref =
      let T = λ (t : Text). (arch : Text) × (t ≡ arch_tag r arch) in
      Triple-weaken _
        (Triple-only (Avoids T) (λ h. All (λ p. Resolved o r p h) platforms) _
          (λ h e a.
            All-map _ _
              (λ p (os_name, arch, ref, x). (
                os_name,
                arch,
                ref,
                ResolvedAs-later o r p os_name arch ref h e
                    (Avoids-weaken _ T e.call (λ t q. (arch, q ∙ x.tag_printed)) a) x,
              ))
              platforms)
          (Avoids-index T io (λ ref e (arch, q).
            let out : ref ≡ r = cc (same_ref, base, e) in
            tag_differs arch (sym (ap (λ (s : Ref). s.reference) out) ∙ q))))
        (λ h y. y) (λ _ h y. y) (λ h y. tt)

-- If the platforms of the flags have different architectures, the tag of the flag `--ref` with
-- each of them is a tag by the grammar, and `oci.ParseRef` reads such a tag back from a reference
-- that is printed with it: after a `multi.Run` that returns no error, from a history in which
-- every manifest and index refers only to what was uploaded or described ahead of it, each
-- platform has its own tag, the one of `--ref`, a dash and the architecture, and this tag names
-- the manifest of the first kernel, initrd and modules that the flags give for this platform and
-- of their command line; neither a later platform nor the index has taken it.
pub multi_run-Resolved :
    ⦃env : Env⦄ (o : Opts) (h : History) (r : Ref)
    → env.parse_ref o.ref ≡ ok r
    → ((arch : Text) (ref : Ref)
        → IsTag (arch_tag r arch)
        → env.parse_ref (printed r arch) ≡ ok ref
        → ref.reference ≡ arch_tag r arch)
    → AllDiffer (unique_platforms (flags o))
    → All (HasTag r) (unique_platforms (flags o))
    → IsClosed h
    → After
        (λ _ k. All (λ p. Resolved o r p k) (unique_platforms (flags o)))
        (λ _. Unit {0})
        (run o h)
unfolding run
multi_run-Resolved o h r base tags differ named c =
    let platforms = unique_platforms (flags o) in
    (Triple-bind {P = IsClosed} (λ _. IsClosed) _ _ (Triple-fail_if _ _ (λ k _ d. d) (λ k d. tt))
        (λ _.
          Triple-bind (λ _. IsClosed) _ _ (Triple-lift _ (λ k _ _ d. d) (λ k d. tt))
            (λ _.
              Triple-bind (λ _ k. All (λ p. Resolved o r p k) platforms) _ _
                (Triple-weaken _ (push_all-Resolved o r base tags platforms [] differ named)
                  (λ k d. d) (λ _ k (y, _). y) (λ k y. y))
                (λ specs.
                  index-Resolved o r base tags platforms
                    (record { platforms = specs; out_ref = o.ref }) refl)))).at
      h c
