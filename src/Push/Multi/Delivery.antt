-- ===== src/Push/Multi/Delivery.antt =====
-- What `Run` of `push multi` has done when it returns.
use uki.Base.{
  ℕ, Text, List, [], ◌∷◌, ◌++◌, ◌≡◌, refl, ◌∙◌, arith, All, ◌+◌, length, length-append,
  append_assoc, append-nil,
}
use uki.Oci.{Ref}
use uki.Effects.{Exec, Env, Event, History, ok, wrapping, lift, ◌>>◌}
use uki.Effects.Hoare.{
  Triple, After, Triple-weaken, Triple-pure, Triple-fail_if, Triple-lift, Triple-wrapping,
  Triple-bind,
}
use uki.Effects.Grows.{Lasts, Triple-frame}
use uki.Cliutil.{parse_platform}
use uki.Push.Closed.{Accepted, IsClosed, manifests, indexes}
use uki.Push.Artifact
use uki.Push.Artifact.Growth
use uki.Push.Artifact.Delivery as Artifacts
use uki.Push.Index
use uki.Push.Index.{is_nil}
use uki.Push.Index.Growth as IndexGrowth
use uki.Push.Index.Delivery as Indexes
use uki.Push.Index.PlatformList.{PlatformSpec, PlatformList, set}
use uki.Push.Index.PlatformList.Laws.{set-entry}
use uki.Push.Multi.{Opts, derive_per_arch_ref, artifact_opts, push_all, unique_platforms, run}
use uki.Push.Multi.PathList.{PathList}
use uki.Push.Multi.Refs.{derived_parts}
use uki.Push.Multi.Files.{printed, Files, with_files, files_of}
use uki.Push.Multi.PathList.Laws.{IsEntry}
use uki.Push.Multi.Platforms.{HasNoEquals, unique_platforms-HasNoEquals}

-- The manifest of one platform is there, and the flag `spec` of the index points at it.
pub record ArchPushed ⦃env : Env⦄ (o : Opts) (h : History) (platform : Text) (spec : PlatformSpec)
    : Type 0 where
  pub named : spec.platform ≡ platform
  pub base : Ref
  pub base_parsed : env.parse_ref o.ref ≡ ok base
  pub os_name : Text
  pub arch : Text
  pub ref : Ref
  pub platform_parsed : parse_platform platform ≡ ok (os_name, arch)
  pub spelled : spec.ref ≡ printed base arch
  pub ref_parsed : env.parse_ref spec.ref ≡ ok ref
  pub files : Files o platform
  pub published : Artifacts.Published (with_files o platform spec.ref files) os_name arch ref h

module _ ⦃env : Env⦄ (o : Opts) where
  -- One manifest and one flag for each platform, in the same order.
  abbrev pub Match : History → List Text → PlatformList → Type 0
  Match h [] [] = Unit
  Match h [] (s ∷ ss) = ⊥
  Match h (p ∷ ps) [] = ⊥
  Match h (p ∷ ps) (s ∷ ss) = ArchPushed o h p s × Match h ps ss

  Match-later :
      (ps : List Text) (ss : PlatformList) (h : History) (e : Event)
      → Match h ps ss
      → Match (e ∷ h) ps ss
  Match-later [] [] h e m = tt
  Match-later [] (s ∷ ss) h e m = absurd m
  Match-later (p ∷ ps) [] h e m = absurd m
  Match-later (p ∷ ps) (s ∷ ss) h e (c, m) = (
    record {
      named = c.named;
      base = c.base;
      base_parsed = c.base_parsed;
      spelled = c.spelled;
      os_name = c.os_name;
      arch = c.arch;
      ref = c.ref;
      platform_parsed = c.platform_parsed;
      ref_parsed = c.ref_parsed;
      files = c.files;
      published = Artifacts.Published-later h e c.published;
    },
    Match-later ps ss h e m,
  )

  Match-append :
      (h : History) (ps : List Text) (ss : PlatformList) (p : Text) (s : PlatformSpec)
      → Match h ps ss
      → ArchPushed o h p s
      → Match h (ps ++ p ∷ []) (ss ++ s ∷ [])
  Match-append h [] [] p s m c = (c, tt)
  Match-append h [] (x ∷ ss) p s m c = absurd m
  Match-append h (q ∷ ps) [] p s m c = absurd m
  Match-append h (q ∷ ps) (x ∷ ss) p s (b, m) c = (b, Match-append h ps ss p s m c)

  Match-Lasts : (ps : List Text) (ss : PlatformList) → Lasts (λ h. Match h ps ss)
  Match-Lasts ps ss = record { later = Match-later ps ss }

-- What an error leaves: the index is as it was, and what was published refers to what is there.
pub record Unfinished (k : ℕ) (h : History) : Type 0 where
  pub closed : IsClosed h
  pub indexes : indexes h ≡ k

unfinished : {n k : ℕ} {h : History} → Accepted n k h → Unfinished k h
unfinished a = record { closed = a.closed; indexes = a.indexes }

recount : {n m k : ℕ} {h : History} → n ≡ m → Accepted n k h → Accepted m k h
recount e a = record { closed = a.closed; manifests = a.manifests ∙ e; indexes = a.indexes }

module _ ⦃env : Env⦄ (n k : ℕ) (o : Opts) where
  abbrev Upto : List Text → PlatformList → History → Type 0
  Upto done specs h = Match o h done specs × Accepted (n + length done) k h

  artifact-ArchPushed :
      (done : List Text) (specs : PlatformList) (platform arch_ref : Text)
      → derive_per_arch_ref o.ref platform ≡ ok arch_ref
      → Triple
          (Upto done specs)
          (wrapping "push %s: %w"
            (platform ∷ [])
            (Artifact.run (artifact_opts o platform arch_ref)))
          (λ _.
            Upto
              (done ++ platform ∷ [])
              (specs ++ record { platform = platform; ref = arch_ref } ∷ []))
          (Unfinished k)
  unfolding artifact_opts
  artifact-ArchPushed done specs platform arch_ref derived = Triple-wrapping _ _ _ (
      Triple-weaken _
        (Triple-frame (λ h. Match o h done specs) _ (Match-Lasts o done specs)
          (Growth.Grows-run (artifact_opts o platform arch_ref))
          (Artifacts.run-Pushed_triple (n + length done) k (artifact_opts o platform arch_ref)))
        (λ h u. u)
        (λ _ h (m, p).
          let (base, base_parsed, spelled) =
            derived_parts o.ref platform p.os_name p.arch arch_ref p.platform_parsed derived in
          (
            Match-append o h done specs platform _ m (record {
              named = refl;
              base = base;
              base_parsed = base_parsed;
              spelled = spelled;
              os_name = p.os_name;
              arch = p.arch;
              ref = p.ref;
              platform_parsed = p.platform_parsed;
              ref_parsed = p.ref_parsed;
              files = files_of o platform;
              published = p.delivered.published;
            }),
            recount (omega (arith, length-append done (platform ∷ []))) p.delivered.accepted,
          ))
        (λ h (m, a). unfinished a))

  push_one-Upto :
      (done : List Text) (specs : PlatformList) (platform arch_ref : Text)
      (next : PlatformList → Exec PlatformList) (Q : PlatformList → History → Type 0)
      → HasNoEquals platform
      → derive_per_arch_ref o.ref platform ≡ ok arch_ref
      → ((ss : PlatformList) → Triple (Upto (done ++ platform ∷ []) ss) (next ss) Q (Unfinished k))
      → Triple
          (Upto done specs)
          (wrapping "push %s: %w" (platform ∷ []) (Artifact.run (artifact_opts o platform arch_ref))
            >> (lift (set (platform ++ b'=' ∷ arch_ref) specs).0
                >> next (set (platform ++ b'=' ∷ arch_ref) specs).1))
          Q
          (Unfinished k)
  push_one-Upto done specs platform arch_ref next Q plain derived t =
      let s : PlatformSpec = record { platform = platform; ref = arch_ref } in
      rw (set-entry s specs plain) (
        Triple-bind _ _ _ (artifact-ArchPushed done specs platform arch_ref derived) (λ _.
          Triple-bind (λ _. Upto (done ++ platform ∷ []) (specs ++ s ∷ [])) _ _
            (Triple-lift (ok tt) (λ h _ _ u. u) (λ h (m, a). unfinished a))
            (λ _. t (specs ++ s ∷ []))))

  push_all-Upto :
      (platforms done : List Text) (specs : PlatformList)
      → All HasNoEquals platforms
      → Triple
          (Upto done specs)
          (push_all o platforms specs)
          (λ ss. Upto (done ++ platforms) ss)
          (Unfinished k)
  unfolding push_all
  push_all-Upto [] done specs _ = Triple-pure specs (λ h u. rw append-nil u)
  push_all-Upto (platform ∷ platforms) done specs (hp, hs) =
      let next = λ (ss : PlatformList). push_all-Upto platforms (done ++ platform ∷ []) ss hs in
      Triple-bind
        (λ arch_ref h. (derive_per_arch_ref o.ref platform ≡ ok arch_ref) × Upto done specs h) _ _
        (Triple-lift _ (λ h a e u. (e, u)) (λ h (m, a). unfinished a))
        (λ arch_ref. record {
          at = λ h (e, u).
              (push_one-Upto done specs platform arch_ref (push_all o platforms) _ hp e
                  (λ ss. rw (append_assoc done (platform ∷ []) platforms) at (next ss))).at
                h u;
        })

-- Everything was pushed: a manifest for each platform, then the index that points at them.
pub record Pushed ⦃env : Env⦄ (n k : ℕ) (o : Opts) (platforms : List Text) (h : History)
    : Type 0 where
  pub specs : PlatformList
  pub matched : Match o h platforms specs
  pub indexed :
      Indexes.Pushed (n + length platforms) k (record { platforms = specs; out_ref = o.ref }) h

abbrev pub flags : Opts → List PathList
flags o = o.kernels ∷ o.initrds ∷ o.modules ∷ []

module _ ⦃env : Env⦄ (n k : ℕ) (o : Opts) where
  index-Pushed :
      (platforms : List Text) (specs : PlatformList)
      → Triple
          (Upto n k o platforms specs)
          (Index.run (record { platforms = specs; out_ref = o.ref }))
          (λ _. Pushed n k o platforms)
          (Unfinished k)
  index-Pushed platforms specs =
      let io : Index.Opts = record { platforms = specs; out_ref = o.ref } in
      Triple-weaken _
        (Triple-frame (λ h. Match o h platforms specs) _ (Match-Lasts o platforms specs)
          (IndexGrowth.Grows-run io) (Indexes.run-Pushed_triple (n + length platforms) k io))
        (λ h u. u) (λ _ h (m, p). record { specs = specs; matched = m; indexed = p })
        (λ h (m, a). unfinished a)

  run-Pushed_triple :
      All (All IsEntry) (flags o)
      → Triple
          (Accepted n k)
          (run o)
          (λ _. Pushed n k o (unique_platforms (flags o)))
          (Unfinished k)
  unfolding run
  run-Pushed_triple valid =
      Triple-bind (λ _. Accepted n k) _ _ (Triple-fail_if _ _ (λ h _ a. a) (λ h. unfinished))
        (λ _.
          Triple-bind (λ _. Accepted n k) _ _ (Triple-lift _ (λ h _ _ a. a) (λ h. unfinished))
            (λ _.
              Triple-bind (Upto n k o (unique_platforms (flags o))) _ _
                (Triple-weaken _
                  (push_all-Upto n k o (unique_platforms (flags o)) [] []
                    (unique_platforms-HasNoEquals (flags o) valid))
                  (λ h a. (tt, recount (omega arith) a)) (λ _ _ u. u) (λ _ u. u))
                (index-Pushed (unique_platforms (flags o)))))

-- With flags that `PathList.Set` accepted: if `multi.Run` returns no error, then for each platform
-- of the flags, in ascending order, a manifest was accepted under the reference that
-- `oci.ParseRef` reads of host, repository and tag of `--ref`, a dash and the architecture, with
-- layers for the first kernel, initrd and modules that the flags give for this platform and for
-- their command line, and nothing else, and after them one index, under the reference itself,
-- whose tag names it when `Run` returns and whose entries point at these references, in the same
-- order and under these platforms; nothing else was published. If `Run` returns an error, no index
-- was accepted. In both cases, if every manifest and index of the history before refers only to
-- what was uploaded or described ahead of it, as is assumed, the same holds after.
pub multi_run-Pushed :
    ⦃env : Env⦄ (o : Opts) (h : History)
    → All (All IsEntry) (flags o)
    → IsClosed h
    → After
        (λ _. Pushed (manifests h) (indexes h) o (unique_platforms (flags o)))
        (Unfinished (indexes h))
        (run o h)
multi_run-Pushed o h valid c =
    (run-Pushed_triple (manifests h) (indexes h) o valid).at h
      (record { closed = c; manifests = refl; indexes = refl })
