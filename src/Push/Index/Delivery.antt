-- ===== src/Push/Index/Delivery.antt =====
-- What `Run` of `push index` has done when it returns.
use uki.Base.{
  ℕ, suc, Text, false, List, [], ◌∷◌, ◌++◌, ◌≡◌, refl, All, some, ap, append_assoc, append-nil,
}
use uki.Oci.{Ref, Descriptor, Index}
use uki.Effects.{
  Env, Event, History, Error, Result, ok, err, describe_manifest, push_index, print_line, print,
  wrapping, perform, ◌>>=◌,
}
use uki.Effects.Hoare.{
  Triple, After, Triple-weaken, Triple-pure, Triple-fail_if, Triple-lift, Triple-wrapping,
  Triple-bind, Triple-perform, Triple-ignoring,
}
use uki.Effects.Log.{Occurs, here, there}
use uki.Cliutil.{parse_platform}
use uki.Push.Closed.{Described, Accepted, Accepted-later, IsClosed, manifests, indexes}
use uki.Push.Tags.{TaggedIndex, latest, kept}
use uki.Push.Registry.{pushed_line}
use uki.Push.Index.{Opts, is_nil, describe, describe_all, index_of, run}
use uki.Push.Index.PlatformList.{PlatformSpec, PlatformList}

-- `d` is what the registry answered for the reference of the flag, under the flag's platform.
pub record Points ⦃env : Env⦄ (h : History) (p : PlatformSpec) (d : Descriptor) : Type 0 where
  pub os_name : Text
  pub arch : Text
  pub ref : Ref
  pub found : Descriptor
  pub platform_parsed : parse_platform p.platform ≡ ok (os_name, arch)
  pub ref_parsed : env.parse_ref p.ref ≡ ok ref
  pub asked : Occurs (describe_manifest ref) found h
  pub stamped : d ≡ record found { platform = some (record { os = os_name; architecture = arch }) }

module _ ⦃env : Env⦄ where
  -- One entry for each flag, in the same order.
  abbrev pub Match : History → PlatformList → List Descriptor → Type 0
  Match h [] [] = Unit
  Match h [] (d ∷ ds) = ⊥
  Match h (p ∷ ps) [] = ⊥
  Match h (p ∷ ps) (d ∷ ds) = Points h p d × Match h ps ds

  Points-later :
      {h : History} {p : PlatformSpec} {d : Descriptor} (e : Event)
      → Points h p d
      → Points (e ∷ h) p d
  Points-later e c = record {
    os_name = c.os_name;
    arch = c.arch;
    ref = c.ref;
    found = c.found;
    platform_parsed = c.platform_parsed;
    ref_parsed = c.ref_parsed;
    asked = there c.asked;
    stamped = c.stamped;
  }

  Match-later :
      (h : History) (ps : PlatformList) (ds : List Descriptor) (e : Event)
      → Match h ps ds
      → Match (e ∷ h) ps ds
  Match-later h [] [] e m = tt
  Match-later h [] (d ∷ ds) e m = absurd m
  Match-later h (p ∷ ps) [] e m = absurd m
  Match-later h (p ∷ ps) (d ∷ ds) e (c, m) = (Points-later e c, Match-later h ps ds e m)

  Match-append :
      (h : History) (ps : PlatformList) (ds : List Descriptor) (p : PlatformSpec) (d : Descriptor)
      → Match h ps ds
      → Points h p d
      → Match h (ps ++ p ∷ []) (ds ++ d ∷ [])
  Match-append h [] [] p d m c = (c, tt)
  Match-append h [] (x ∷ ds) p d m c = absurd m
  Match-append h (q ∷ ps) [] p d m c = absurd m
  Match-append h (q ∷ ps) (x ∷ ds) p d (b, m) c = (b, Match-append h ps ds p d m c)

  Match→Described :
      (h : History) (ps : PlatformList) (ds : List Descriptor)
      → Match h ps ds
      → All (Described h) ds
  Match→Described h ps [] m = tt
  Match→Described h [] (d ∷ ds) m = absurd m
  Match→Described h (p ∷ ps) (d ∷ ds) (c, m) = (
    record {
      ref = c.ref;
      platform = record { os = c.os_name; architecture = c.arch };
      found = c.found;
      asked = c.asked;
      stamped = c.stamped;
    },
    Match→Described h ps ds m,
  )

module _ ⦃env : Env⦄ (n k : ℕ) where
  abbrev Upto : PlatformList → List Descriptor → History → Type 0
  Upto ps ds h = Accepted n k h × Match h ps ds

  describe-Upto :
      (ps : PlatformList) (ds : List Descriptor) (p : PlatformSpec)
      → Triple (Upto ps ds) (describe p) (λ d. Upto (ps ++ p ∷ []) (ds ++ d ∷ [])) (Accepted n k)
  unfolding describe
  describe-Upto ps ds p =
      Triple-bind (λ (q : Text × Text) h. (parse_platform p.platform ≡ ok q) × Upto ps ds h) _ _
        (Triple-lift _ (λ h q e u. (e, u)) (λ h (a, m). a))
        (λ (q : Text × Text).
          Triple-bind
            (λ r h.
              (parse_platform p.platform ≡ ok q) × (env.parse_ref p.ref ≡ ok r) × Upto ps ds h)
            _ _ (Triple-lift _ (λ h r f (e, u). (e, f, u)) (λ h (e, (a, m)). a))
            (λ r.
              Triple-bind
                (λ found h.
                  (parse_platform p.platform ≡ ok q)
                  × (env.parse_ref p.ref ≡ ok r)
                  × Upto ps ds h
                  × Occurs (describe_manifest r) found h)
                _ _
                (Triple-wrapping _ _ _ (
                  Triple-perform (describe_manifest r)
                    (λ h d (e, f, (a, m)).
                      (e, f, (Accepted-later _ tt refl refl a, Match-later h ps ds _ m), here))
                    (λ h x (e, f, (a, m)). Accepted-later _ tt refl refl a)))
                (λ found. Triple-pure _ (λ h (e, f, (a, m), o). (
                  a,
                  Match-append h ps ds p _ m (record {
                    os_name = q.0;
                    arch = q.1;
                    ref = r;
                    found = found;
                    platform_parsed = e;
                    ref_parsed = f;
                    asked = o;
                    stamped = refl;
                  }),
                )))))

  describe_all-Upto :
      (ps done : PlatformList) (ds : List Descriptor)
      → Triple (Upto done ds) (describe_all ps ds) (Upto (done ++ ps)) (Accepted n k)
  unfolding describe_all
  describe_all-Upto [] done ds = Triple-pure ds (λ h u. rw append-nil u)
  describe_all-Upto (p ∷ ps) done ds =
      Triple-bind (λ d. Upto (done ++ p ∷ []) (ds ++ d ∷ [])) _ _ (describe-Upto done ds p)
        (λ d.
          rw (append_assoc done (p ∷ []) ps) at
            (describe_all-Upto ps (done ++ p ∷ []) (ds ++ d ∷ [])))

-- The index for the flags of `o` was accepted, as the only publication.
pub record Pushed ⦃env : Env⦄ (n k : ℕ) (o : Opts) (h : History) : Type 0 where
  pub out_ref : Ref
  pub index : Index
  pub digest : Text
  pub some_platform : is_nil o.platforms ≡ false
  pub ref_parsed : env.parse_ref o.out_ref ≡ ok out_ref
  pub pushed : Occurs (push_index out_ref index) digest h
  pub tagged : TaggedIndex out_ref index h
  pub matched : Match h o.platforms index.manifests
  pub schema_version : ◌≡◌ {A = ℕ} index.schema_version 2
  pub media_type : index.media_type ≡ env.media.image_index
  pub accepted : Accepted n (suc k) h

module _ ⦃env : Env⦄ (n k : ℕ) (o : Opts) where
  push_index-Pushed :
      (r : Ref) (ds : List Descriptor) (h : History) (digest : Text)
      → is_nil o.platforms ≡ false
      → env.parse_ref o.out_ref ≡ ok r
      → Upto n k o.platforms ds h
      → Pushed n k o (record { call = push_index r (index_of ds); reply = ok digest } ∷ h)
  unfolding index_of
  push_index-Pushed r ds h digest l f (a, m) = record {
    out_ref = r;
    index = index_of ds;
    digest = digest;
    some_platform = l;
    ref_parsed = f;
    pushed = here;
    tagged = latest;
    matched = Match-later h o.platforms ds _ m;
    schema_version = refl;
    media_type = refl;
    accepted = record {
      closed = (Match→Described h o.platforms ds m, a.closed);
      manifests = a.manifests;
      indexes = ap suc a.indexes;
    };
  }

  refused :
      (r : Ref) (ds : List Descriptor) (h : History) (e : Error)
      → Upto n k o.platforms ds h
      → Accepted n k (record { call = push_index r (index_of ds); reply = err e } ∷ h)
  unfolding index_of
  refused r ds h e (a, m) = Accepted-later _ (Match→Described h o.platforms ds m) refl refl a

  print-Pushed :
      (line : Text) (r : Result (Unit {0})) (h : History)
      → Pushed n k o h
      → Pushed n k o (record { call = print_line line; reply = r } ∷ h)
  print-Pushed line r h d = record {
    out_ref = d.out_ref;
    index = d.index;
    digest = d.digest;
    some_platform = d.some_platform;
    ref_parsed = d.ref_parsed;
    pushed = there d.pushed;
    tagged = kept tt d.tagged;
    matched = Match-later h o.platforms d.index.manifests _ d.matched;
    schema_version = d.schema_version;
    media_type = d.media_type;
    accepted = Accepted-later _ tt refl refl d.accepted;
  }

  abbrev Checked : Ref → History → Type 0
  Checked r h = (is_nil o.platforms ≡ false) × (env.parse_ref o.out_ref ≡ ok r) × Accepted n k h

  pub run-Pushed_triple : Triple (Accepted n k) (run o) (λ _. Pushed n k o) (Accepted n k)
  unfolding run print
  run-Pushed_triple =
      Triple-bind (λ _ h. (is_nil o.platforms ≡ false) × Accepted n k h) _ _
        (Triple-fail_if _ _ (λ h l a. (l, a)) (λ h a. a))
        (λ _.
          Triple-bind Checked _ _ (Triple-lift _ (λ h r f (l, a). (l, f, a)) (λ h (l, a). a))
            (λ r. record { at = λ h (l, f, a). (published r l f).at h a }))
    where
      published :
          (r : Ref)
          → is_nil o.platforms ≡ false
          → env.parse_ref o.out_ref ≡ ok r
          → Triple
              (Accepted n k)
              (describe_all o.platforms [] >>= λ ds.
                wrapping "push index: %w" [] (perform (push_index r (index_of ds))) >>= λ digest.
                print (pushed_line r digest))
              (λ _. Pushed n k o)
              (Accepted n k)
      published r l f =
          Triple-bind (Upto n k o.platforms) _ _
            (Triple-weaken _ (describe_all-Upto n k o.platforms [] []) (λ h a. (a, tt)) (λ _ _ u. u)
              (λ _ a. a))
            (λ ds.
              Triple-bind (λ digest. Pushed n k o) _ _
                (Triple-wrapping _ _ _ (
                  Triple-perform (push_index r (index_of ds))
                    (λ h digest u. push_index-Pushed r ds h digest l f u)
                    (λ h e u. refused r ds h e u)))
                (λ digest. Triple-ignoring _ (
                  Triple-perform (print_line (pushed_line r digest))
                    (λ h a d. print-Pushed _ (ok a) h d) (λ h e d. print-Pushed _ (err e) h d))))

-- If `index.Run` returns no error, then some platform was given, the reference is valid, and
-- exactly one index was accepted and no manifest. The index stands under the parsed reference,
-- whose tag names it when `Run` returns; its entries are, in the order of the flags, one for
-- each `--platform`, each the descriptor the registry returned for that flag's reference with
-- the flag's os and architecture as its platform. If `Run` returns an error, nothing was
-- published. In both cases, if every manifest and index of the history before refers only to
-- what was uploaded or described ahead of it, as is assumed, the same holds after.
pub index_run-Pushed :
    ⦃env : Env⦄ (o : Opts) (h : History)
    → IsClosed h
    → After (λ _. Pushed (manifests h) (indexes h) o) (Accepted (manifests h) (indexes h)) (run o h)
index_run-Pushed o h c =
    (run-Pushed_triple (manifests h) (indexes h) o).at h
      (record { closed = c; manifests = refl; indexes = refl })
