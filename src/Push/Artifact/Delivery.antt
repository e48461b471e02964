-- ===== src/Push/Artifact/Delivery.antt =====
-- What `Run` of `push artifact` has done when it returns.
use uki.Base.{ℕ, suc, Text, false, List, [], ◌∷◌, ◌++◌, ◌≡◌, refl, ap, append_assoc}
use uki.Oci.{Ref, Descriptor, Manifest}
use uki.Effects.{Env, Event, History, Result, ok, err, push_blob, push_manifest, print_line, print}
use uki.Effects.Hoare.{
  Triple, After, Triple-weaken, Triple-pure, Triple-fail_if, Triple-lift, Triple-wrapping,
  Triple-bind, Triple-perform, Triple-ignoring,
}
use uki.Effects.Log.{Occurs, here, there}
use uki.Cliutil.{parse_platform}
use uki.Push.Closed.{Accepted, Accepted-later, IsBacked, IsClosed, manifests, indexes}
use uki.Push.Tags.{Tagged, latest, kept}
use uki.Json
use uki.Base.{ascii}
use uki.Push.Registry.{pushed_line}
use uki.Push.Artifact.{
  Opts, push_layers, push_config, manifest_of, upload, run, add, config_json, lacks_payload,
}
use uki.Push.Artifact.Layers.{
  Slot, Carries, Carries-later, Carries→Stored, Match, Match-later, Match→Stored, given_slots,
  config_text, file_slot, config_slot, slots,
}
use uki.Push.Artifact.Staged.{Staged, quiet_blob, add-Staged, add_cmdline-Staged}

-- A manifest for the flags of `o` was accepted under its reference.
pub record Published ⦃env : Env⦄ (o : Opts) (os_name arch : Text) (ref : Ref) (h : History)
    : Type 0 where
  pub manifest : Manifest
  pub digest : Text
  pub pushed : Occurs (push_manifest ref manifest) digest h
  pub configured : Carries ref h (config_slot os_name arch) manifest.config
  pub matched : Match ref h (given_slots (slots o)) manifest.layers
  pub schema_version : ◌≡◌ {A = ℕ} manifest.schema_version 2
  pub media_type : manifest.media_type ≡ env.media.image_manifest

abbrev pub Published-later :
    ⦃env : Env⦄ {o : Opts} {os_name arch : Text} {ref : Ref} (h : History) (e : Event)
    → Published o os_name arch ref h
    → Published o os_name arch ref (e ∷ h)
Published-later {ref} h e d = record {
  manifest = d.manifest;
  digest = d.digest;
  pushed = there d.pushed;
  configured = Carries-later e d.configured;
  matched = Match-later ref h _ d.manifest.layers e d.matched;
  schema_version = d.schema_version;
  media_type = d.media_type;
}

-- The same, as the only publication.
pub record Delivered ⦃env : Env⦄ (n k : ℕ) (o : Opts) (os_name arch : Text) (ref : Ref)
    (h : History) : Type 0 where
  pub published : Published o os_name arch ref h
  pub tagged : Tagged ref published.manifest h
  pub accepted : Accepted (suc n) k h

-- The config is that text.
config_json-text :
    ⦃env : Env⦄ (os_name arch : Text) → config_json os_name arch ≡ config_text os_name arch
unfolding config_json Json.marshal Json.value Json.quoted ascii
config_json-text os_name arch = simp append_assoc

module _ ⦃env : Env⦄ (n k : ℕ) (o : Opts) (os_name arch : Text) (ref : Ref) where
  push_config-Staged :
      Triple
        (Accepted n k)
        (push_config ref (config_json os_name arch))
        (λ config. Staged n k ref (config_slot os_name arch) config [] [])
        (Accepted n k)
  unfolding push_config
  push_config-Staged =
      Triple-bind
        (λ digest h. Accepted n k h × Occurs (push_blob ref (config_json os_name arch)) digest h) _
        _
        (Triple-wrapping _ _ _ (
          Triple-perform (push_blob ref (config_json os_name arch))
            (λ h d a. (quiet_blob n k ref _ (ok d) a, here))
            (λ h e a. quiet_blob n k ref _ (err e) a)))
        (λ digest. Triple-pure _ (λ h (a, u). record {
          accepted = a;
          configured = record {
            content = config_json os_name arch;
            source = config_json-text os_name arch;
            uploaded = u;
            sized = refl;
            media_type = refl;
            annotations = refl;
          };
          matched = tt;
        }))

  module _ (config : Descriptor) where
    abbrev Upto : List Slot → List Descriptor → History → Type 0
    Upto l = Staged n k ref (config_slot os_name arch) config (given_slots l)

    layer-Upto :
        (l : List Slot) (path media_type title : Text) (ds : List Descriptor)
        → Triple
            (Upto l ds)
            (add ref path media_type title ds)
            (Upto (l ++ file_slot path media_type title ∷ []))
            (Accepted n k)
    layer-Upto l path media_type title ds =
        add-Staged n k ref _ config (given_slots l) ds l path media_type title refl

    push_layers-Staged : Triple (Upto [] []) (push_layers o ref) (Upto (slots o)) (Accepted n k)
    unfolding push_layers
    push_layers-Staged = Triple-bind _ _ _ (layer-Upto [] o.kernel _ _ []) (λ l₁.
        Triple-bind _ _ _ (layer-Upto _ o.initrd _ _ l₁) (λ l₂.
          Triple-bind _ _ _ (layer-Upto _ o.modules _ _ l₂) (λ l₃.
            Triple-bind _ _ _ (layer-Upto _ o.modloop _ _ l₃) (λ l₄.
              Triple-bind _ _ _ (layer-Upto _ o.apkovl _ _ l₄) (λ l₅.
                Triple-bind _ _ _ (layer-Upto _ o.squashfs _ _ l₅)
                  (λ l₆. add_cmdline-Staged n k ref _ config _ l₆ _ o.cmdline refl))))))

    layers-IsBacked :
        (ds : List Descriptor) (h : History)
        → Upto (slots o) ds h
        → IsBacked (push_manifest ref (manifest_of config ds)) h
    unfolding manifest_of
    layers-IsBacked ds h s = (Carries→Stored s.configured, Match→Stored ref h _ ds s.matched)

    -- The manifest is accepted, and the line is printed.
    push_manifest-Delivered :
        (ds : List Descriptor) (h : History) (digest : Text)
        → Upto (slots o) ds h
        → Delivered n k o os_name arch ref
            (record { call = push_manifest ref (manifest_of config ds); reply = ok digest } ∷ h)
    unfolding manifest_of
    push_manifest-Delivered ds h digest s = record {
      published = record {
        manifest = manifest_of config ds;
        digest = digest;
        pushed = here;
        configured = Carries-later _ s.configured;
        matched = Match-later ref h _ ds _ s.matched;
        schema_version = refl;
        media_type = refl;
      };
      tagged = latest;
      accepted = record {
        closed = (layers-IsBacked ds h s, s.accepted.closed);
        manifests = ap suc s.accepted.manifests;
        indexes = s.accepted.indexes;
      };
    }

  print-Delivered :
      (line : Text) (r : Result (Unit {0})) (h : History)
      → Delivered n k o os_name arch ref h
      → Delivered n k o os_name arch ref (record { call = print_line line; reply = r } ∷ h)
  print-Delivered line r h d = record {
    published = Published-later h _ d.published;
    tagged = kept tt d.tagged;
    accepted = Accepted-later _ tt refl refl d.accepted;
  }

  upload-Delivered :
      Triple
        (Accepted n k)
        (upload o os_name arch ref)
        (λ _. Delivered n k o os_name arch ref)
        (Accepted n k)
  unfolding upload print given_slots
  upload-Delivered = Triple-bind _ _ _ push_config-Staged (λ config.
      Triple-bind _ _ _ (push_layers-Staged config) (λ ds.
        Triple-bind (λ digest. Delivered n k o os_name arch ref) _ _
          (Triple-wrapping _ _ _ (
            Triple-perform (push_manifest ref (manifest_of config ds))
              (λ h digest s. push_manifest-Delivered config ds h digest s)
              (λ h e s. Accepted-later _ (layers-IsBacked config ds h s) refl refl s.accepted)))
          (λ digest. Triple-ignoring _ (
            Triple-perform (print_line (pushed_line ref digest))
              (λ h a d. print-Delivered _ (ok a) h d) (λ h e d. print-Delivered _ (err e) h d)))))

-- What a run that returns no error has done: its arguments are valid and the manifest is there.
pub record Pushed ⦃env : Env⦄ (n k : ℕ) (o : Opts) (h : History) : Type 0 where
  pub os_name : Text
  pub arch : Text
  pub ref : Ref
  pub platform_parsed : parse_platform o.platform ≡ ok (os_name, arch)
  pub ref_parsed : env.parse_ref o.ref ≡ ok ref
  pub payload : lacks_payload o ≡ false
  pub delivered : Delivered n k o os_name arch ref h

module _ ⦃env : Env⦄ (n k : ℕ) (o : Opts) where
  upload-Pushed :
      (os_name arch : Text) (ref : Ref)
      → parse_platform o.platform ≡ ok (os_name, arch)
      → env.parse_ref o.ref ≡ ok ref
      → lacks_payload o ≡ false
      → Triple (Accepted n k) (upload o os_name arch ref) (λ _. Pushed n k o) (Accepted n k)
  upload-Pushed os_name arch ref p r l =
      Triple-weaken _ (upload-Delivered n k o os_name arch ref) (λ _ a. a)
        (λ _ h d. record {
          os_name = os_name;
          arch = arch;
          ref = ref;
          platform_parsed = p;
          ref_parsed = r;
          payload = l;
          delivered = d;
        })
        (λ _ a. a)

  pub run-Pushed_triple : Triple (Accepted n k) (run o) (λ _. Pushed n k o) (Accepted n k)
  unfolding run
  run-Pushed_triple =
      Triple-bind (λ _. Accepted n k) _ _ (Triple-fail_if _ _ (λ h _ a. a) (λ h a. a))
        (λ _.
          Triple-bind (λ (q : Text × Text) h. (parse_platform o.platform ≡ ok q) × Accepted n k h) _
            _ (Triple-lift _ (λ h q e a. (e, a)) (λ h a. a))
            (λ (q : Text × Text).
              Triple-bind
                (λ _ h.
                  (parse_platform o.platform ≡ ok q) × (lacks_payload o ≡ false) × Accepted n k h)
                _ _ (Triple-fail_if _ _ (λ h l (e, a). (e, l, a)) (λ h (e, a). a))
                (λ _.
                  Triple-bind
                    (λ ref h.
                      (parse_platform o.platform ≡ ok q)
                      × (lacks_payload o ≡ false)
                      × (env.parse_ref o.ref ≡ ok ref)
                      × Accepted n k h)
                    _ _ (Triple-lift _ (λ h ref r (e, l, a). (e, l, r, a)) (λ h (e, l, a). a))
                    (λ ref. record {
                      at = λ h (e, l, r, a). (upload-Pushed q.0 q.1 ref e r l).at h a;
                    }))))

-- If `artifact.Run` returns no error, then `--platform` and the reference are valid, some
-- payload was given, and exactly one manifest was accepted and no index. The manifest stands
-- under the parsed reference, whose tag names it when `Run` returns; its config is the JSON for
-- the parsed platform; its layers are, in the order of the flags, one for each payload flag
-- that was given, each naming the content of that file (or the cmdline text) with the digest
-- the registry gave and its true size; all of it was uploaded. If `Run` returns an error,
-- nothing was published. In both cases, if every manifest and index of the history before
-- refers only to what was uploaded or described ahead of it, as is assumed, the same holds
-- after.
pub artifact_run-Pushed :
    ⦃env : Env⦄ (o : Opts) (h : History)
    → IsClosed h
    → After (λ _. Pushed (manifests h) (indexes h) o) (Accepted (manifests h) (indexes h)) (run o h)
artifact_run-Pushed o h c =
    (run-Pushed_triple (manifests h) (indexes h) o).at h
      (record { closed = c; manifests = refl; indexes = refl })
