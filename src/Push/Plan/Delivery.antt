-- ===== src/Push/Plan/Delivery.antt =====
-- What `Run` of `push plan` has done when it returns.
use uki.Base.{ℕ, suc, Text, false, [], ◌∷◌, ◌≡◌, refl, ap, length, is_empty}
use uki.FilePath
use uki.Oci.{Ref, Manifest}
use uki.Push.Tags.{Tagged, latest, kept}
use uki.Effects.{
  Env, History, Result, ok, err, read_file, push_blob, push_manifest, print_line, print,
}
use uki.Effects.Hoare.{
  Triple, After, Triple-fail_if, Triple-lift, Triple-wrapping, Triple-bind, Triple-perform,
  Triple-ignoring,
}
use uki.Effects.Log.{Occurs, here, there}
use uki.Push.Closed.{Accepted, Accepted-later, IsClosed, IsBacked, manifests, indexes}
use uki.Push.Registry.{descriptor, pushed_line}
use uki.Push.Plan.{Opts, config_json, manifest_of, run}

-- The manifest of the plan was accepted, as the only publication.
pub record Pushed ⦃env : Env⦄ (n k : ℕ) (o : Opts) (h : History) : Type 0 where
  pub ref : Ref
  pub body : Text
  pub config_digest : Text
  pub plan_digest : Text
  pub digest : Text
  pub file_given : is_empty o.file ≡ false
  pub ref_parsed : env.parse_ref o.ref ≡ ok ref
  pub read : Occurs (read_file o.file) body h
  pub config_uploaded : Occurs (push_blob ref config_json) config_digest h
  pub plan_uploaded : Occurs (push_blob ref body) plan_digest h
  pub manifest : Manifest
  pub described : manifest ≡ record {
    schema_version = 2;
    media_type = env.media.image_manifest;
    config = descriptor env.media.config config_digest (length config_json) [];
    layers =
        descriptor env.media.plan plan_digest
          (length body)
          ((env.media.annotation_title, FilePath.base o.file) ∷ [])
        ∷ [];
  }
  pub pushed : Occurs (push_manifest ref manifest) digest h
  pub tagged : Tagged ref manifest h
  pub accepted : Accepted (suc n) k h

module _ ⦃env : Env⦄ (n k : ℕ) (o : Opts) where
  -- The state before the manifest is pushed.
  record Ready (ref : Ref) (body config_digest plan_digest : Text) (h : History) : Type 0 where
    file_given : is_empty o.file ≡ false
    ref_parsed : env.parse_ref o.ref ≡ ok ref
    read : Occurs (read_file o.file) body h
    config_uploaded : Occurs (push_blob ref config_json) config_digest h
    plan_uploaded : Occurs (push_blob ref body) plan_digest h
    accepted : Accepted n k h

  Ready-IsBacked :
      (ref : Ref) (body c p : Text) (h : History)
      → Ready ref body c p h
      → IsBacked (push_manifest ref (manifest_of o.file c p body)) h
  unfolding manifest_of
  Ready-IsBacked ref body c p h r = (
    record { content = config_json; uploaded = r.config_uploaded; sized = refl },
    (record { content = body; uploaded = r.plan_uploaded; sized = refl }, tt),
  )

  push_manifest-Pushed :
      (ref : Ref) (body c p : Text) (h : History) (digest : Text)
      → Ready ref body c p h
      → Pushed n k o
          (record { call = push_manifest ref (manifest_of o.file c p body); reply = ok digest } ∷ h)
  unfolding manifest_of
  push_manifest-Pushed ref body c p h digest r = record {
    ref = ref;
    body = body;
    config_digest = c;
    plan_digest = p;
    digest = digest;
    file_given = r.file_given;
    ref_parsed = r.ref_parsed;
    read = there r.read;
    config_uploaded = there r.config_uploaded;
    plan_uploaded = there r.plan_uploaded;
    manifest = manifest_of o.file c p body;
    described = refl;
    pushed = here;
    tagged = latest;
    accepted = record {
      closed = (Ready-IsBacked ref body c p h r, r.accepted.closed);
      manifests = ap suc r.accepted.manifests;
      indexes = r.accepted.indexes;
    };
  }

  print-Pushed :
      (line : Text) (r : Result (Unit {0})) (h : History)
      → Pushed n k o h
      → Pushed n k o (record { call = print_line line; reply = r } ∷ h)
  print-Pushed line r h d = record {
    ref = d.ref;
    body = d.body;
    config_digest = d.config_digest;
    plan_digest = d.plan_digest;
    digest = d.digest;
    file_given = d.file_given;
    ref_parsed = d.ref_parsed;
    read = there d.read;
    config_uploaded = there d.config_uploaded;
    plan_uploaded = there d.plan_uploaded;
    manifest = d.manifest;
    described = d.described;
    pushed = there d.pushed;
    tagged = kept tt d.tagged;
    accepted = Accepted-later _ tt refl refl d.accepted;
  }

  abbrev Checked : Ref → History → Type 0
  Checked ref h = (is_empty o.file ≡ false) × (env.parse_ref o.ref ≡ ok ref) × Accepted n k h

  abbrev Read : Ref → Text → History → Type 0
  Read ref body h = Checked ref h × Occurs (read_file o.file) body h

  abbrev Configured : Ref → Text → Text → History → Type 0
  Configured ref body c h = Read ref body h × Occurs (push_blob ref config_json) c h

  pub run-Pushed_triple : Triple (Accepted n k) (run o) (λ _. Pushed n k o) (Accepted n k)
  unfolding run print
  run-Pushed_triple =
      Triple-bind (λ _ h. (is_empty o.file ≡ false) × Accepted n k h) _ _
        (Triple-fail_if _ _ (λ h l a. (l, a)) (λ h a. a))
        (λ _.
          Triple-bind Checked _ _ (Triple-lift _ (λ h r f (l, a). (l, f, a)) (λ h (l, a). a))
            (λ ref.
              Triple-bind (Read ref) _ _
                (Triple-perform (read_file o.file)
                  (λ h body (l, f, a). ((l, f, Accepted-later _ tt refl refl a), here))
                  (λ h e (l, f, a). Accepted-later _ tt refl refl a))
                (λ body.
                  Triple-bind (Configured ref body) _ _
                    (Triple-wrapping _ _ _ (
                      Triple-perform (push_blob ref config_json)
                        (λ h c ((l, f, a), r).
                          (((l, f, Accepted-later _ tt refl refl a), there r), here))
                        (λ h e ((l, f, a), r). Accepted-later _ tt refl refl a)))
                    (λ c.
                      Triple-bind (Ready ref body c) _ _
                        (Triple-wrapping _ _ _ (
                          Triple-perform (push_blob ref body)
                            (λ h p (((l, f, a), r), u). record {
                              file_given = l;
                              ref_parsed = f;
                              read = there r;
                              config_uploaded = there u;
                              plan_uploaded = here;
                              accepted = Accepted-later _ tt refl refl a;
                            })
                            (λ h e (((l, f, a), r), u). Accepted-later _ tt refl refl a)))
                        (λ p.
                          Triple-bind (λ _. Pushed n k o) _ _
                            (Triple-wrapping _ _ _ (
                              Triple-perform (push_manifest ref (manifest_of o.file c p body))
                                (λ h digest r. push_manifest-Pushed ref body c p h digest r)
                                (λ h e r.
                                  Accepted-later _ (Ready-IsBacked ref body c p h r) refl refl
                                    r.accepted)))
                            (λ digest. Triple-ignoring _ (
                              Triple-perform (print_line (pushed_line ref digest))
                                (λ h a d. print-Pushed _ (ok a) h d)
                                (λ h e d. print-Pushed _ (err e) h d))))))))

-- If `plan.Run` returns no error, then `--file` was given, the reference is valid, and exactly
-- one manifest was accepted and no index: under the parsed reference, whose tag names it when
-- `Run` returns, with the minimal config and one layer, which names the content of the file
-- under its base name; both blobs were uploaded with these digests and sizes. If `Run` returns
-- an error, nothing was published. In both cases, if every manifest and index of the history
-- before refers only to what was uploaded or described ahead of it, as is assumed, the same
-- holds after.
pub plan_run-Pushed :
    ⦃env : Env⦄ (o : Opts) (h : History)
    → IsClosed h
    → After (λ _. Pushed (manifests h) (indexes h) o) (Accepted (manifests h) (indexes h)) (run o h)
plan_run-Pushed o h c =
    (run-Pushed_triple (manifests h) (indexes h) o).at h
      (record { closed = c; manifests = refl; indexes = refl })
