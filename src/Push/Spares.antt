-- ===== src/Push/Spares.antt =====
-- Which tags `Run` of cmd/cloud-boot/push/artifact and of cmd/cloud-boot/push/index leave alone.
use uki.Base.{Text, List, [], ◌∷◌, ◌++◌, ◌≡◌, ◌≢◌}
use uki.Oci.{Ref, Descriptor}
use uki.Effects.{Env, ok}
use uki.Effects.Only.{Only, Only-bind, Only-fail_if, Only-pure}
use uki.Effects.Only.Calls.{only}
use uki.Cliutil.{parse_platform}
use uki.Push.Tags.{Avoids, Spares, Only-lift_then, publishing}
use uki.Push.Artifact
use uki.Push.Artifact.{push_file, push_layers, push_config, add, add_cmdline, upload}
use uki.Push.Index
use uki.Push.Index.{describe, describe_all}
use uki.Push.Index.PlatformList.{PlatformList}

module _ ⦃env : Env⦄ (tag : Text) where
  Spares-upload :
      (o : Artifact.Opts) (os_name arch : Text) (ref : Ref)
      → ref.reference ≢ tag
      → Only (Spares tag) (upload o os_name arch ref)
  unfolding upload push_config push_layers add add_cmdline push_file
  Spares-upload o os_name arch ref differ = search (only, publishing) depth 30

  -- `artifact.Run` leaves alone each tag that is not its own.
  pub Spares-artifact :
      (o : Artifact.Opts)
      → ((os_name arch : Text) (ref : Ref)
          → parse_platform o.platform ≡ ok (os_name, arch)
          → env.parse_ref o.ref ≡ ok ref
          → ref.reference ≢ tag)
      → Only (Spares tag) (Artifact.run o)
  unfolding Artifact.run
  Spares-artifact o differ = Only-bind _ _ (Only-fail_if _ _) (λ _. Only-lift_then _ _ (λ p e.
      Only-bind _ _ (Only-fail_if _ _)
        (λ _. Only-lift_then _ _ (λ ref f. Spares-upload o p.0 p.1 ref (differ p.0 p.1 ref e f)))))

module _ ⦃env : Env⦄ (T : Text → Type 0) where
  Avoids-describe_all :
      (platforms : PlatformList) (entries : List Descriptor)
      → Only (Avoids T) (describe_all platforms entries)
  unfolding describe_all describe
  Avoids-describe_all [] entries = Only-pure entries
  Avoids-describe_all (p ∷ platforms) entries =
      Only-bind _ _ (search (only, publishing) depth 12)
        (λ entry. Avoids-describe_all platforms (entries ++ entry ∷ []))

  -- `index.Run` leaves alone each tag but that of its reference.
  pub Avoids-index :
      (o : Index.Opts)
      → ((ref : Ref) → env.parse_ref o.out_ref ≡ ok ref → T ref.reference → ⊥)
      → Only (Avoids T) (Index.run o)
  unfolding Index.run
  Avoids-index o differ = Only-bind _ _ (Only-fail_if _ _) (λ _. Only-lift_then _ _ (λ ref e.
      let d = differ ref e in
      Only-bind _ _ (Avoids-describe_all o.platforms [])
        (λ entries. search (only, publishing) depth 9)))
