-- ===== src/Push/Plan.antt =====
-- cmd/cloud-boot/push/plan/cmd.go
pub mod Cmd
pub mod Balance
pub mod Faults
pub mod Delivery
use uki.Base.{Text, ascii, [], ◌∷◌, none, length, is_empty}
use uki.FilePath
use uki.Json
use uki.Oci.{Manifest}
use uki.Effects.{
  Exec, Env, errorf, fail_if, lift, wrapping, ◌>>=◌, ◌>>◌, perform, print, read_file, push_blob,
  push_manifest,
}
use uki.Push.Registry.{descriptor, pushed_line}

-- `Opts`
pub record Opts : Type 0 where
  pub file : Text
  pub ref : Text

-- The minimal config blob.
pub config_json : Text
config_json = Json.marshal ((ascii "created", none) ∷ [])

module _ ⦃env : Env⦄ where
  -- The manifest, from the digests of the config and of the plan, and the plan itself.
  unfoldable pub manifest_of : Text → Text → Text → Text → Manifest
  manifest_of file config_digest plan_digest body = record {
    schema_version = 2;
    media_type = env.media.image_manifest;
    config = descriptor env.media.config config_digest (length config_json) [];
    layers =
        descriptor env.media.plan plan_digest (length body)
          ((env.media.annotation_title, FilePath.base file) ∷ [])
        ∷ [];
  }

  -- `Run`
  unfoldable pub run : Opts → Exec (Unit {0})
  run o = do
    fail_if (is_empty o.file) (errorf "plan: --file is required" [])
    ref ← lift (env.parse_ref o.ref)
    body ← perform (read_file o.file)
    config_digest ← wrapping "push config: %w" [] (perform (push_blob ref config_json))
    plan_digest ← wrapping "push plan: %w" [] (perform (push_blob ref body))
    digest ←
        wrapping "push manifest: %w" []
          (perform (push_manifest ref (manifest_of o.file config_digest plan_digest body)))
    print (pushed_line ref digest)
