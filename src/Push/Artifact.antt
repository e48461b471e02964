-- ===== src/Push/Artifact.antt =====
-- cmd/cloud-boot/push/artifact/cmd.go
pub mod Cmd
pub mod Options
pub mod Balance
pub mod Growth
pub mod Costs
pub mod Layers
pub mod Staged
pub mod Faults
pub mod Delivery
use uki.Base.{Text, Bool, ascii, List, [], ◌∷◌, ◌++◌, ◌&&◌, none, some, length, is_empty}
use uki.Base.{if◌then◌else◌}
use uki.Oci.{Ref, Descriptor, Manifest}
use uki.FilePath
use uki.Json
use uki.Effects.{
  Exec, Env, errorf, pure, fail_if, lift, wrapping, ◌>>=◌, ◌>>◌, perform, print, read_file,
  push_blob, push_manifest,
}
use uki.Cliutil.{parse_platform}
use uki.Push.Registry.{descriptor, pushed_line}

-- `Opts`
pub record Opts : Type 0 where
  pub platform : Text
  pub kernel : Text
  pub initrd : Text
  pub modules : Text
  pub modloop : Text
  pub apkovl : Text
  pub squashfs : Text
  pub cmdline : Text
  pub ref : Text

-- The guard on the seven payload flags.
unfoldable pub lacks_payload : Opts → Bool
lacks_payload o =
    is_empty o.kernel
    && is_empty o.initrd
    && is_empty o.modules
    && is_empty o.modloop
    && is_empty o.apkovl
    && is_empty o.squashfs
    && is_empty o.cmdline

-- The config blob. `json.Marshal` writes the keys of a map in ascending order.
unfoldable pub config_json : Text → Text → Text
config_json os_name arch =
    Json.marshal (
      (ascii "architecture", some arch) ∷ (ascii "created", none) ∷ (ascii "os", some os_name) ∷ [])

module _ ⦃env : Env⦄ where
  -- `pushFile`
  unfoldable pub push_file : Ref → Text → Text → Text → Exec Descriptor
  push_file ref path media_type title = do
    contents ← wrapping "read %s: %w" (path ∷ []) (perform (read_file path))
    digest ← wrapping "push %s: %w" (path ∷ []) (perform (push_blob ref contents))
    pure (
        descriptor media_type digest (length contents) (
          (env.media.annotation_title, title)
          ∷ (ascii "cloudboot.source.basename", FilePath.base path)
          ∷ []))

  -- The closure `add`, with the layers that it appends to.
  unfoldable pub add : Ref → Text → Text → Text → List Descriptor → Exec (List Descriptor)
  add ref path media_type title layers =
      if is_empty path
      then pure layers
      else do d ← push_file ref path media_type title; pure (layers ++ d ∷ [])

  unfoldable pub add_cmdline : Ref → Text → List Descriptor → Exec (List Descriptor)
  add_cmdline ref cmdline layers = if is_empty cmdline then pure layers else do
    digest ← wrapping "push cmdline: %w" [] (perform (push_blob ref cmdline))
    pure (
        layers
        ++ descriptor env.media.cmdline digest (length cmdline)
            ((env.media.annotation_title, ascii "cmdline") ∷ [])
          ∷ [])

  -- The layers, in the order of the source.
  unfoldable pub push_layers : Opts → Ref → Exec (List Descriptor)
  push_layers o ref = do
    l₁ ← add ref o.kernel env.media.kernel (ascii "vmlinuz") []
    l₂ ← add ref o.initrd env.media.initrd (ascii "initrd") l₁
    l₃ ← add ref o.modules env.media.modules (ascii "modules") l₂
    l₄ ← add ref o.modloop env.media.modloop (ascii "modloop") l₃
    l₅ ← add ref o.apkovl env.media.apkovl (ascii "apkovl") l₄
    l₆ ← add ref o.squashfs env.media.squashfs (ascii "squashfs") l₅
    add_cmdline ref o.cmdline l₆

  unfoldable pub push_config : Ref → Text → Exec Descriptor
  push_config ref config = do
    digest ← wrapping "push config: %w" [] (perform (push_blob ref config))
    pure (descriptor env.media.config digest (length config) [])

  unfoldable pub manifest_of : Descriptor → List Descriptor → Manifest
  manifest_of config layers = record {
    schema_version = 2;
    media_type = env.media.image_manifest;
    config = config;
    layers = layers;
  }

  -- What `Run` does behind its guards.
  unfoldable pub upload : Opts → Text → Text → Ref → Exec (Unit {0})
  upload o os_name arch ref = do
    config ← push_config ref (config_json os_name arch)
    layers ← push_layers o ref
    digest ←
        wrapping "push manifest: %w" [] (perform (push_manifest ref (manifest_of config layers)))
    print (pushed_line ref digest)

  -- `Run`
  unfoldable pub run : Opts → Exec (Unit {0})
  run o = do
    fail_if (is_empty o.platform) (errorf "artifact: --platform is required" [])
    (os_name, arch) ← lift (parse_platform o.platform)
    fail_if (lacks_payload o) (
        errorf
          "artifact: at least one of --kernel/--initrd/--modules/--modloop/--apkovl/--squashfs/--cmdline is required"
          [])
    ref ← lift (env.parse_ref o.ref)
    upload o os_name arch ref
