-- ===== src/Push/Index.antt =====
-- cmd/cloud-boot/push/index/cmd.go
pub mod Cmd
pub mod Balance
pub mod PlatformList
pub mod Growth
pub mod Costs
pub mod Options
pub mod Faults
pub mod Delivery
use uki.Base.{Text, Bool, true, false, List, [], ◌∷◌, ◌++◌, some}
use uki.Oci.{Descriptor, Index}
use uki.Effects.{
  Exec, Env, errorf, pure, fail_if, lift, wrapping, ◌>>=◌, ◌>>◌, perform, print, describe_manifest,
  push_index,
}
use uki.Cliutil.{parse_platform}
use uki.Push.Registry.{pushed_line}

-- `Opts`
pub record Opts : Type 0 where
  pub platforms : PlatformList.PlatformList
  pub out_ref : Text

-- `len(l) == 0`
abbrev pub is_nil {ℓ} : {A : Type ℓ} → List A → Bool
is_nil [] = true
is_nil (_ ∷ _) = false

module _ ⦃env : Env⦄ where
  -- One round of the loop of `Run`.
  unfoldable pub describe : PlatformList.PlatformSpec → Exec Descriptor
  describe p = do
    (os_name, arch) ← lift (parse_platform p.platform)
    r ← lift (env.parse_ref p.ref)
    found ← wrapping "describe %s: %w" (p.ref ∷ []) (perform (describe_manifest r))
    pure (record found { platform = some (record { os = os_name; architecture = arch }) })

  -- The loop of `Run`, with the entries so far.
  unfoldable pub describe_all : PlatformList.PlatformList → List Descriptor → Exec (List Descriptor)
  describe_all [] entries = pure entries
  describe_all (p ∷ platforms) entries = do
    entry ← describe p
    describe_all platforms (entries ++ entry ∷ [])

  unfoldable pub index_of : List Descriptor → Index
  index_of entries = record {
    schema_version = 2;
    media_type = env.media.image_index;
    manifests = entries;
  }

  -- `Run`
  unfoldable pub run : Opts → Exec (Unit {0})
  run o = do
    fail_if (is_nil o.platforms) (errorf "index: at least one --platform is required" [])
    out_ref ← lift (env.parse_ref o.out_ref)
    entries ← describe_all o.platforms []
    digest ← wrapping "push index: %w" [] (perform (push_index out_ref (index_of entries)))
    print (pushed_line out_ref digest)
