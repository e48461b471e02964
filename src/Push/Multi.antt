-- ===== src/Push/Multi.antt =====
-- cmd/cloud-boot/push/multi/cmd.go
pub mod Cmd
pub mod Balance
pub mod PathList
pub mod Platforms
pub mod Refs
pub mod Options
pub mod Faults
pub mod Files
pub mod Delivery
pub mod Costs
pub mod ArchTags
pub mod Resolved
use uki.Base.{Text, Bool, true, false, ascii, List, [], ◌∷◌, ◌++◌, ◌==◌, ◌||◌, if◌then◌else◌}
use uki.Base.Order.{sort_strings}
use uki.Oci.{Ref}
use uki.Effects.{Exec, Env, Result, ok, err, errorf, pure, fail_if, lift, wrapping, ◌>>=◌, ◌>>◌}
use uki.Cliutil.{parse_platform}
use uki.Push.Artifact
use uki.Push.Index
use uki.Push.Index.{is_nil}

-- `Opts`
pub record Opts : Type 0 where
  pub ref : Text
  pub kernels : PathList.PathList
  pub initrds : PathList.PathList
  pub modules : PathList.PathList
  pub cmdline : Text

-- A look into the map `seen`, whose keys are the platforms of `out`.
unfoldable pub contains : List Text → Text → Bool
contains [] platform = false
contains (q ∷ out) platform = q == platform || contains out platform

-- The inner loop of `uniquePlatforms`.
unfoldable pub collect : PathList.PathList → List Text → List Text
collect [] out = out
collect (p ∷ l) out = collect l (if contains out p.platform then out else out ++ p.platform ∷ [])

-- The outer loop.
unfoldable pub collect_all : List PathList.PathList → List Text → List Text
collect_all [] out = out
collect_all (l ∷ lists) out = collect_all lists (collect l out)

-- `uniquePlatforms`
unfoldable pub unique_platforms : List PathList.PathList → List Text
unique_platforms lists = sort_strings (collect_all lists [])

-- `fmt.Sprintf("%s/%s:%s-%s", …)`
unfoldable pub suffixed : Ref → Text → Text
unfolding ascii
suffixed r arch = r.host ++ ascii "/" ++ r.repo ++ ascii ":" ++ r.reference ++ ascii "-" ++ arch

module _ ⦃env : Env⦄ where
  -- `derivePerArchRef`
  unfoldable pub derive_per_arch_ref : Text → Text → Result Text
  derive_per_arch_ref ref platform = elim (parse_platform platform) [
    | ok (_, arch) ↦ elim (env.parse_ref ref) [ ok r ↦ ok (suffixed r arch) | err e ↦ err e ]
    | err e ↦ err e
  ]

  unfoldable pub artifact_opts : Opts → Text → Text → Artifact.Opts
  artifact_opts o platform arch_ref = record {
    platform = platform;
    kernel = PathList.path_for o.kernels platform;
    initrd = PathList.path_for o.initrds platform;
    modules = PathList.path_for o.modules platform;
    modloop = [];
    apkovl = [];
    squashfs = [];
    cmdline = o.cmdline;
    ref = arch_ref;
  }

  -- The loop of `Run`, with `indexOpts.Platforms`.
  unfoldable pub push_all :
      Opts → List Text → Index.PlatformList.PlatformList → Exec Index.PlatformList.PlatformList
  push_all o [] specs = pure specs
  push_all o (platform ∷ platforms) specs = do
    arch_ref ← lift (derive_per_arch_ref o.ref platform)
    wrapping "push %s: %w" (platform ∷ []) (Artifact.run (artifact_opts o platform arch_ref))
    let added = Index.PlatformList.set (platform ++ b'=' ∷ arch_ref) specs
    lift added.0
    push_all o platforms added.1

  -- `Run`
  unfoldable pub run : Opts → Exec (Unit {0})
  run o = do
    let platforms = unique_platforms (o.kernels ∷ o.initrds ∷ o.modules ∷ [])
    fail_if (is_nil platforms)
        (errorf "multi: at least one --kernel/--initrd/--modules entry is required" [])
    lift (env.parse_ref o.ref)
    specs ← push_all o platforms []
    Index.run (record { platforms = specs; out_ref = o.ref })
