-- ===== src/Build/Command.antt =====
-- `RunE` of cmd/cloud-boot/build/cmd.go: the checks of the flags ahead of `Build`.
pub mod Checks
pub mod Cleanup
pub mod Whole
use uki.Base.{Text, Bool, is_empty, is_set, none, some, [], ◌∷◌, ◌&&◌, if◌then◌else◌}
use uki.Effects.{Exec, Env, errorf, pure, fail, fail_if, ◌>>=◌, ◌>>◌}
use uki.Build.Opts.{ArchProfile, Opts, arch_profiles, find_profile}
use uki.Build.Stub.{default_stub}
use uki.Build.Pipeline.{build}

-- The variables of the flags.
pub record Flags : Type 0 where
  pub arch : Text
  pub kernel : Text
  pub stub : Text
  pub cmdline : Text
  pub image : Text
  pub plan_ref : Text
  pub plan_file : Text
  pub target : Text
  pub extra : Text
  pub uname : Text
  pub out : Text
  pub work_dir : Text
  pub keep : Bool
  pub insec : Bool
  pub verbose : Bool
  pub cosign_key : Text
  pub zfs_userspace_cpio : Text

-- The argument of `Build`.
unfoldable pub opts_of : Flags → ArchProfile → Text → Opts
opts_of f prof stub = record {
  arch = prof;
  kernel = f.kernel;
  stub = stub;
  cmdline = f.cmdline;
  extra = f.extra;
  image = f.image;
  plan_ref = f.plan_ref;
  plan_file = f.plan_file;
  target = f.target;
  uname = f.uname;
  out = f.out;
  cosign_key = f.cosign_key;
  zfs_userspace_cpio = f.zfs_userspace_cpio;
  work_dir = f.work_dir;
  keep = f.keep;
  insec = f.insec;
  verbose = f.verbose;
}

module _ ⦃env : Env⦄ where
  -- The checks behind the table of architectures, and `Build`.
  unfoldable pub run_for : Flags → ArchProfile → Exec (Unit {0})
  run_for f prof = do
    fail_if (is_empty f.kernel) (errorf "--kernel is required" [])
    fail_if (is_empty f.plan_file && is_empty f.plan_ref && is_empty f.image)
        (errorf "at least one of --plan-file, --plan or --image must be set" [])
    fail_if (is_set f.plan_ref && is_set f.image)
        (errorf "--plan and --image are mutually exclusive" [])
    stub ← (if is_empty f.stub then default_stub prof.stub_name else pure f.stub)
    fail_if (is_empty stub)
        (errorf "UEFI stub not found for %s; pass --stub <%s>" (f.arch ∷ prof.stub_name ∷ []))
    build (opts_of f prof stub)

  -- `RunE`
  unfoldable pub run : Flags → Exec (Unit {0})
  run f = elim (find_profile f.arch arch_profiles) [
    | some prof ↦ run_for f prof
    | none ↦
        fail (
          errorf "unsupported --arch %q (allowed: amd64, arm64, riscv64, loongarch64)"
            (f.arch ∷ []))
  ]
