-- ===== src/Push/Multi/Files.antt =====
-- The files and the reference of one platform, for cmd/cloud-boot/push/multi/cmd.go.
use uki.Oci.{Ref}
use uki.Base.{
  ascii, ◌++◌, Text, [], ◌∷◌, ◌==◌, ◌≡◌, ◌≢◌, inl, inr, Bool-cases, true, false, ==-refl, ==→eq,
}
use uki.Push.Artifact
use uki.Push.Multi.{Opts}
use uki.Push.Multi.PathList.{PlatformPath, PathList, path_for}

-- The reference of an architecture, as it is printed.
abbrev pub printed : Ref → Text → Text
printed r arch = r.host ++ ascii "/" ++ r.repo ++ ascii ":" ++ r.reference ++ ascii "-" ++ arch

-- `path` stands in the first entry of the platform, and is empty if there is none.
pub data FirstPath : PathList → Text → Text → Type 0 where
  absent : {platform : Text} → FirstPath [] platform []
  found :
      {p : PlatformPath} {l : PathList} {platform : Text}
      → p.platform ≡ platform
      → FirstPath (p ∷ l) platform p.path
  passed :
      {p : PlatformPath} {l : PathList} {platform path : Text}
      → p.platform ≢ platform
      → FirstPath l platform path
      → FirstPath (p ∷ l) platform path

-- The kernel, the initrd and the modules of a platform.
pub record Files (o : Opts) (platform : Text) : Type 0 where
  pub kernel : Text
  pub initrd : Text
  pub modules : Text
  pub kernel_first : FirstPath o.kernels platform kernel
  pub initrd_first : FirstPath o.initrds platform initrd
  pub modules_first : FirstPath o.modules platform modules

-- The options with these files, the command line of the flags and nothing else.
abbrev pub with_files : (o : Opts) (platform ref : Text) → Files o platform → Artifact.Opts
with_files o platform ref files = record {
  platform = platform;
  kernel = files.kernel;
  initrd = files.initrd;
  modules = files.modules;
  modloop = [];
  apkovl = [];
  squashfs = [];
  cmdline = o.cmdline;
  ref = ref;
}

pub path_for-FirstPath :
    (l : PathList) (platform : Text) → FirstPath l platform (path_for l platform)
unfolding path_for
path_for-FirstPath [] platform = absent
path_for-FirstPath (p ∷ l) platform = elim (Bool-cases (p.platform == platform)) [
  | inl same ↦ rw same (found (==→eq p.platform platform same))
  | inr other ↦ rw other (
      passed (λ same. let e = ==-refl platform in let n : true ≡ false = cc (same, other, e) in cc)
        (path_for-FirstPath l platform))
]

abbrev pub files_of : (o : Opts) (platform : Text) → Files o platform
files_of o platform = record {
  kernel = path_for o.kernels platform;
  initrd = path_for o.initrds platform;
  modules = path_for o.modules platform;
  kernel_first = path_for-FirstPath o.kernels platform;
  initrd_first = path_for-FirstPath o.initrds platform;
  modules_first = path_for-FirstPath o.modules platform;
}
