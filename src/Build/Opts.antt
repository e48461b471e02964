-- ===== src/Build/Opts.antt =====
-- The types and the table of cmd/cloud-boot/build/cmd.go.
use uki.Base.{Text, Bool, ascii, Option, none, some, List, [], ◌∷◌, ◌==◌, if◌then◌else◌}

-- `ArchProfile`
pub record ArchProfile : Type 0 where
  pub go_arch : Text
  pub efi_name : Text
  pub stub_name : Text

-- `Opts`
pub record Opts : Type 0 where
  pub arch : ArchProfile
  pub kernel : Text
  pub stub : Text
  pub cmdline : Text
  pub extra : Text
  pub image : Text
  pub plan_ref : Text
  pub plan_file : Text
  pub target : Text
  pub uname : Text
  pub out : Text
  pub cosign_key : Text
  pub zfs_userspace_cpio : Text
  pub work_dir : Text
  pub keep : Bool
  pub insec : Bool
  pub verbose : Bool

profile : Text → Text → Text → ArchProfile
profile go_arch efi_name stub_name = record {
  go_arch = go_arch;
  efi_name = efi_name;
  stub_name = stub_name;
}

-- `ArchProfiles`
pub arch_profiles : List (Text × ArchProfile)
unfolding profile ascii
arch_profiles =
    (ascii "amd64", profile (ascii "amd64") (ascii "BOOTX64.EFI") (ascii "linuxx64.efi.stub"))
    ∷ (ascii "arm64", profile (ascii "arm64") (ascii "BOOTAA64.EFI") (ascii "linuxaa64.efi.stub"))
    ∷ (
      ascii "riscv64",
      profile (ascii "riscv64") (ascii "BOOTRISCV64.EFI") (ascii "linuxriscv64.efi.stub"),
    )
    ∷ (
      ascii "loongarch64",
      profile (ascii "loongarch64") (ascii "BOOTLOONGARCH64.EFI")
          (ascii "linuxloongarch64.efi.stub"),
    )
    ∷ []

-- `ArchProfiles[arch]`
unfoldable pub find_profile : Text → List (Text × ArchProfile) → Option ArchProfile
find_profile arch [] = none
find_profile arch ((k, p) ∷ profiles) = if k == arch then some p else find_profile arch profiles
