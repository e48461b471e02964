-- ===== src/Root.antt =====
-- cmd/cloud-boot/root.go and main.go
pub mod Safety
use uki.Base.{ascii, ℕ, Text, List, true}
use uki.Effects.{Env, Result, ok, err, History}
use uki.Cobra.{Node, leaf, group, done, add}
use uki.Cobra.Execute.{Cobra}
use uki.Build.Cmd as BuildCmd
use uki.Label.Cmd as LabelCmd
use uki.Push.Cmd as PushCmd

module _ ⦃env : Env⦄ where
  -- `newRootCmd`
  unfoldable pub new_root_cmd : Node
  new_root_cmd =
      group (ascii "cloud-boot") "Host-side toolchain for the cloud-boot UKI/ISO + OCI workflow"
        "cloud-boot is the host-side CLI for the cloud-boot toolchain.\n\nUse \"cloud-boot build\" to assemble a bootable UEFI UKI/ISO from a kernel,\nan EFI stub, and an OCI plan/image reference.\n\nUse \"cloud-boot push\" to upload the artifacts referenced by the plan to an\nOCI registry — kernel/initrd/modules manifests, HCL plans, multi-arch\nindexes, and kernel-modules cpio.gz bundles.\n\nMulti-arch tamago ISO assembly and the QEMU/EDK2 4-arch boot test\nharness moved to a separate repo: github.com/cloud-boot/iso\n(cloud-boot-iso CLI + pkg/iso + pkg/multiarchboot library API)."
        true (add (leaf BuildCmd.cmd) (add (leaf LabelCmd.cmd) (add PushCmd.cmd done)))

  -- The exit status: `osExit(1)` on an error.
  abbrev exit_status : Result (Unit {0}) → ℕ
  exit_status (ok _) = 0
  exit_status (err _) = 1

  -- `main`
  unfoldable pub main : Cobra new_root_cmd → List Text → History → ℕ × History
  main cobra argv h = let (r, h') = cobra.execute argv h in (exit_status r, h')
