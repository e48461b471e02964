-- ===== src/Push/Cmd.antt =====
-- `Cmd` of cmd/cloud-boot/push/cmd.go.
use uki.Base.{ascii, false}
use uki.Effects.{Env}
use uki.Cobra.{Node, leaf, group, done, add}
use uki.Push.Artifact.Cmd as ArtifactCmd
use uki.Push.Multi.Cmd as MultiCmd
use uki.Push.Plan.Cmd as PlanCmd
use uki.Push.Index.Cmd as IndexCmd
use uki.Push.Modpack.Cmd as ModpackCmd

module _ ⦃env : Env⦄ where
  -- `Cmd`: the parent of the five push commands, without flags.
  unfoldable pub cmd : Node
  cmd =
      group (ascii "push") "Upload boot artifacts to an OCI registry"
        "Push the artifacts referenced by a cloud-boot plan to an OCI registry.\n\nSubcommands:\n  artifact   single-arch kernel/initrd/modules/cmdline manifest\n  multi      one shot: per-arch manifests + multi-arch index\n  plan       HCL boot plan as a single-layer artifact\n  index      multi-arch image index that fans out to existing per-arch manifests\n  modpack    build a kernel-modules cpio.gz from a /lib/modules/<release> tree"
        false
        (add (leaf ArtifactCmd.cmd) (
          add (leaf MultiCmd.cmd)
            (add (leaf PlanCmd.cmd) (add (leaf IndexCmd.cmd) (add (leaf ModpackCmd.cmd) done)))))
