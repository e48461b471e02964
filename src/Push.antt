-- ===== src/Push.antt =====
-- cmd/cloud-boot/push: the subcommands that upload to a registry.
pub mod Tags
pub mod Checks
pub mod Spares
pub mod Options
pub mod Cmd
pub mod Registry
pub mod Closed
pub mod Artifact
pub mod Index
pub mod Plan
pub mod Modpack
pub mod Multi
