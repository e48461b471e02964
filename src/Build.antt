-- ===== src/Build.antt =====
-- cmd/cloud-boot/build: cmd.go and build.go
pub mod Cmd
pub mod Options
pub mod Opts
pub mod Cmdline
pub mod Stub
pub mod Init
pub mod Initramfs
pub mod Images
pub mod Pipeline
pub mod Balance
pub mod Faults
pub mod Local
pub mod Cleanup
pub mod Contents
pub mod Progress
pub mod Costs
pub mod Command
