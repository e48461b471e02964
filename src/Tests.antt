-- ===== src/Tests.antt =====
-- Runs of the model at concrete inputs, and the theorems applied to them.
mod World
mod Push
mod Builds
mod Flags
mod Multi
mod Commands
