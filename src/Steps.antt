-- ===== src/Steps.antt =====
-- The steps of a build: builder/cloud-hypervisor/step_*.go.
pub mod Common
pub mod Launch
pub mod CreateVm
pub mod BootVm
pub mod ShutdownVm
pub mod Collect
pub mod Keeps
pub mod Sent
pub mod Failures
pub mod Healthy
