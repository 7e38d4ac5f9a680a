-- ===== src/Builder.antt =====
-- builder/cloud-hypervisor/builder.go: the configuration that is sent, and the build as a whole.
pub mod Modes
pub mod Vm
pub mod Runner
pub mod Protocol
pub mod Run
pub mod Prepare
