-- ===== src/Config.antt =====
-- builder/cloud-hypervisor/config.go: the structs that a template is decoded into, the keys that
-- they know, and the checks of `Prepare`. The children use `Types`, whose names are passed on.
mod Types
pub mod Keys
pub mod Prepare
pub mod Hcl
pub use Types.*
