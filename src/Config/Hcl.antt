-- ===== src/Config/Hcl.antt =====
-- builder/cloud-hypervisor/config.hcl2spec.go: the flat structs that an HCL template is read into,
-- and the specifications that HCL reads it by.
pub mod Fields
pub mod Spec
pub mod Laws
