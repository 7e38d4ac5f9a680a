-- ===== src/Chclient.antt =====
-- builder/cloud-hypervisor/chclient/client.go: the client of the Cloud-Hypervisor API.
pub mod VmConfig
pub mod Encode
pub mod Api
