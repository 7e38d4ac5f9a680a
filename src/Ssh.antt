-- ===== src/Ssh.antt =====
-- builder/cloud-hypervisor/ssh.go: the host that the communicator connects to.
pub mod Laws
use packer_plugin_cloud_hype.Prelude.{true, false, none, some, List, [], ◌∷◌, Str, is_empty}
use packer_plugin_cloud_hype.Go.Strings.{trim_space}
use packer_plugin_cloud_hype.Go.Cidr.{parse_cidr}
use packer_plugin_cloud_hype.Runtime.{Platform}
use packer_plugin_cloud_hype.Config.{NetworkInterface}

module _ ⦃P : Platform⦄ where
  -- `stripCIDR`
  unfoldable pub strip_cidr : Str → Str
  strip_cidr ip = elim (parse_cidr P.parse_v6 ip) [ some host ↦ host | none ↦ ip ]

  -- The function that `CommHost` returns, on the interfaces of its configuration; it never fails.
  unfoldable pub comm_host : List NetworkInterface → Str
  comm_host [] = []
  comm_host (iface ∷ rest) =
      let raw = trim_space iface.ip in
      elim (is_empty raw) [ false ↦ strip_cidr raw | true ↦ comm_host rest ]
