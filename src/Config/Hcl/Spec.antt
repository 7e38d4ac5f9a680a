-- ===== src/Config/Hcl/Spec.antt =====
-- config.hcl2spec.go: the specifications that the three `HCL2Spec` return, each Go map as the list of
-- its entries.
use packer_plugin_cloud_hype.Prelude.{Bool, false, List, [], ◌∷◌, Str, codes}

-- The types of `cty` that occur.
pub data Cty : Type 0 where
  text flag number : Cty
  list map : Cty → Cty

-- `hcldec.AttrSpec`
pub record Attr : Type 0 where
  pub name : Str
  pub type_of : Cty
  pub required : Bool

-- An attribute, or a `hcldec.BlockListSpec` of blocks of attributes.
pub data HclSpec : Type 0 where
  attr : Attr → HclSpec
  block_list : Str → List (Str × Attr) → HclSpec

abbrev pub optional : Str → Cty → Attr
optional name t = record { name = name; type_of = t; required = false }

-- `FlatDiskImage.HCL2Spec`
unfoldable pub disk_spec : List (Str × Attr)
disk_spec =
    (codes "path", optional (codes "path") Cty.text)
    ∷ (codes "readonly", optional (codes "readonly") Cty.flag)
    ∷ (codes "image_type", optional (codes "image_type") Cty.text)
    ∷ (codes "id", optional (codes "id") Cty.text)
    ∷ []

-- `FlatNetworkInterface.HCL2Spec`
unfoldable pub network_spec : List (Str × Attr)
network_spec =
    (codes "tap", optional (codes "tap") Cty.text)
    ∷ (codes "mac", optional (codes "mac") Cty.text)
    ∷ (codes "ip", optional (codes "ip") Cty.text)
    ∷ (codes "mask", optional (codes "mask") Cty.text)
    ∷ (codes "id", optional (codes "id") Cty.text)
    ∷ []

-- `FlatConfig.HCL2Spec`
unfoldable pub config_spec : List (Str × HclSpec)
unfolding disk_spec network_spec
config_spec =
    (codes "packer_build_name", attr (optional (codes "packer_build_name") Cty.text))
    ∷ (codes "packer_builder_type", attr (optional (codes "packer_builder_type") Cty.text))
    ∷ (codes "packer_core_version", attr (optional (codes "packer_core_version") Cty.text))
    ∷ (codes "packer_debug", attr (optional (codes "packer_debug") Cty.flag))
    ∷ (codes "packer_force", attr (optional (codes "packer_force") Cty.flag))
    ∷ (codes "packer_on_error", attr (optional (codes "packer_on_error") Cty.text))
    ∷ (
      codes "packer_user_variables",
      attr (optional (codes "packer_user_variables") (Cty.map Cty.text)),
    )
    ∷ (
      codes "packer_sensitive_variables",
      attr (optional (codes "packer_sensitive_variables") (Cty.list Cty.text)),
    )
    ∷ (codes "communicator", attr (optional (codes "communicator") Cty.text))
    ∷ (codes "pause_before_connecting", attr (optional (codes "pause_before_connecting") Cty.text))
    ∷ (codes "ssh_host", attr (optional (codes "ssh_host") Cty.text))
    ∷ (codes "ssh_port", attr (optional (codes "ssh_port") Cty.number))
    ∷ (codes "ssh_username", attr (optional (codes "ssh_username") Cty.text))
    ∷ (codes "ssh_password", attr (optional (codes "ssh_password") Cty.text))
    ∷ (codes "ssh_keypair_name", attr (optional (codes "ssh_keypair_name") Cty.text))
    ∷ (codes "temporary_key_pair_name", attr (optional (codes "temporary_key_pair_name") Cty.text))
    ∷ (codes "temporary_key_pair_type", attr (optional (codes "temporary_key_pair_type") Cty.text))
    ∷ (
      codes "temporary_key_pair_bits",
      attr (optional (codes "temporary_key_pair_bits") Cty.number),
    )
    ∷ (codes "ssh_ciphers", attr (optional (codes "ssh_ciphers") (Cty.list Cty.text)))
    ∷ (
      codes "ssh_clear_authorized_keys",
      attr (optional (codes "ssh_clear_authorized_keys") Cty.flag),
    )
    ∷ (
      codes "ssh_key_exchange_algorithms",
      attr (optional (codes "ssh_key_exchange_algorithms") (Cty.list Cty.text)),
    )
    ∷ (codes "ssh_private_key_file", attr (optional (codes "ssh_private_key_file") Cty.text))
    ∷ (codes "ssh_certificate_file", attr (optional (codes "ssh_certificate_file") Cty.text))
    ∷ (codes "ssh_pty", attr (optional (codes "ssh_pty") Cty.flag))
    ∷ (codes "ssh_timeout", attr (optional (codes "ssh_timeout") Cty.text))
    ∷ (codes "ssh_wait_timeout", attr (optional (codes "ssh_wait_timeout") Cty.text))
    ∷ (codes "ssh_agent_auth", attr (optional (codes "ssh_agent_auth") Cty.flag))
    ∷ (
      codes "ssh_disable_agent_forwarding",
      attr (optional (codes "ssh_disable_agent_forwarding") Cty.flag),
    )
    ∷ (codes "ssh_handshake_attempts", attr (optional (codes "ssh_handshake_attempts") Cty.number))
    ∷ (codes "ssh_bastion_host", attr (optional (codes "ssh_bastion_host") Cty.text))
    ∷ (codes "ssh_bastion_port", attr (optional (codes "ssh_bastion_port") Cty.number))
    ∷ (codes "ssh_bastion_agent_auth", attr (optional (codes "ssh_bastion_agent_auth") Cty.flag))
    ∷ (codes "ssh_bastion_username", attr (optional (codes "ssh_bastion_username") Cty.text))
    ∷ (codes "ssh_bastion_password", attr (optional (codes "ssh_bastion_password") Cty.text))
    ∷ (codes "ssh_bastion_interactive", attr (optional (codes "ssh_bastion_interactive") Cty.flag))
    ∷ (
      codes "ssh_bastion_private_key_file",
      attr (optional (codes "ssh_bastion_private_key_file") Cty.text),
    )
    ∷ (
      codes "ssh_bastion_certificate_file",
      attr (optional (codes "ssh_bastion_certificate_file") Cty.text),
    )
    ∷ (
      codes "ssh_file_transfer_method",
      attr (optional (codes "ssh_file_transfer_method") Cty.text),
    )
    ∷ (codes "ssh_proxy_host", attr (optional (codes "ssh_proxy_host") Cty.text))
    ∷ (codes "ssh_proxy_port", attr (optional (codes "ssh_proxy_port") Cty.number))
    ∷ (codes "ssh_proxy_username", attr (optional (codes "ssh_proxy_username") Cty.text))
    ∷ (codes "ssh_proxy_password", attr (optional (codes "ssh_proxy_password") Cty.text))
    ∷ (codes "ssh_keep_alive_interval", attr (optional (codes "ssh_keep_alive_interval") Cty.text))
    ∷ (codes "ssh_read_write_timeout", attr (optional (codes "ssh_read_write_timeout") Cty.text))
    ∷ (codes "ssh_remote_tunnels", attr (optional (codes "ssh_remote_tunnels") (Cty.list Cty.text)))
    ∷ (codes "ssh_local_tunnels", attr (optional (codes "ssh_local_tunnels") (Cty.list Cty.text)))
    ∷ (codes "ssh_public_key", attr (optional (codes "ssh_public_key") (Cty.list Cty.number)))
    ∷ (codes "ssh_private_key", attr (optional (codes "ssh_private_key") (Cty.list Cty.number)))
    ∷ (codes "winrm_username", attr (optional (codes "winrm_username") Cty.text))
    ∷ (codes "winrm_password", attr (optional (codes "winrm_password") Cty.text))
    ∷ (codes "winrm_host", attr (optional (codes "winrm_host") Cty.text))
    ∷ (codes "winrm_no_proxy", attr (optional (codes "winrm_no_proxy") Cty.flag))
    ∷ (codes "winrm_port", attr (optional (codes "winrm_port") Cty.number))
    ∷ (codes "winrm_timeout", attr (optional (codes "winrm_timeout") Cty.text))
    ∷ (codes "winrm_use_ssl", attr (optional (codes "winrm_use_ssl") Cty.flag))
    ∷ (codes "winrm_insecure", attr (optional (codes "winrm_insecure") Cty.flag))
    ∷ (codes "winrm_use_ntlm", attr (optional (codes "winrm_use_ntlm") Cty.flag))
    ∷ (codes "ch_binary_path", attr (optional (codes "ch_binary_path") Cty.text))
    ∷ (codes "ch_socket_path", attr (optional (codes "ch_socket_path") Cty.text))
    ∷ (codes "vcpus", attr (optional (codes "vcpus") Cty.number))
    ∷ (codes "memory", attr (optional (codes "memory") Cty.number))
    ∷ (codes "cpu_boot", attr (optional (codes "cpu_boot") Cty.number))
    ∷ (codes "kernel", attr (optional (codes "kernel") Cty.text))
    ∷ (codes "initramfs", attr (optional (codes "initramfs") Cty.text))
    ∷ (codes "cmdline", attr (optional (codes "cmdline") Cty.text))
    ∷ (codes "firmware", attr (optional (codes "firmware") Cty.text))
    ∷ (codes "disk_images", block_list (codes "disk_images") disk_spec)
    ∷ (codes "network_interfaces", block_list (codes "network_interfaces") network_spec)
    ∷ (codes "serial", attr (optional (codes "serial") Cty.text))
    ∷ (codes "serial_file", attr (optional (codes "serial_file") Cty.text))
    ∷ (codes "console", attr (optional (codes "console") Cty.text))
    ∷ (codes "console_file", attr (optional (codes "console_file") Cty.text))
    ∷ (codes "rng_source", attr (optional (codes "rng_source") Cty.text))
    ∷ []
