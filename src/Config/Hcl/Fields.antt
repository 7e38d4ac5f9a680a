-- ===== src/Config/Hcl/Fields.antt =====
-- config.hcl2spec.go: the fields of the flat structs. The three tags of a field are one name.
use packer_plugin_cloud_hype.Prelude.{List, [], ◌∷◌, ◌++◌, Str, codes}

-- The types of the fields: pointers to a text, a flag and a number, slices of texts and of bytes,
-- a map of texts, and the slices of the two nested structs.
pub data FlatType : Type 0 where
  text flag int texts bytes text_map disk_blocks network_blocks : FlatType

-- `FlatConfig` in three parts: the fields of the SDK's `PackerConfig`, those of its communicator,
-- and the plugin's own.
abbrev pub packer_fields : List (Str × FlatType)
packer_fields =
    (codes "packer_build_name", FlatType.text)
    ∷ (codes "packer_builder_type", FlatType.text)
    ∷ (codes "packer_core_version", FlatType.text)
    ∷ (codes "packer_debug", FlatType.flag)
    ∷ (codes "packer_force", FlatType.flag)
    ∷ (codes "packer_on_error", FlatType.text)
    ∷ (codes "packer_user_variables", FlatType.text_map)
    ∷ (codes "packer_sensitive_variables", FlatType.texts)
    ∷ []

abbrev pub comm_fields : List (Str × FlatType)
comm_fields =
    (codes "communicator", FlatType.text)
    ∷ (codes "pause_before_connecting", FlatType.text)
    ∷ (codes "ssh_host", FlatType.text)
    ∷ (codes "ssh_port", FlatType.int)
    ∷ (codes "ssh_username", FlatType.text)
    ∷ (codes "ssh_password", FlatType.text)
    ∷ (codes "ssh_keypair_name", FlatType.text)
    ∷ (codes "temporary_key_pair_name", FlatType.text)
    ∷ (codes "temporary_key_pair_type", FlatType.text)
    ∷ (codes "temporary_key_pair_bits", FlatType.int)
    ∷ (codes "ssh_ciphers", FlatType.texts)
    ∷ (codes "ssh_clear_authorized_keys", FlatType.flag)
    ∷ (codes "ssh_key_exchange_algorithms", FlatType.texts)
    ∷ (codes "ssh_private_key_file", FlatType.text)
    ∷ (codes "ssh_certificate_file", FlatType.text)
    ∷ (codes "ssh_pty", FlatType.flag)
    ∷ (codes "ssh_timeout", FlatType.text)
    ∷ (codes "ssh_wait_timeout", FlatType.text)
    ∷ (codes "ssh_agent_auth", FlatType.flag)
    ∷ (codes "ssh_disable_agent_forwarding", FlatType.flag)
    ∷ (codes "ssh_handshake_attempts", FlatType.int)
    ∷ (codes "ssh_bastion_host", FlatType.text)
    ∷ (codes "ssh_bastion_port", FlatType.int)
    ∷ (codes "ssh_bastion_agent_auth", FlatType.flag)
    ∷ (codes "ssh_bastion_username", FlatType.text)
    ∷ (codes "ssh_bastion_password", FlatType.text)
    ∷ (codes "ssh_bastion_interactive", FlatType.flag)
    ∷ (codes "ssh_bastion_private_key_file", FlatType.text)
    ∷ (codes "ssh_bastion_certificate_file", FlatType.text)
    ∷ (codes "ssh_file_transfer_method", FlatType.text)
    ∷ (codes "ssh_proxy_host", FlatType.text)
    ∷ (codes "ssh_proxy_port", FlatType.int)
    ∷ (codes "ssh_proxy_username", FlatType.text)
    ∷ (codes "ssh_proxy_password", FlatType.text)
    ∷ (codes "ssh_keep_alive_interval", FlatType.text)
    ∷ (codes "ssh_read_write_timeout", FlatType.text)
    ∷ (codes "ssh_remote_tunnels", FlatType.texts)
    ∷ (codes "ssh_local_tunnels", FlatType.texts)
    ∷ (codes "ssh_public_key", FlatType.bytes)
    ∷ (codes "ssh_private_key", FlatType.bytes)
    ∷ (codes "winrm_username", FlatType.text)
    ∷ (codes "winrm_password", FlatType.text)
    ∷ (codes "winrm_host", FlatType.text)
    ∷ (codes "winrm_no_proxy", FlatType.flag)
    ∷ (codes "winrm_port", FlatType.int)
    ∷ (codes "winrm_timeout", FlatType.text)
    ∷ (codes "winrm_use_ssl", FlatType.flag)
    ∷ (codes "winrm_insecure", FlatType.flag)
    ∷ (codes "winrm_use_ntlm", FlatType.flag)
    ∷ []

abbrev pub setting_fields : List (Str × FlatType)
setting_fields =
    (codes "ch_binary_path", FlatType.text)
    ∷ (codes "ch_socket_path", FlatType.text)
    ∷ (codes "vcpus", FlatType.int)
    ∷ (codes "memory", FlatType.int)
    ∷ (codes "cpu_boot", FlatType.int)
    ∷ (codes "kernel", FlatType.text)
    ∷ (codes "initramfs", FlatType.text)
    ∷ (codes "cmdline", FlatType.text)
    ∷ (codes "firmware", FlatType.text)
    ∷ (codes "disk_images", FlatType.disk_blocks)
    ∷ (codes "network_interfaces", FlatType.network_blocks)
    ∷ (codes "serial", FlatType.text)
    ∷ (codes "serial_file", FlatType.text)
    ∷ (codes "console", FlatType.text)
    ∷ (codes "console_file", FlatType.text)
    ∷ (codes "rng_source", FlatType.text)
    ∷ []

abbrev pub flat_config : List (Str × FlatType)
flat_config = packer_fields ++ (comm_fields ++ setting_fields)

-- `FlatDiskImage`
abbrev pub flat_disk_image : List (Str × FlatType)
flat_disk_image =
    (codes "path", FlatType.text)
    ∷ (codes "readonly", FlatType.flag)
    ∷ (codes "image_type", FlatType.text)
    ∷ (codes "id", FlatType.text)
    ∷ []

-- `FlatNetworkInterface`
abbrev pub flat_network_interface : List (Str × FlatType)
flat_network_interface =
    (codes "tap", FlatType.text)
    ∷ (codes "mac", FlatType.text)
    ∷ (codes "ip", FlatType.text)
    ∷ (codes "mask", FlatType.text)
    ∷ (codes "id", FlatType.text)
    ∷ []
