-- ===== src/Config/Types.antt =====
-- The structs of builder/cloud-hypervisor/config.go, with the SDK's embedded configurations.
use packer_plugin_cloud_hype.Prelude.{Bool, Option, List, Str}
use packer_plugin_cloud_hype.Prelude.Int.{ℤ}
use packer_plugin_cloud_hype.Runtime.{Platform}

pub record DiskImage : Type 0 where
  pub path : Str
  pub readonly : Bool
  pub image_type : Str
  pub id : Str

pub record NetworkInterface : Type 0 where
  pub tap : Str
  pub mac : Str
  pub ip : Str
  pub mask : Str
  pub id : Str

pub record Config ⦃P : Platform⦄ : Type 0 where
  pub packer : P.PackerConfig
  pub comm : P.CommConfig
  pub ch_binary_path : Str
  pub ch_socket_path : Str
  pub vcpus : ℤ
  pub memory : ℤ
  pub cpu_boot : Option ℤ
  pub kernel : Str
  pub initramfs : Str
  pub cmdline : Str
  pub firmware : Str
  pub disk_images : List DiskImage
  pub network_interfaces : List NetworkInterface
  pub serial : Str
  pub serial_file : Str
  pub console : Str
  pub console_file : Str
  pub rng_source : Str
