-- ===== src/Chclient/VmConfig.antt =====
-- The configuration structs that chclient/client.go sends to Cloud-Hypervisor.
use packer_plugin_cloud_hype.Prelude.{Bool, Option, List, Str}
use packer_plugin_cloud_hype.Prelude.Int.{ℤ}

pub record CpusConfig : Type 0 where
  pub boot_vcpus : ℤ
  pub max_vcpus : ℤ

pub record MemoryConfig : Type 0 where
  pub size : ℤ

pub record PayloadConfig : Type 0 where
  pub kernel : Option Str
  pub initramfs : Option Str
  pub cmdline : Option Str
  pub firmware : Option Str

pub record DiskConfig : Type 0 where
  pub path : Str
  pub readonly : Bool
  pub image_type : Str
  pub id : Str

pub record NetConfig : Type 0 where
  pub tap : Str
  pub mac : Str
  pub ip : Str
  pub mask : Str
  pub id : Str

pub record SerialConfig : Type 0 where
  pub mode : Str

pub record ConsoleConfig : Type 0 where
  pub mode : Str

pub record RngConfig : Type 0 where
  pub src : Str

pub record VmConfig : Type 0 where
  pub cpus : CpusConfig
  pub memory : MemoryConfig
  pub payload : Option PayloadConfig
  pub disks : List DiskConfig
  pub net : List NetConfig
  pub serial : SerialConfig
  pub console : ConsoleConfig
  pub rng : RngConfig
