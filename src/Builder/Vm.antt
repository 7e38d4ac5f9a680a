-- ===== src/Builder/Vm.antt =====
-- builder/cloud-hypervisor/builder.go `buildVMConfig`
pub mod Laws
use packer_plugin_cloud_hype.Prelude.{
  ℕ, ◌*◌, Option, none, some, List, Str, [], ◌∷◌, map, codes, is_empty, if◌then◌else◌,
}
use packer_plugin_cloud_hype.Prelude.Int.{ℤ, pos, ltb_ℤ, mul64}
use packer_plugin_cloud_hype.Runtime.{Platform}
use packer_plugin_cloud_hype.Chclient.VmConfig.{PayloadConfig, DiskConfig, NetConfig, VmConfig}
use packer_plugin_cloud_hype.Config.{DiskImage, NetworkInterface, Config}
use packer_plugin_cloud_hype.Config.Prepare.{default_serial_mode}
use packer_plugin_cloud_hype.Builder.Modes.{normalize_image_type, normalize_console_mode}

abbrev pub mib : ℕ
mib = 1024 * 1024

abbrev pub urandom : Str
urandom = codes "/dev/urandom"

unfoldable pub boot_vcpus : Option ℤ → ℤ → ℤ
boot_vcpus none vcpus = vcpus
boot_vcpus (some n) vcpus = if ltb_ℤ (pos 0) n then n else vcpus

-- A pointer to a text that is not empty.
abbrev pub unless_empty : Str → Option Str
unless_empty [] = none
unless_empty (c ∷ s) = some (c ∷ s)

unfoldable pub build_payload : Str → Str → Str → Str → Option PayloadConfig
build_payload (c ∷ kernel) initramfs cmdline firmware = some (record {
  kernel = some (c ∷ kernel);
  initramfs = unless_empty initramfs;
  cmdline = unless_empty cmdline;
  firmware = none;
})
build_payload [] initramfs cmdline (c ∷ firmware) =
    some
      (record { kernel = none; initramfs = none; cmdline = none; firmware = some (c ∷ firmware) })
build_payload [] initramfs cmdline [] = none

abbrev or_default : Str → Str → Str
or_default d [] = d
or_default d (c ∷ s) = c ∷ s

unfoldable pub build_net : NetworkInterface → NetConfig
build_net i = record { tap = i.tap; mac = i.mac; ip = i.ip; mask = i.mask; id = i.id }

module _ ⦃P : Platform⦄ where
  unfoldable pub build_disk : DiskImage → DiskConfig
  build_disk d = record {
    path = d.path;
    readonly = d.readonly;
    image_type = normalize_image_type d.image_type;
    id = d.id;
  }

  -- The mode of a console, which stands unless the setting is empty.
  unfoldable pub build_mode : Str → Str
  build_mode m = if is_empty m then default_serial_mode else normalize_console_mode m

  unfoldable pub build_vm_config : Config → VmConfig
  unfolding boot_vcpus build_payload build_disk build_net build_mode
  build_vm_config c = record {
    cpus = record { boot_vcpus = boot_vcpus c.cpu_boot c.vcpus; max_vcpus = c.vcpus };
    memory = record { size = mul64 c.memory mib };
    payload = build_payload c.kernel c.initramfs c.cmdline c.firmware;
    disks = map build_disk c.disk_images;
    net = map build_net c.network_interfaces;
    serial = record { mode = build_mode c.serial };
    console = record { mode = build_mode c.console };
    rng = record { src = or_default urandom c.rng_source };
  }
