-- ===== src/Tests/Settings.antt =====
-- The theorems on the configuration and on the virtual machine that it asks for.
use packer_plugin_cloud_hype.Prelude.{
  map, ◌≡◌, refl, All, ◌++◌, ◌≢◌, ◌↔◌, inl, none, some, true, List, [], ◌∷◌, ◌+◌, ◌*◌, ◌^◌, Str,
  codes, arith, str_eq,
}
use packer_plugin_cloud_hype.Prelude.Int.{pos, pos_part}
use packer_plugin_cloud_hype.Runtime.{file, Machine}
use packer_plugin_cloud_hype.Config.{Config, DiskImage, NetworkInterface}
use packer_plugin_cloud_hype.Config.Keys.{Any, text, known_keys, filter_map, filter_raws, lookup}
use packer_plugin_cloud_hype.Config.Keys.Laws.{own_keys, own_keys_kept}
use packer_plugin_cloud_hype.Config.Prepare.{
  all_readonly, Decoder, validate, prepare, disk_warnings, check_file, payload_problems,
  size_problems, check_disks, explicit_comm, network_problems, socket_for,
}
use packer_plugin_cloud_hype.Runtime.{os_stat}
use packer_plugin_cloud_hype.Config.Prepare.Valid.{IsValid, validate-eq-nil_iff}
use packer_plugin_cloud_hype.Config.Prepare.Accepted.{prepare-IsValid, prepare-eq-none_iff}
use packer_plugin_cloud_hype.Config.Prepare.Laws.{IsPresent}
use packer_plugin_cloud_hype.Builder.Prepare.{vm_paths, builder_prepare, builder_prepare-Sound}
use packer_plugin_cloud_hype.Builder.Modes.{normalize_image_type, normalize_console_mode}
use packer_plugin_cloud_hype.Builder.Modes.Laws.{image_types, console_modes}
use packer_plugin_cloud_hype.Builder.Modes.Names.{IsNormal, normalize_modes-IsNormal}
use packer_plugin_cloud_hype.Builder.Vm.{mib, build_vm_config}
use packer_plugin_cloud_hype.Builder.Vm.Laws.{
  CpusInRange, StartsWith, BootsFrom, build_vm_config-Sound, build_vm_config-wraps,
}
use packer_plugin_cloud_hype.Steps.Collect.{writable}
use packer_plugin_cloud_hype.Steps.Collect.Warning.{disk_warnings-writable}
use packer_plugin_cloud_hype.Go.Cidr.{decimal}
use packer_plugin_cloud_hype.Go.Strings.{trim_space}
use packer_plugin_cloud_hype.Ssh.{strip_cidr, comm_host}
use packer_plugin_cloud_hype.Ssh.Laws.{quad, comm_host-append, strip_cidr-quad}
use packer_plugin_cloud_hype.Chclient.Encode.{to_json}
use packer_plugin_cloud_hype.Chclient.Encode.Decode.{from_json, from_json-to_json}
use packer_plugin_cloud_hype.Tests.World.{world, config, machine, disk}

-- A host on which every path names a file.
abbrev full_host : Machine
full_host = record machine { files = λ p. some (file []) }

abbrev decoder : Decoder
decoder = record { decode = λ raws c. (none, config) }

prepared : (prepare decoder [] config full_host).0.error ≡ none
unfolding prepare str_eq validate check_file os_stat payload_problems size_problems check_disks
    explicit_comm network_problems socket_for
prepared = refl

prepare-IsValid_example :
    IsValid
      (filter_raws [] known_keys)
      (prepare decoder [] config full_host).1.files
      (prepare decoder [] config full_host).0.config
    × ((prepare decoder [] config full_host).0.warnings
        ≡ disk_warnings (prepare decoder [] config full_host).0.config.disk_images)
prepare-IsValid_example = prepare-IsValid decoder [] config full_host prepared

prepare-eq-none_iff_example :
    ((prepare decoder [] config full_host).0.error ≡ none)
    ↔ IsValid
        (filter_raws [] known_keys)
        full_host.files
        (prepare decoder [] config full_host).0.config
prepare-eq-none_iff_example =
    prepare-eq-none_iff decoder [] config full_host (λ call s. refl) refl refl refl

builder_prepared : (builder_prepare decoder [] config full_host).0.error ≡ none
unfolding builder_prepare prepare str_eq validate check_file os_stat payload_problems size_problems
    check_disks explicit_comm network_problems socket_for
builder_prepared = refl

builder_memory : (builder_prepare decoder [] config full_host).0.config.memory ≡ pos 512
unfolding builder_prepare prepare str_eq validate check_file os_stat payload_problems size_problems
    check_disks explicit_comm network_problems socket_for
builder_memory = refl

builder_prepare-Sound_example :
    let (p, u) = builder_prepare decoder [] config full_host in
    let v = build_vm_config p.config in
    CpusInRange v
    × (v.memory.size ≡ pos (pos_part p.config.memory * mib))
    × BootsFrom p.config.kernel p.config.firmware v.payload
    × (map (λ k. k.path) v.disks ≡ map (λ k. k.path) p.config.disk_images)
    × All (IsPresent u.files) (vm_paths v)
builder_prepare-Sound_example =
    builder_prepare-Sound decoder [] config full_host builder_prepared
      (rw builder_memory (omega arith))

validate-eq-nil_iff_example :
    ((validate [] config full_host).0 ≡ []) ↔ IsValid [] full_host.files config
validate-eq-nil_iff_example = validate-eq-nil_iff config [] full_host (λ call s. refl)

config-IsValid : IsValid [] full_host.files config
unfolding str_eq explicit_comm
config-IsValid = record {
  binary_present = tt;
  one_payload = inl (refl, refl);
  kernel_present = refl;
  initramfs_present = tt;
  firmware_present = tt;
  has_vcpus = omega arith;
  has_memory = omega arith;
  boot_range = tt;
  disks_present = (refl, tt);
  has_network = λ comm asked. elim asked [ ];
}

build_vm_config-Sound_example :
    CpusInRange (build_vm_config config)
    × StartsWith none (pos 2) (build_vm_config config).cpus.boot_vcpus
    × ((build_vm_config config).memory.size ≡ pos (512 * mib))
    × BootsFrom (codes "/vm/k") [] (build_vm_config config).payload
build_vm_config-Sound_example = build_vm_config-Sound config config-IsValid (omega arith)

abbrev vast : Config
vast = record config { memory = pos (2 ^ 44 + 128) }

build_vm_config-wraps_example : (build_vm_config vast).memory.size ≡ pos (128 * mib)
build_vm_config-wraps_example = build_vm_config-wraps vast 128 refl (omega arith)

normalize_modes-IsNormal_example :
    IsNormal image_types normalize_image_type (codes "fixedVHD")
    × IsNormal console_modes normalize_console_mode (codes "fixedVHD")
normalize_modes-IsNormal_example = normalize_modes-IsNormal (codes "fixedVHD") refl

abbrev template : List (Str × Any)
template = (codes "vcpus", text (codes "2")) ∷ (codes "other", text []) ∷ []

abbrev locked : DiskImage
locked = record disk { readonly = true }

disk_warnings-writable_example :
    (disk_warnings (locked ∷ []) ≡ all_readonly ∷ [])
    ↔ ((locked ∷ [] ≢ []) × (writable (locked ∷ []) ≡ []))
disk_warnings-writable_example = disk_warnings-writable (locked ∷ [])

own_keys_kept_example :
    All (λ k. lookup k (filter_map known_keys template) ≡ lookup k template) own_keys
own_keys_kept_example = own_keys_kept template

abbrev bare : NetworkInterface
bare = record { tap = codes "tap0"; mac = []; ip = []; mask = []; id = [] }

abbrev addressed : NetworkInterface
addressed = record bare { ip = codes " 192.168.4.20/24" }

comm_host-append_example :
    comm_host (bare ∷ addressed ∷ []) ≡ strip_cidr (trim_space (codes " 192.168.4.20/24"))
unfolding trim_space
comm_host-append_example = comm_host-append (bare ∷ []) addressed [] (refl, tt) refl

strip_cidr-quad_example : strip_cidr (quad 192 168 4 20 ++ b'/' ∷ decimal 24) ≡ quad 192 168 4 20
strip_cidr-quad_example =
    strip_cidr-quad 192 168 4 20 24 (omega arith) (omega arith) (omega arith) (omega arith)
      (omega arith)

from_json-to_json_example : from_json (to_json (build_vm_config config)) ≡ build_vm_config config
from_json-to_json_example = from_json-to_json (build_vm_config config)
