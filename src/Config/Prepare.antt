-- ===== src/Config/Prepare.antt =====
-- builder/cloud-hypervisor/config.go: `Config.Prepare`, with its checks in the order of the source.
pub mod Laws
pub mod Network
pub mod Valid
pub mod Accepted
use packer_plugin_cloud_hype.Prelude.{
  Bool, true, false, not, ◌&&◌, ◌||◌, Option, none, some, List, [], ◌∷◌, ◌++◌, Str, codes, str_eq,
  is_empty, if◌then◌else◌,
}
use packer_plugin_cloud_hype.Prelude.Int.{ℤ, pos, ltb_ℤ}
use packer_plugin_cloud_hype.Runtime.{
  Error, Result, ok, err, Platform, M, pure, ◌>>=◌, ◌>>◌, ask, os_stat, os_create_temp, os_remove,
}
use packer_plugin_cloud_hype.Config.Types.{DiskImage, NetworkInterface, Config}
use packer_plugin_cloud_hype.Config.Keys.{
  known_keys, Any, text, opaque, Raw, mapping, other, filter_raws, lookup,
}

abbrev pub min_memory_mib : ℤ
min_memory_mib = pos 128

abbrev pub default_ch_binary_path : Str
default_ch_binary_path = codes "cloud-hypervisor"

abbrev pub default_serial_mode : Str
default_serial_mode = codes "Null"

abbrev pub comm_none : Str
comm_none = codes "none"

-- What the checks report, one constructor for each message.
pub data Problem : Type 0 where
  binary kernel initramfs firmware : Error → Problem
  binary_is_dir kernel_is_dir initramfs_is_dir firmware_is_dir : Problem
  no_payload both_payloads : Problem
  few_vcpus low_memory low_cpu_boot : ℤ → Problem
  cpu_boot_above : ℤ → ℤ → Problem
  disk : Str → Error → Problem
  disk_is_dir : Str → Problem
  no_network : Str → Problem

pub data Warning : Type 0 where
  all_readonly : Warning

pub data PrepareError : Type 0 where
  decoding : Error → PrepareError
  communicator : List Error → PrepareError
  socket_path : Error → PrepareError
  invalid : List Problem → PrepareError

abbrev pub when : Bool → Problem → List Problem
when true p = p ∷ []
when false p = []

-- The verdict on `os.Stat` of a path that must exist and be no directory.
abbrev pub file_problems : (Error → Problem) → Problem → Result Bool → List Problem
file_problems missing is_dir (err e) = missing e ∷ []
file_problems missing is_dir (ok true) = is_dir ∷ []
file_problems missing is_dir (ok false) = []

unfoldable pub payload_problems : Str → Str → List Problem
payload_problems k f =
    when (is_empty k && is_empty f) no_payload
    ++ when (not (is_empty k) && not (is_empty f)) both_payloads

unfoldable pub cpu_boot_problems : Option ℤ → ℤ → List Problem
cpu_boot_problems none vcpus = []
cpu_boot_problems (some n) vcpus =
    when (ltb_ℤ n (pos 1)) (low_cpu_boot n) ++ when (ltb_ℤ vcpus n) (cpu_boot_above n vcpus)

-- vcpus, memory and cpu_boot.
unfoldable pub size_problems : ℤ → ℤ → Option ℤ → List Problem
unfolding cpu_boot_problems
size_problems vcpus memory cpu_boot =
    when (ltb_ℤ vcpus (pos 1)) (few_vcpus vcpus)
    ++ (when (ltb_ℤ memory min_memory_mib) (low_memory memory) ++ cpu_boot_problems cpu_boot vcpus)

abbrev pub all_readonly_disks : List DiskImage → Bool
all_readonly_disks [] = true
all_readonly_disks (d ∷ disks) = d.readonly && all_readonly_disks disks

unfoldable pub disk_warnings : List DiskImage → List Warning
disk_warnings disks =
    if not (is_empty disks) && all_readonly_disks disks then all_readonly ∷ [] else []

-- The first map that has the key decides, also where its value is no text.
abbrev pub text_or_empty : Any → Str
text_or_empty (text s) = s
text_or_empty (opaque n) = []

unfoldable pub explicit_comm : List Raw → Str
unfolding lookup
explicit_comm [] = []
explicit_comm (other n ∷ raws) = explicit_comm raws
explicit_comm (mapping m ∷ raws) = elim (lookup (codes "communicator") m) [
  | some v ↦ text_or_empty v
  | none ↦ explicit_comm raws
]

unfoldable pub network_problems : Str → List NetworkInterface → List Problem
network_problems comm ifaces =
    when (not (is_empty comm) && not (str_eq comm comm_none) && is_empty ifaces) (no_network comm)

abbrev pub verdict : List Problem → Option PrepareError
verdict [] = none
verdict (p ∷ ps) = some (invalid (p ∷ ps))

module _ ⦃P : Platform⦄ where
  -- `config.Decode` of the SDK, over the values that stand in the configuration already.
  pub record Decoder : Type 0 where
    pub decode : List Raw → Config → Option Error × Config

  pub record Prepared : Type 0 where
    pub warnings : List Warning
    pub error : Option PrepareError
    pub config : Config

  abbrev pub skip_unless : Bool → M (List Problem) → M (List Problem)
  skip_unless true check = check
  skip_unless false check = pure []

  unfoldable pub check_file : Str → (Error → Problem) → Problem → M (List Problem)
  check_file p missing is_dir = do r ← os_stat p; pure (file_problems missing is_dir r)

  unfoldable pub check_disks : List DiskImage → M (List Problem)
  unfolding check_file
  check_disks [] = pure []
  check_disks (d ∷ disks) = do
    here ← check_file d.path (disk d.path) (disk_is_dir d.path)
    rest ← check_disks disks
    pure (here ++ rest)

  abbrev pub set_defaults : Config → Config
  set_defaults c = record c {
    ch_binary_path = default_ch_binary_path;
    serial = default_serial_mode;
    console = default_serial_mode;
  }

  abbrev cleared : Result Str → M (Result Str)
  cleared (err e) = pure (err e)
  cleared (ok name) = do os_remove name; pure (ok name)

  -- `os.CreateTemp`, whose file is removed again: only its name is wanted.
  unfoldable pub default_socket : M (Result Str)
  default_socket = do created ← os_create_temp; cleared created

  unfoldable pub socket_for : Str → M (Result Str)
  unfolding default_socket
  socket_for [] = default_socket
  socket_for (b ∷ path) = pure (ok (b ∷ path))

  -- The checks behind the two that return at once.
  unfoldable pub validate : List Raw → Config → M (List Problem)
  unfolding check_file payload_problems size_problems check_disks explicit_comm network_problems
  validate raws c = do
    bin ←
        skip_unless (not (str_eq c.ch_binary_path default_ch_binary_path))
          (check_file c.ch_binary_path binary binary_is_dir)
    ker ← skip_unless (not (is_empty c.kernel)) (check_file c.kernel kernel kernel_is_dir)
    ini ←
        skip_unless (not (is_empty c.initramfs)) (check_file c.initramfs initramfs initramfs_is_dir)
    fir ← skip_unless (not (is_empty c.firmware)) (check_file c.firmware firmware firmware_is_dir)
    dis ← check_disks c.disk_images
    pure (
        bin
        ++ (payload_problems c.kernel c.firmware
            ++ (ker
                ++ (ini
                    ++ (fir
                        ++ (size_problems c.vcpus c.memory c.cpu_boot
                            ++ (dis
                                ++ network_problems (explicit_comm raws) c.network_interfaces)))))))

  abbrev failed : PrepareError → Config → M Prepared
  failed e c = pure (record { warnings = []; error = some e; config = c })

  abbrev checked : List Raw → Config → M Prepared
  checked raws c = do
    problems ← validate raws c
    pure (record { warnings = disk_warnings c.disk_images; error = verdict problems; config = c })

  abbrev with_socket : List Raw → Config → Result Str → M Prepared
  with_socket raws c (err e) = failed (socket_path e) c
  with_socket raws c (ok path) = checked raws (record c { ch_socket_path = path })

  abbrev with_comm : List Raw → Config → List Error → M Prepared
  with_comm raws c (e ∷ es) = failed (communicator (e ∷ es)) c
  with_comm raws c [] = do r ← socket_for c.ch_socket_path; with_socket raws c r

  abbrev decoded : List Raw → Option Error → Config → M Prepared
  decoded raws (some e) c = failed (decoding e) c
  decoded raws none c = do
    prepared ← ask (P.comm_prepare c.comm)
    with_comm raws (record c { comm = prepared.1 }) prepared.0

  unfoldable pub prepare : Decoder → List Raw → Config → M Prepared
  unfolding known_keys filter_raws validate disk_warnings socket_for
  prepare d args c =
      let raws = filter_raws args known_keys in
      let out = d.decode raws (set_defaults c) in decoded raws out.0 out.1
