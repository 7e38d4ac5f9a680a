-- ===== src/Builder/Prepare.antt =====
-- builder.go `ConfigSpec` and `Prepare`, and what `Prepare` means for the build that follows it.
use packer_plugin_cloud_hype.Prelude.{
  ◌≡◌, refl, ◌++◌, not, is_empty, ap, sym, ◌∙◌, ◌<◌, ◌*◌, ◌^◌, Option, none, some, List, [], ◌∷◌,
  map, Str, arith, All,
}
use packer_plugin_cloud_hype.Prelude.Int.{pos, pos_part}
use packer_plugin_cloud_hype.Runtime.{Files, Platform, M, Machine, pure, ◌>>=◌}
use packer_plugin_cloud_hype.Chclient.VmConfig.{DiskConfig, PayloadConfig, VmConfig}
use packer_plugin_cloud_hype.Config.{Config, DiskImage}
use packer_plugin_cloud_hype.Config.Keys.{Raw, known_keys, filter_raws}
use packer_plugin_cloud_hype.Config.Hcl.Spec.{HclSpec, config_spec}
use packer_plugin_cloud_hype.Config.Prepare.{Warning, PrepareError, Decoder, Prepared, prepare}
use packer_plugin_cloud_hype.Config.Prepare.Laws.{PresentIf, IsPresent, PresentDisks}
use packer_plugin_cloud_hype.Config.Prepare.Accepted.{prepare-IsValid}
use packer_plugin_cloud_hype.Config.Prepare.Valid.{IsValid}
use packer_plugin_cloud_hype.Builder.Vm.{build_payload, mib, build_disk, build_vm_config}
use packer_plugin_cloud_hype.Builder.Vm.Laws.{CpusInRange, BootsFrom, build_vm_config-Sound}

-- The paths that a request for a virtual machine names.
abbrev disk_paths : List DiskConfig → List Str
disk_paths = map (λ d. d.path)

abbrev pub path_of : Option Str → List Str
path_of none = []
path_of (some p) = p ∷ []

abbrev payload_paths : Option PayloadConfig → List Str
payload_paths none = []
payload_paths (some p) = path_of p.kernel ++ (path_of p.initramfs ++ path_of p.firmware)

abbrev pub vm_paths : VmConfig → List Str
vm_paths v = payload_paths v.payload ++ disk_paths v.disks

module _ ⦃P : Platform⦄ where
  -- `Builder.ConfigSpec`: the specification does not depend on the configuration.
  abbrev pub builder_spec : Config → List (Str × HclSpec)
  builder_spec c = config_spec

  -- What `Builder.Prepare` returns, with the configuration that it leaves in the builder. A nil
  -- slice of generated variables is an empty one.
  pub record BuilderPrepared : Type 0 where
    pub generated_vars : List Str
    pub warnings : List Warning
    pub error : Option PrepareError
    pub config : Config

  abbrev returned : Prepared → Option PrepareError → M BuilderPrepared
  returned p (some e) =
      pure
        (record { generated_vars = []; warnings = p.warnings; error = some e; config = p.config })
  returned p none =
      pure (record { generated_vars = []; warnings = p.warnings; error = none; config = p.config })

  unfoldable pub builder_prepare : Decoder → List Raw → Config → M BuilderPrepared
  builder_prepare d args c = do p ← prepare d args c; returned p p.error

  IsPresent-append :
      (fs : Files) (ps qs : List Str)
      → All (IsPresent fs) ps
      → All (IsPresent fs) qs
      → All (IsPresent fs) (ps ++ qs)
  IsPresent-append fs [] qs h k = k
  IsPresent-append fs (p ∷ ps) qs h k = (h.0, IsPresent-append fs ps qs h.1 k)

  IsPresent-payload :
      (fs : Files) (kernel initramfs cmdline firmware : Str)
      → PresentIf (not (is_empty kernel)) fs kernel
      → PresentIf (not (is_empty initramfs)) fs initramfs
      → PresentIf (not (is_empty firmware)) fs firmware
      → All (IsPresent fs) (payload_paths (build_payload kernel initramfs cmdline firmware))
  unfolding build_payload
  IsPresent-payload fs (c ∷ kernel) [] cmdline firmware k i f = (k, tt)
  IsPresent-payload fs (c ∷ kernel) (d ∷ initramfs) cmdline firmware k i f = (k, (i, tt))
  IsPresent-payload fs [] initramfs cmdline (c ∷ firmware) k i f = (f, tt)
  IsPresent-payload fs [] initramfs cmdline [] k i f = tt

  paths-build_disk :
      (disks : List DiskImage) → disk_paths (map build_disk disks) ≡ map (λ d. d.path) disks
  unfolding build_disk
  paths-build_disk [] = refl
  paths-build_disk (d ∷ disks) = ap (λ ps. d.path ∷ ps) (paths-build_disk disks)

  IsPresent-paths :
      (fs : Files) (disks : List DiskImage)
      → PresentDisks fs disks
      → All (IsPresent fs) (disk_paths (map build_disk disks))
  unfolding build_disk
  IsPresent-paths fs [] h = tt
  IsPresent-paths fs (d ∷ disks) h = (h.0, IsPresent-paths fs disks h.1)

  builder_prepare-config :
      (d : Decoder) (args : List Raw) (c : Config) (w : Machine)
      → ((builder_prepare d args c w).0.config ≡ (prepare d args c w).0.config)
        × ((builder_prepare d args c w).0.error ≡ (prepare d args c w).0.error)
        × ((builder_prepare d args c w).1 ≡ (prepare d args c w).1)
  unfolding builder_prepare
  builder_prepare-config d args c w = ground arith

  vm_of_valid :
      {raws : List Raw} {fs : Files} (c : Config)
      → IsValid raws fs c
      → pos_part c.memory < 2 ^ 43
      → let v = build_vm_config c in
        CpusInRange v
        × (v.memory.size ≡ pos (pos_part c.memory * mib))
        × BootsFrom c.kernel c.firmware v.payload
        × (map (λ k. k.path) v.disks ≡ map (λ k. k.path) c.disk_images)
        × All (IsPresent fs) (vm_paths v)
  unfolding build_vm_config
  vm_of_valid {fs} c v small =
      let (cpus, starts, size, boots) = build_vm_config-Sound c v small in
      let payload =
        IsPresent-payload fs c.kernel c.initramfs c.cmdline c.firmware v.kernel_present
          v.initramfs_present v.firmware_present in
      (
        cpus,
        size,
        boots,
        paths-build_disk c.disk_images,
        IsPresent-append fs
            (payload_paths (build_payload c.kernel c.initramfs c.cmdline c.firmware))
            (disk_paths (map build_disk c.disk_images)) payload
            (IsPresent-paths fs c.disk_images v.disks_present),
      )

  -- Where the builder's `Prepare` returns no error, and less than 2^43 MiB of memory are configured,
  -- the virtual machine that its `Run` will ask for starts with one CPU at least and at most with
  -- the CPUs that it may have, has the configured memory in bytes, boots from the kernel or from the
  -- firmware and not from both, has the disks of the configuration in their order, and every path
  -- that it names, of the kernel, the initramfs, the firmware and the disks, exists and is no
  -- directory as the files are then.
  pub builder_prepare-Sound :
      (d : Decoder) (args : List Raw) (c : Config) (w : Machine)
      → (builder_prepare d args c w).0.error ≡ none
      → pos_part (builder_prepare d args c w).0.config.memory < 2 ^ 43
      → let (p, u) = builder_prepare d args c w in
        let v = build_vm_config p.config in
        CpusInRange v
        × (v.memory.size ≡ pos (pos_part p.config.memory * mib))
        × BootsFrom p.config.kernel p.config.firmware v.payload
        × (map (λ k. k.path) v.disks ≡ map (λ k. k.path) p.config.disk_images)
        × All (IsPresent u.files) (vm_paths v)
  builder_prepare-Sound d args c w clean small =
      let (config, error, machine) = builder_prepare-config d args c w in
      let valid : IsValid (filter_raws args known_keys) (builder_prepare d args c w).1.files
          (builder_prepare d args c w).0.config =
        rw (config, machine) (prepare-IsValid d args c w (sym error ∙ clean)).0 in
      vm_of_valid (builder_prepare d args c w).0.config valid small
