-- ===== src/Builder/Vm/Laws.antt =====
-- builder.go `buildVMConfig`: what is asked of the virtual machine monitor.
use packer_plugin_cloud_hype.Prelude.{
  ℕ, ◌≡◌, refl, ◌⊎◌, inl, inr, ◌<◌, ◌+◌, ◌*◌, ◌^◌, Option, none, some, List, [], ◌∷◌, Str, arith,
}
use packer_plugin_cloud_hype.Prelude.Int.{
  ℤ, pos, negsuc, ◌≤ℤ◌, pos_part, bits64, signed64, mul64, mul64-of_small,
}
use packer_plugin_cloud_hype.Runtime.{Files, Platform}
use packer_plugin_cloud_hype.Chclient.VmConfig.{PayloadConfig, VmConfig}
use packer_plugin_cloud_hype.Config.{Config}
use packer_plugin_cloud_hype.Config.Keys.{Raw}
use packer_plugin_cloud_hype.Config.Prepare.Laws.{BootRange, OnePayload}
use packer_plugin_cloud_hype.Config.Prepare.Valid.{IsValid}
use packer_plugin_cloud_hype.Builder.Vm.{mib, boot_vcpus, build_payload, build_vm_config}

-- A machine that starts with one CPU at least and never exceeds its CPUs.
abbrev pub CpusInRange : VmConfig → Type 0
CpusInRange v = (pos 1 ≤ℤ v.cpus.boot_vcpus) × (v.cpus.boot_vcpus ≤ℤ v.cpus.max_vcpus)

-- The CPUs that it starts with are the ones of the boot count, or all where none is set.
abbrev pub StartsWith : Option ℤ → ℤ → ℤ → Type 0
StartsWith none vcpus n = n ≡ vcpus
StartsWith (some count) vcpus n = n ≡ count

boot_vcpus-StartsWith : (n : Option ℤ) (m : ℤ) → BootRange n m → StartsWith n m (boot_vcpus n m)
unfolding boot_vcpus
boot_vcpus-StartsWith none m r = refl
boot_vcpus-StartsWith (some n) m r = ground arith

boot_vcpus-range :
    (n : Option ℤ) (m : ℤ)
    → pos 1 ≤ℤ m
    → BootRange n m
    → (pos 1 ≤ℤ boot_vcpus n m) × (boot_vcpus n m ≤ℤ m)
unfolding boot_vcpus
boot_vcpus-range none m h r = (h, omega arith)
boot_vcpus-range (some n) m h r = ground arith

-- A payload with one source to boot from: the kernel, or the firmware.
abbrev pub BootsFrom : Str → Str → Option PayloadConfig → Type 0
BootsFrom kernel firmware none = ⊥
BootsFrom kernel firmware (some p) =
    ((p.kernel ≡ some kernel) × (p.firmware ≡ none))
    ⊎ ((p.kernel ≡ none) × (p.initramfs ≡ none) × (p.cmdline ≡ none) × (p.firmware ≡ some firmware))

build_payload-BootsFrom :
    (kernel initramfs cmdline firmware : Str)
    → OnePayload kernel firmware
    → BootsFrom kernel firmware (build_payload kernel initramfs cmdline firmware)
unfolding build_payload
build_payload-BootsFrom (c ∷ kernel) initramfs cmdline firmware h = inl (refl, refl)
build_payload-BootsFrom [] initramfs cmdline (c ∷ firmware) h = inr (refl, refl, refl, refl)
build_payload-BootsFrom [] initramfs cmdline [] h = absurd (ground arith)

size-of_small : (m : ℤ) → pos 128 ≤ℤ m → pos_part m < 2 ^ 43 → mul64 m mib ≡ pos (pos_part m * mib)
size-of_small (pos n) h b = mul64-of_small n mib (omega arith) (omega arith)
size-of_small (negsuc n) h b = absurd (omega arith)

module _ ⦃P : Platform⦄ where
  -- On a well-formed configuration of less than 2^43 MiB, the virtual machine that is asked for
  -- starts with one CPU at least and at most with the CPUs that it may have: with the boot count,
  -- or with all where none is set; its memory in bytes is the setting's number of MiB; and it boots
  -- from the kernel or from the firmware, and not from both.
  pub build_vm_config-Sound :
      {raws : List Raw} {fs : Files} (c : Config)
      → IsValid raws fs c
      → pos_part c.memory < 2 ^ 43
      → CpusInRange (build_vm_config c)
        × StartsWith c.cpu_boot c.vcpus (build_vm_config c).cpus.boot_vcpus
        × ((build_vm_config c).memory.size ≡ pos (pos_part c.memory * mib))
        × BootsFrom c.kernel c.firmware (build_vm_config c).payload
  unfolding build_vm_config
  build_vm_config-Sound c v small = (
    boot_vcpus-range c.cpu_boot c.vcpus v.has_vcpus v.boot_range,
    boot_vcpus-StartsWith c.cpu_boot c.vcpus v.boot_range,
    size-of_small c.memory v.has_memory small,
    build_payload-BootsFrom c.kernel c.initramfs c.cmdline c.firmware v.one_payload,
  )

  -- Where 2^44 + n MiB of memory are configured, with n under 2^43, the product has wrapped and n
  -- MiB are asked for.
  pub build_vm_config-wraps :
      (c : Config) (n : ℕ)
      → c.memory ≡ pos (2 ^ 44 + n)
      → n < 2 ^ 43
      → (build_vm_config c).memory.size ≡ pos (n * mib)
  unfolding build_vm_config mul64 bits64 signed64
  build_vm_config-wraps c n e small = rw e (grind arith)

  -- The files that are given for the serial line and for the console change nothing in what is
  -- asked of the virtual machine monitor.
  build_vm_config-eq_of_files :
      (c : Config) (serial console : Str)
      → build_vm_config (record c { serial_file = serial; console_file = console })
        ≡ build_vm_config c
  unfolding build_vm_config
  build_vm_config-eq_of_files c serial console = refl
