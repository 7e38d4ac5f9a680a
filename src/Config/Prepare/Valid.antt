-- ===== src/Config/Prepare/Valid.antt =====
-- config.go `Prepare`: the checks find nothing exactly when the configuration is well formed.
use mathlib.Core.Path.{subst}
use packer_plugin_cloud_hype.Prelude.{
  ◌≡◌, sym, ◌∙◌, ◌↔◌, Bool, not, List, [], Str, str_eq, is_empty,
}
use packer_plugin_cloud_hype.Prelude.Int.{pos, ◌≤ℤ◌}
use packer_plugin_cloud_hype.Runtime.{Files, Platform, Machine, M}
use packer_plugin_cloud_hype.Config.Types.{Config}
use packer_plugin_cloud_hype.Config.Keys.{Raw}
use packer_plugin_cloud_hype.Config.Prepare.{
  Problem, binary, binary_is_dir, kernel, kernel_is_dir, initramfs, initramfs_is_dir, firmware,
  firmware_is_dir, default_ch_binary_path, skip_unless, check_file, validate,
}
use packer_plugin_cloud_hype.Config.Prepare.Laws.{
  append-eq-nil, PresentIf, BootRange, OnePayload, size_problems-eq-nil_iff,
  payload_problems-eq-nil_iff, IsFaultless, Checks, check_file-Checks, PresentDisks,
  files-check_disks, check_disks_sound, check_disks_complete,
}
use packer_plugin_cloud_hype.Config.Prepare.Network.{HasNetwork, network_problems-eq-nil_iff}

module _ ⦃P : Platform⦄ where
  -- A well-formed configuration, over the files and the arguments of `Prepare`.
  pub record IsValid (raws : List Raw) (fs : Files) (c : Config) : Type 0 where
    pub binary_present :
        PresentIf (not (str_eq c.ch_binary_path default_ch_binary_path)) fs c.ch_binary_path
    pub one_payload : OnePayload c.kernel c.firmware
    pub kernel_present : PresentIf (not (is_empty c.kernel)) fs c.kernel
    pub initramfs_present : PresentIf (not (is_empty c.initramfs)) fs c.initramfs
    pub firmware_present : PresentIf (not (is_empty c.firmware)) fs c.firmware
    pub has_vcpus : pos 1 ≤ℤ c.vcpus
    pub has_memory : pos 128 ≤ℤ c.memory
    pub boot_range : BootRange c.cpu_boot c.vcpus
    pub disks_present : PresentDisks fs c.disk_images
    pub has_network : HasNetwork raws c.network_interfaces

  module _ (c : Config) where
    abbrev bin : M (List Problem)
    bin =
        skip_unless (not (str_eq c.ch_binary_path default_ch_binary_path))
          (check_file c.ch_binary_path binary binary_is_dir)

    abbrev ker : M (List Problem)
    ker = skip_unless (not (is_empty c.kernel)) (check_file c.kernel kernel kernel_is_dir)

    abbrev ini : M (List Problem)
    ini =
        skip_unless (not (is_empty c.initramfs)) (check_file c.initramfs initramfs initramfs_is_dir)

    abbrev fir : M (List Problem)
    fir = skip_unless (not (is_empty c.firmware)) (check_file c.firmware firmware firmware_is_dir)

    bin-Checks : Checks (not (str_eq c.ch_binary_path default_ch_binary_path)) c.ch_binary_path bin
    bin-Checks = check_file-Checks _ c.ch_binary_path binary binary_is_dir

    ker-Checks : Checks (not (is_empty c.kernel)) c.kernel ker
    ker-Checks = check_file-Checks _ c.kernel kernel kernel_is_dir

    ini-Checks : Checks (not (is_empty c.initramfs)) c.initramfs ini
    ini-Checks = check_file-Checks _ c.initramfs initramfs initramfs_is_dir

    fir-Checks : Checks (not (is_empty c.firmware)) c.firmware fir
    fir-Checks = check_file-Checks _ c.firmware firmware firmware_is_dir

    -- The machines behind the four checks; the files are the same all along.
    abbrev w1 : Machine → Machine
    w1 w = (bin w).1

    abbrev w2 : Machine → Machine
    w2 w = (ker (w1 w)).1

    abbrev w3 : Machine → Machine
    w3 w = (ini (w2 w)).1

    abbrev w4 : Machine → Machine
    w4 w = (fir (w3 w)).1

    files1 : (w : Machine) → (w1 w).files ≡ w.files
    files1 w = bin-Checks.same_files w

    files2 : (w : Machine) → (w2 w).files ≡ w.files
    files2 w = ker-Checks.same_files (w1 w) ∙ files1 w

    files3 : (w : Machine) → (w3 w).files ≡ w.files
    files3 w = ini-Checks.same_files (w2 w) ∙ files2 w

    files4 : (w : Machine) → (w4 w).files ≡ w.files
    files4 w = fir-Checks.same_files (w3 w) ∙ files3 w

    -- The checks do not change the files.
    pub files-validate : (raws : List Raw) (w : Machine) → (validate raws c w).1.files ≡ w.files
    unfolding validate
    files-validate raws w = files-check_disks c.disk_images (w4 w) ∙ files4 w

    PresentIf-at :
        (u w : Machine) (p : Str) (b : Bool)
        → u.files ≡ w.files
        → PresentIf b u.files p
        → PresentIf b w.files p
    PresentIf-at u w p b e h = subst (λ (fs : Files). PresentIf b fs p) e h

    -- A configuration on which the checks find nothing is well formed.
    pub validate-IsValid :
        (raws : List Raw) (w : Machine) → (validate raws c w).0 ≡ [] → IsValid raws w.files c
    unfolding validate
    validate-IsValid raws w h =
        let a = append-eq-nil _ _ h in
        let b = append-eq-nil _ _ a.1 in
        let d = append-eq-nil _ _ b.1 in
        let e = append-eq-nil _ _ d.1 in
        let f = append-eq-nil _ _ e.1 in
        let g = append-eq-nil _ _ f.1 in
        let k = append-eq-nil _ _ g.1 in
        let sizes = (size_problems-eq-nil_iff c.vcpus c.memory c.cpu_boot).0 g.0 in
        record {
          binary_present = bin-Checks.sound w a.0;
          one_payload = (payload_problems-eq-nil_iff c.kernel c.firmware).0 b.0;
          kernel_present =
              PresentIf-at (w1 w) w c.kernel _ (files1 w) (ker-Checks.sound (w1 w) d.0);
          initramfs_present =
              PresentIf-at (w2 w) w c.initramfs _ (files2 w) (ini-Checks.sound (w2 w) e.0);
          firmware_present =
              PresentIf-at (w3 w) w c.firmware _ (files3 w) (fir-Checks.sound (w3 w) f.0);
          has_vcpus = sizes.0;
          has_memory = sizes.1;
          boot_range = sizes.2;
          disks_present =
              subst (λ (fs : Files). PresentDisks fs c.disk_images) (files4 w)
                (check_disks_sound c.disk_images (w4 w) k.0);
          has_network = (network_problems-eq-nil_iff raws c.network_interfaces).0 k.1;
        }

    -- Where no call is refused, the checks find nothing on a well-formed configuration.
    pub validate-eq-nil :
        (raws : List Raw) (w : Machine)
        → IsFaultless
        → IsValid raws w.files c
        → (validate raws c w).0 ≡ []
    unfolding validate
    validate-eq-nil raws w nf v =
        let sizes =
          (size_problems-eq-nil_iff c.vcpus c.memory c.cpu_boot).1
            (v.has_vcpus, v.has_memory, v.boot_range) in
        let payload = (payload_problems-eq-nil_iff c.kernel c.firmware).1 v.one_payload in
        let network = (network_problems-eq-nil_iff raws c.network_interfaces).1 v.has_network in
        let b = bin-Checks.complete nf w v.binary_present in
        let k =
          ker-Checks.complete nf (w1 w)
            (PresentIf-at w (w1 w) c.kernel _ (sym (files1 w)) v.kernel_present) in
        let i =
          ini-Checks.complete nf (w2 w)
            (PresentIf-at w (w2 w) c.initramfs _ (sym (files2 w)) v.initramfs_present) in
        let f =
          fir-Checks.complete nf (w3 w)
            (PresentIf-at w (w3 w) c.firmware _ (sym (files3 w)) v.firmware_present) in
        let d = check_disks_complete c.disk_images (w4 w) nf (
          subst (λ (fs : Files). PresentDisks fs c.disk_images) (sym (files4 w)) v.disks_present) in
        cc (b, payload, k, i, f, sizes, d, network)

    -- Where no call of the system is refused, the checks of Prepare find nothing exactly when the
    -- configuration is well formed over the files.
    pub validate-eq-nil_iff :
        (raws : List Raw) (w : Machine)
        → IsFaultless
        → ((validate raws c w).0 ≡ []) ↔ IsValid raws w.files c
    validate-eq-nil_iff raws w nf = (validate-IsValid raws w, validate-eq-nil raws w nf)
