-- ===== src/Steps/Collect/Warning.antt =====
-- The warning of config.go and the disks that step_collect_artifact.go copies.
use packer_plugin_cloud_hype.Prelude.{◌≡◌, refl, ◌≢◌, ◌↔◌, true, List, [], ◌∷◌, arith}
use packer_plugin_cloud_hype.Config.{DiskImage}
use packer_plugin_cloud_hype.Config.Prepare.{all_readonly, all_readonly_disks, disk_warnings}
use packer_plugin_cloud_hype.Steps.Collect.{writable}

all_readonly-writable :
    (disks : List DiskImage) → (all_readonly_disks disks ≡ true) ↔ (writable disks ≡ [])
unfolding writable
all_readonly-writable [] = (λ h. refl, λ h. refl)
all_readonly-writable (d ∷ disks) = ground (arith, all_readonly-writable disks)

-- The warning that all disks are read-only comes exactly when there are disks and none of them is
-- one that the last step would copy.
pub disk_warnings-writable :
    (disks : List DiskImage)
    → (disk_warnings disks ≡ all_readonly ∷ []) ↔ ((disks ≢ []) × (writable disks ≡ []))
unfolding disk_warnings
disk_warnings-writable disks = ground (arith, all_readonly-writable disks)
