-- ===== src/Steps/Collect/Clash.antt =====
-- step_collect_artifact.go: disks whose copies go to one place.
use packer_plugin_cloud_hype.Prelude.{◌≡◌, false, List, [], ◌∷◌, Str, str_eq, arith}
use packer_plugin_cloud_hype.Runtime.{ok, Platform, Machine}
use packer_plugin_cloud_hype.Steps.Collect.{destination, copy_file, copy_all}
use packer_plugin_cloud_hype.Steps.Collect.Laws.{copy_file-content}

module _ ⦃P : Platform⦄ where
  -- Where two sources have one destination, apart from both, a loop over the two that reports its
  -- files lists that destination twice, and leaves there what the second source held. The first
  -- one's copy is lost.
  pub copy_all_clash :
      (dir s t : Str) (w : Machine) {files : List Str}
      → destination dir t ≡ destination dir s
      → str_eq s (destination dir s) ≡ false
      → str_eq t (destination dir s) ≡ false
      → (copy_all dir (s ∷ t ∷ []) [] w).0 ≡ ok files
      → (files ≡ destination dir s ∷ destination dir s ∷ [])
        × ((copy_all dir (s ∷ t ∷ []) [] w).1.files (destination dir s) ≡ w.files t)
  unfolding copy_all
  copy_all_clash dir s t w same apart apart2 done =
      let u = (copy_file s (destination dir s) w).1 in
      (
        ground arith,
        grind (
          arith,
          copy_file-content s (destination dir s) w,
          copy_file-content t (destination dir s) u,
        ),
      )
