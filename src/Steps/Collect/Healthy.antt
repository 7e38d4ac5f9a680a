-- ===== src/Steps/Collect/Healthy.antt =====
-- step_collect_artifact.go: the copies succeed where nothing is refused and the paths are fit.
use packer_plugin_cloud_hype.Prelude.{
  ◌≡◌, refl, Bool, true, false, Option, none, some, List, [], ◌∷◌, ◌++◌, Str, str_eq, str_eq-eq,
  Bool-cases, inl, inr, ap, arith, All,
}
use packer_plugin_cloud_hype.Runtime.{
  ok, Node, dir, Files, continue, is_ui, Platform, Syscall, Machine, os_open, os_create, io_copy,
  os_mkdir_all,
}
use packer_plugin_cloud_hype.Config.{DiskImage}
use packer_plugin_cloud_hype.Steps.Collect.{
  destination, copy_file, copy_all, writable, collect_body, collect_run,
}
use packer_plugin_cloud_hype.Steps.Collect.Laws.{is_file}

abbrev is_folder : Option Node → Bool
is_folder (some dir) = true
is_folder _ = false

-- The sources are files, and no destination is a directory.
abbrev pub Copyable : Str → List Str → Files → Type 0
Copyable d srcs fs =
    All (λ s. (is_file (fs s) ≡ true) × (is_folder (fs (destination d s)) ≡ false)) srcs

-- The output directory is none of the destinations and no file.
abbrev pub Collectable : Str → List Str → Files → Type 0
Collectable d srcs fs =
    (is_file (fs d) ≡ false)
    × All (λ s. str_eq (destination d s) d ≡ false) srcs
    × Copyable d srcs fs

-- What were files and what were no directories are so still.
abbrev Still : Files → Files → Type 0
Still fs gs =
    (q : Str)
    → (is_file (fs q) ≡ true → is_file (gs q) ≡ true)
      × (is_folder (fs q) ≡ false → is_folder (gs q) ≡ false)

Copyable-of_Still :
    (d : Str) (srcs : List Str) (fs gs : Files)
    → Still fs gs
    → Copyable d srcs fs
    → Copyable d srcs gs
Copyable-of_Still d [] fs gs still h = tt
Copyable-of_Still d (s ∷ rest) fs gs still h = (
  ((still s).0 h.0.0, (still (destination d s)).1 h.0.1),
  Copyable-of_Still d rest fs gs still h.1,
)

module _ ⦃P : Platform⦄
    (no_fault : (call : Syscall) (s : P.State) → (P.fault call s).0 ≡ none) where
  copy_file-works :
      (src dst : Str) (w : Machine)
      → is_file (w.files src) ≡ true
      → is_folder (w.files dst) ≡ false
      → ((copy_file src dst w).0 ≡ none) × Still w.files (copy_file src dst w).1.files
  unfolding copy_file os_open os_create io_copy
  copy_file-works src dst w source room =
      (grind (arith, no_fault), λ q. (λ h. grind (arith, no_fault), λ h. grind (arith, no_fault)))

  copy_all-works :
      (d : Str) (srcs copied : List Str) (w : Machine)
      → Copyable d srcs w.files
      → (files : List Str) × ((copy_all d srcs copied w).0 ≡ ok files)
  unfolding copy_all
  copy_all-works d [] copied w h = (copied, refl)
  copy_all-works d (s ∷ rest) copied w h =
      let (copied_s, still) = copy_file-works s (destination d s) w h.0.0 h.0.1 in
      let (files, done) =
        copy_all-works d rest (copied ++ destination d s ∷ []) (copy_file s (destination d s) w).1
          (Copyable-of_Still d rest _ _ still h.1) in
      (files, ground arith)

  -- The output directory is made, and nothing changes at another path.
  mkdir-works :
      (d : Str) (w : Machine)
      → is_file (w.files d) ≡ false
      → ((os_mkdir_all d w).0 ≡ none)
        × ((q : Str) → str_eq q d ≡ false → (os_mkdir_all d w).1.files q ≡ w.files q)
  unfolding os_mkdir_all
  mkdir-works d w h = (grind (arith, no_fault), λ q apart. grind (arith, no_fault))

  -- A file is no output directory.
  file-apart :
      (d s : Str) (fs : Files) → is_file (fs d) ≡ false → is_file (fs s) ≡ true → str_eq s d ≡ false
  file-apart d s fs room source = elim (Bool-cases (str_eq s d)) [
    | inl same ↦ let e = ap (λ p. is_file (fs p)) (str_eq-eq s d same) in absurd (ground arith)
    | inr differ ↦ differ
  ]

  Copyable-mkdir :
      (d : Str) (srcs : List Str) (w : Machine)
      → Collectable d srcs w.files
      → Copyable d srcs (os_mkdir_all d w).1.files
  Copyable-mkdir d [] w h = tt
  Copyable-mkdir d (s ∷ rest) w (room, apart, ((source, free), others)) =
      let same = (mkdir-works d w room).1 in
      (
        (
          rw (same s (file-apart d s w.files room source)) source,
          rw (same (destination d s) apart.0) free,
        ),
        Copyable-mkdir d rest w (room, apart.1, others),
      )

  collect_body-goes :
      (d : Str) (srcs : List Str) (w : Machine)
      → Collectable d srcs w.files
      → (collect_body d srcs w).0 ≡ continue
  unfolding collect_body
  collect_body-goes d [] w h = refl
  collect_body-goes d (s ∷ rest) w h = ground (
    arith,
    (mkdir-works d w h.0).0,
    copy_all-works d (s ∷ rest) [] (os_mkdir_all d w).1 (Copyable-mkdir d (s ∷ rest) w h),
  )

  pub collect_run-goes :
      (disks : List DiskImage) (d : Str) (w : Machine)
      → is_ui (P.get_ok "ui" w.bag) ≡ true
      → Collectable d (writable disks) w.files
      → (collect_run disks d w).0 ≡ continue
  unfolding collect_run
  collect_run-goes disks d w has_ui h = ground (arith, collect_body-goes d (writable disks) w h)
