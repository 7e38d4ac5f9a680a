-- ===== src/Config/Prepare/Laws.antt =====
-- config.go `Prepare`: what a configuration that passes the checks is like, and that such a
-- configuration passes.
use mathlib.Core.Path.{subst}
use packer_plugin_cloud_hype.Prelude.{
  ◌≡◌, refl, sym, ◌∙◌, ◌↔◌, ◌⊎◌, Bool, true, false, Option, none, some, List, [], ◌∷◌, ◌++◌, Str,
  is_empty, arith, All,
}
use packer_plugin_cloud_hype.Prelude.Int.{ℤ, pos, ◌≤ℤ◌}
use packer_plugin_cloud_hype.Runtime.{
  Error, Node, file, Files, Platform, Syscall, Machine, M, os_stat,
}
use packer_plugin_cloud_hype.Config.Types.{DiskImage}
use packer_plugin_cloud_hype.Config.Prepare.{
  disk, disk_is_dir, Problem, payload_problems, size_problems, skip_unless, check_file, check_disks,
}

pub append-eq-nil {ℓ} : {A : Type ℓ} (xs ys : List A) → xs ++ ys ≡ [] → (xs ≡ []) × (ys ≡ [])
append-eq-nil [] ys h = (refl, h)
append-eq-nil (x ∷ xs) ys h = cc

abbrev pub is_present : Option Node → Bool
is_present (some (file bytes)) = true
is_present _ = false

-- A path that exists and names no directory. The source looks no further: a device or a pipe passes.
abbrev pub IsPresent : Files → Str → Type 0
IsPresent fs p = is_present (fs p) ≡ true

-- The boot count, where one is set.
abbrev pub BootRange : Option ℤ → ℤ → Type 0
BootRange none vcpus = Unit
BootRange (some n) vcpus = (pos 1 ≤ℤ n) × (n ≤ℤ vcpus)

pub size_problems-eq-nil_iff :
    (vcpus memory : ℤ) (cpu_boot : Option ℤ)
    → (size_problems vcpus memory cpu_boot ≡ [])
      ↔ ((pos 1 ≤ℤ vcpus) × (pos 128 ≤ℤ memory) × BootRange cpu_boot vcpus)
unfolding size_problems
size_problems-eq-nil_iff vcpus memory none = (λ h. ground arith, λ h. ground arith)
size_problems-eq-nil_iff vcpus memory (some n) = (λ h. ground arith, λ h. ground arith)

-- One of the two is set, and not the other.
abbrev pub OnePayload : Str → Str → Type 0
OnePayload k f =
    ((is_empty k ≡ false) × (is_empty f ≡ true)) ⊎ ((is_empty k ≡ true) × (is_empty f ≡ false))

pub payload_problems-eq-nil_iff : (k f : Str) → (payload_problems k f ≡ []) ↔ OnePayload k f
unfolding payload_problems
payload_problems-eq-nil_iff k f = (λ h. ground arith, λ h. ground arith)

-- A path that exists and names no directory, where it is one that is looked at.
abbrev pub PresentIf : Bool → Files → Str → Type 0
PresentIf true fs p = IsPresent fs p
PresentIf false fs p = Unit

module _ ⦃P : Platform⦄ where
  -- No call is refused.
  abbrev pub IsFaultless : Type 0
  IsFaultless = (call : Syscall) (s : P.State) → (P.fault call s).0 ≡ none

  -- What a check of a file says, when its verdict is given.
  pub record Checks (b : Bool) (p : Str) (m : M (List Problem)) : Type 0 where
    pub same_files : (w : Machine) → (m w).1.files ≡ w.files
    pub sound : (w : Machine) → (m w).0 ≡ [] → PresentIf b w.files p
    pub complete : IsFaultless → (w : Machine) → PresentIf b w.files p → (m w).0 ≡ []

  pub check_file-Checks :
      (b : Bool) (p : Str) (missing : Error → Problem) (is_dir : Problem)
      → Checks b p (skip_unless b (check_file p missing is_dir))
  unfolding check_file os_stat
  check_file-Checks b p missing is_dir = record {
    same_files = λ w. ground arith;
    sound = λ w h. ground arith;
    complete = λ nf w h. ground (arith, nf (Syscall.stat p) w.host);
  }

  -- A check of a file that is made in every case.
  check_always :
      (p : Str) (missing : Error → Problem) (is_dir : Problem)
      → Checks true p (check_file p missing is_dir)
  check_always p missing is_dir = check_file-Checks true p missing is_dir

  pub files-check_disks :
      (disks : List DiskImage) (w : Machine) → (check_disks disks w).1.files ≡ w.files
  unfolding check_disks
  files-check_disks [] w = refl
  files-check_disks (d ∷ disks) w =
      let c = check_always d.path (disk d.path) (disk_is_dir d.path) in
      files-check_disks disks _ ∙ c.same_files w

  abbrev pub PresentDisks : Files → List DiskImage → Type 0
  PresentDisks fs = All (λ d. IsPresent fs d.path)

  pub check_disks_sound :
      (disks : List DiskImage) (w : Machine)
      → (check_disks disks w).0 ≡ []
      → PresentDisks w.files disks
  unfolding check_disks
  check_disks_sound [] w h = tt
  check_disks_sound (d ∷ disks) w h =
      let c = check_always d.path (disk d.path) (disk_is_dir d.path) in
      let v = (check_file d.path (disk d.path) (disk_is_dir d.path) w).1 in
      let (here, rest) = append-eq-nil _ _ h in
      (
        c.sound w here,
        subst (λ (fs : Files). PresentDisks fs disks) (c.same_files w)
            (check_disks_sound disks v rest),
      )

  pub check_disks_complete :
      (disks : List DiskImage) (w : Machine)
      → IsFaultless
      → PresentDisks w.files disks
      → (check_disks disks w).0 ≡ []
  unfolding check_disks
  check_disks_complete [] w nf h = refl
  check_disks_complete (d ∷ disks) w nf h =
      let c = check_always d.path (disk d.path) (disk_is_dir d.path) in
      let v = (check_file d.path (disk d.path) (disk_is_dir d.path) w).1 in
      let rest =
        check_disks_complete disks v nf
          (subst (λ (fs : Files). PresentDisks fs disks) (sym (c.same_files w)) h.1) in
      rw (c.complete nf w h.0, rest) refl
