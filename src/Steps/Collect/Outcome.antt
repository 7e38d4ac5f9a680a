-- ===== src/Steps/Collect/Outcome.antt =====
-- step_collect_artifact.go: the artifact of a step that goes on, and the contents of its files.
use mathlib.Core.Path.{subst}
use packer_plugin_cloud_hype.Prelude.{
  ◌≡◌, refl, ◌≢◌, sym, inl, inr, true, false, some, List, [], ◌∷◌, map, Str, str_eq, arith, All,
}
use packer_plugin_cloud_hype.Runtime.{
  Result-cases, artifact, is_ui, IsBag, continue, StepAction, os_mkdir_all, ok, Platform, Files,
  Machine,
}
use packer_plugin_cloud_hype.Config.{DiskImage}
use packer_plugin_cloud_hype.Steps.Collect.{
  writable, destination, copy_all, collect_body, collect_run,
}
use packer_plugin_cloud_hype.Steps.Collect.Laws.{
  Distinct, Outside, Arrived, Arrived-from, copy_all-files, copy_all-Arrived,
}

module _ ⦃P : Platform⦄ where
  -- The machine that the loop begins with, and its call.
  abbrev with_dir : Str → Machine → Machine
  with_dir dir w = (os_mkdir_all dir w).1

  mkdir-files :
      (dir q : Str) (w : Machine) → str_eq q dir ≡ false → (with_dir dir w).files q ≡ w.files q
  unfolding os_mkdir_all
  mkdir-files dir q w h = ground arith

  mkdir-sources :
      (dir : Str) (w : Machine) (srcs : List Str)
      → All (λ s. str_eq s dir ≡ false) srcs
      → All (λ s. (with_dir dir w).files s ≡ w.files s) srcs
  mkdir-sources dir w [] h = tt
  mkdir-sources dir w (s ∷ rest) h = (mkdir-files dir s w h.0, mkdir-sources dir w rest h.1)

  collect_body-inv :
      (dir s : Str) (rest : List Str) (w : Machine)
      → (collect_body dir (s ∷ rest) w).0 ≡ continue
      → let r = copy_all dir (s ∷ rest) [] (with_dir dir w) in
        (files : List Str) × (r.0 ≡ ok files)
        × ((collect_body dir (s ∷ rest) w).1.files ≡ r.1.files)
        × ((collect_body dir (s ∷ rest) w).1.bag
            ≡ P.put "artifact" (artifact (record { dir = dir; files_list = files })) r.1.bag)
  unfolding collect_body
  collect_body-inv dir s rest w h =
      elim (Result-cases (copy_all dir (s ∷ rest) [] (with_dir dir w)).0) [
        | inl (files, e) ↦ (files, e, ground arith, ground arith)
        | inr (cause, e) ↦ absurd (ground arith)
      ]

  Arrived-files :
      (dir : Str) (w u v : Machine) (srcs : List Str)
      → v.files ≡ u.files
      → Arrived dir w u srcs
      → Arrived dir w v srcs
  Arrived-files dir w u v srcs e h =
      subst (λ (f : Files). All (λ s. f (destination dir s) ≡ w.files s) srcs) (sym e) h

  -- What `collect_run-artifact` states, for a run to a machine.
  abbrev pub Collected : Str → List Str → Machine → Machine → Type 0
  Collected dir srcs w v =
      (P.get_ok "artifact" v.bag
        ≡ some (artifact (record { dir = dir; files_list = map (destination dir) srcs })))
      × (Distinct dir srcs
          → Outside dir srcs srcs
          → All (λ s. str_eq s dir ≡ false) srcs
          → Arrived dir w v srcs)

  collect_body-Collected :
      (dir : Str) (srcs : List Str) (w : Machine)
      → IsBag P
      → srcs ≢ []
      → (collect_body dir srcs w).0 ≡ continue
      → Collected dir srcs w (collect_body dir srcs w).1
  collect_body-Collected dir [] w laws some_disk h = absurd (some_disk refl)
  collect_body-Collected dir (s ∷ rest) w laws some_disk h =
      let (files, copied, same, bag) = collect_body-inv dir s rest w h in
      let r = copy_all dir (s ∷ rest) [] (with_dir dir w) in
      let listed = copy_all-files dir (s ∷ rest) [] (with_dir dir w) copied in
      (
        rw (bag, laws.get_ok-put, listed) refl,
        λ distinct out apart.
            Arrived-files dir w r.1 (collect_body dir (s ∷ rest) w).1 (s ∷ rest) same (
              Arrived-from dir w (with_dir dir w) r.1 (s ∷ rest)
                (mkdir-sources dir w (s ∷ rest) apart)
                (copy_all-Arrived dir (s ∷ rest) [] (with_dir dir w) distinct out copied)),
      )

  pub collect_run-artifact :
      (disks : List DiskImage) (dir : Str) (w : Machine)
      → IsBag P
      → is_ui (P.get_ok "ui" w.bag) ≡ true
      → writable disks ≢ []
      → (collect_run disks dir w).0 ≡ continue
      → Collected dir (writable disks) w (collect_run disks dir w).1
  collect_run-artifact disks dir w laws has_ui some_disk h =
      let e : collect_run disks dir w ≡ collect_body dir (writable disks) w =
        unfold collect_run in rw has_ui in
      subst (λ (r : StepAction × Machine). Collected dir (writable disks) w r.1) (sym e)
        (collect_body-Collected dir (writable disks) w laws some_disk (rw e at h))

  -- With a ui and a writable disk, where the collecting step goes on, its artifact lists the
  -- destinations of the writable disks in their order. The destinations differing from one another
  -- and from every source, and no source being the output directory, each then holds what its
  -- source held. The state bag is a map.
  pub collect_run-Arrived :
      (disks : List DiskImage) (dir : Str) (w : Machine)
      → IsBag P
      → is_ui (P.get_ok "ui" w.bag) ≡ true
      → writable disks ≢ []
      → (collect_run disks dir w).0 ≡ continue
      → Distinct dir (writable disks)
      → Outside dir (writable disks) (writable disks)
      → All (λ s. str_eq s dir ≡ false) (writable disks)
      → (P.get_ok "artifact" (collect_run disks dir w).1.bag
          ≡ some (
              artifact (record { dir = dir; files_list = map (destination dir) (writable disks) })))
        × Arrived dir w (collect_run disks dir w).1 (writable disks)
  collect_run-Arrived disks dir w laws has_ui some_disk on distinct out apart =
      let (made, arrived) = collect_run-artifact disks dir w laws has_ui some_disk on in
      (made, arrived distinct out apart)
