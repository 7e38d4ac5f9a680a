-- ===== src/Builder/Run/Made.antt =====
-- builder.go `Run`: the artifact that a build returns is the one that its last step has made.
use packer_plugin_cloud_hype.Prelude.{
  ◌≡◌, refl, ◌≢◌, ◌∙◌, ◌⊎◌, inl, inr, none, some, List, [], map, Str, arith, is_empty, Bool-cases,
}
use packer_plugin_cloud_hype.Runtime.{
  halt, ok, is_ui, Artifact, artifact, Platform, IsBag, Machine, Step,
}
use packer_plugin_cloud_hype.Config.{DiskImage, Config}
use packer_plugin_cloud_hype.Steps.Common.Laws.{get_ok-put_ne, StepAction-cases}
use packer_plugin_cloud_hype.Ssh.{comm_host}
use packer_plugin_cloud_hype.Steps.Collect.{writable, destination, collect_step, collect_run}
use packer_plugin_cloud_hype.Steps.Collect.Outcome.{collect_run-artifact}
use packer_plugin_cloud_hype.Steps.Keeps.{bag-copy_all, bag-mkdir}
use packer_plugin_cloud_hype.Builder.Runner.{mark}
use packer_plugin_cloud_hype.Builder.Runner.Invariants.{
  MarkProof, Link, Chain, nil, link, Runs-keeps,
}
use packer_plugin_cloud_hype.Builder.Run.Keys.{
  launch-Leaves, Leaves, IsForeign, Holds, create-Leaves, boot-Leaves, shutdown-Leaves, Holds-mark,
}
use packer_plugin_cloud_hype.Builder.Run.{Sdk, IsRunner, run, output_dir, build_steps, first_bag}

-- The artifact of the collecting step, where it makes one.
abbrev pub made_by : List DiskImage → Str → Artifact
made_by disks d = record { dir = d; files_list = map (destination d) (writable disks) }

module _ ⦃P : Platform⦄ (laws : IsBag P) where
  collect_run-halt :
      (disks : List DiskImage) (d : Str) (w : Machine)
      → (collect_run disks d w).0 ≡ halt
      → P.get_ok "artifact" (collect_run disks d w).1.bag ≡ P.get_ok "artifact" w.bag
  unfolding collect_run
  collect_run-halt disks d w h =
      grind (arith, get_ok-put_ne laws "artifact" "error" refl, bag-mkdir, bag-copy_all)

  collect_run-made :
      (disks : List DiskImage) (d : Str) (w : Machine)
      → let after = P.get_ok "artifact" (collect_run disks d w).1.bag in
        (after ≡ P.get_ok "artifact" w.bag)
        ⊎ ((writable disks ≢ []) × (after ≡ some (artifact (made_by disks d))))
  collect_run-made disks d w = elim (StepAction-cases (collect_run disks d w).0) [
    | inr h ↦ inl (collect_run-halt disks d w h)
    | inl go ↦ elim (Bool-cases (is_ui (P.get_ok "ui" w.bag))) [
      | inr lacks ↦ unfold collect_run in absurd (ground arith)
      | inl has ↦ elim (Bool-cases (is_empty (writable disks))) [
        | inl none_ ↦ inl (unfold collect_run in ground arith)
        | inr full ↦
            let some_disk : writable disks ≢ [] = ground arith in
            inr (some_disk, (collect_run-artifact disks d w laws has some_disk go).0)
      ]
    ]
  ]

  -- No artifact, or the one of a configuration with a writable disk.
  abbrev Made : Config → Machine → Type 0
  Made c w =
      (P.get_ok "artifact" w.bag ≡ none)
      ⊎ ((writable c.disk_images ≢ [])
          × (P.get_ok "artifact" w.bag ≡ some (artifact (made_by c.disk_images (output_dir c)))))

  Made-from :
      (c : Config) (w v : Machine)
      → P.get_ok "artifact" v.bag ≡ P.get_ok "artifact" w.bag
      → Made c w
      → Made c v
  Made-from c w v e (inl h) = inl (e ∙ h)
  Made-from c w v e (inr (some_disk, h)) = inr (some_disk, e ∙ h)

  Made-mark : (c : Config) → MarkProof (Made c)
  Made-mark c k w is_mark h =
      Made-from c w (mark k w)
        (Holds-mark laws "artifact" (P.get_ok "artifact" w.bag) refl refl k w is_mark refl) h

  Leaves-Made :
      (c : Config) (s : Step)
      → Leaves "artifact" s
      → Link (Made c) (Holds laws "artifact" none) (Holds laws "artifact" none) s
  Leaves-Made c s h = record {
    stays = λ w e. inl (h.in_run w ∙ e);
    leads = λ w e go. h.in_run w ∙ e;
    cleans = λ w m. Made-from c w (s.cleanup w) (h.in_cleanup w) m;
  }

  collect-Made :
      (c : Config)
      → Link
          (Made c)
          (Holds laws "artifact" none)
          (Made c)
          (collect_step c.disk_images (output_dir c))
  unfolding collect_step
  collect-Made c =
      let made = λ (w : Machine) (e : Holds laws "artifact" none w).
        let after : Made c (collect_run c.disk_images (output_dir c) w).1 =
          elim (collect_run-made c.disk_images (output_dir c) w) [
            | inl same ↦ inl (same ∙ e)
            | inr new_one ↦ inr new_one
          ] in
        after in
      record { stays = made; leads = λ w e go. made w e; cleans = λ w m. m }

  build-Chain :
      (sdk : Sdk) (c : Config)
      → Leaves "artifact" (sdk.connect c.comm (comm_host c.network_interfaces))
      → Leaves "artifact" sdk.provision
      → Chain (Made c) (Holds laws "artifact" none) (build_steps sdk c)
  build-Chain sdk c connect provision =
      let weak = λ (w : Machine) (h : Holds laws "artifact" none w). inl h in
      let marks = Holds-mark laws "artifact" none refl refl in
      let next = λ (s : Step) (h : Leaves "artifact" s). Leaves-Made c s h in
      link marks weak (next _ (launch-Leaves laws "artifact" refl refl refl c)) (
        link marks weak (next _ (create-Leaves laws "artifact" refl c)) (
          link marks weak (next _ (boot-Leaves laws "artifact" refl)) (
            link marks weak (next _ connect) (
              link marks weak (next _ provision) (
                link marks weak (next _ (shutdown-Leaves laws "artifact" refl))
                  (link (Made-mark c) weak (collect-Made c) (nil (λ w m. m))))))))

  first_bag_empty : P.get_ok "artifact" first_bag ≡ none
  unfolding first_bag
  first_bag_empty = simp (laws.get_ok-put, laws.get_ok-empty)

  -- What Run returns as an artifact names the output directory and lists the destinations of the
  -- writable disks in their order, of which there is one at least. The state bag is a map, the
  -- runner does what its documentation says, and the SDK's steps leave the plugin's keys alone.
  pub run-artifact :
      (sdk : Sdk) (c : Config) (w : Machine) {a : Artifact}
      → IsRunner sdk
      → IsForeign (sdk.connect c.comm (comm_host c.network_interfaces))
      → IsForeign sdk.provision
      → (run sdk c w).0 ≡ ok a
      → (writable c.disk_images ≢ [])
        × (a.dir ≡ output_dir c)
        × (a.files_list ≡ map (destination (output_dir c)) (writable c.disk_images))
  unfolding run
  run-artifact sdk c w runner connect provision returned =
      let first = record w { bag = first_bag } in
      let made =
        Runs-keeps (Made-mark c) (runner (build_steps sdk c) first)
          (build-Chain sdk c connect.leaves_artifact provision.leaves_artifact) first_bag_empty in
      ground (arith, made)
