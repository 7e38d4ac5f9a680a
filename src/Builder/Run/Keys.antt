-- ===== src/Builder/Run/Keys.antt =====
-- builder.go `Run`: the keys of the state bag that the steps of a build leave alone.
use text.Mathlib.Text.{◌==◌}
use packer_plugin_cloud_hype.Prelude.{String, ◌≡◌, refl, ◌∙◌, inl, inr, Option, false}
use packer_plugin_cloud_hype.Runtime.{Value, Platform, IsBag, Machine, Step}
use packer_plugin_cloud_hype.Config.{Config}
use packer_plugin_cloud_hype.Steps.Launch.{launch_step}
use packer_plugin_cloud_hype.Steps.Launch.Stop.{launch_cleanup_lem}
use packer_plugin_cloud_hype.Steps.CreateVm.{create_step}
use packer_plugin_cloud_hype.Steps.BootVm.{boot_step}
use packer_plugin_cloud_hype.Steps.ShutdownVm.{shutdown_step}
use packer_plugin_cloud_hype.Steps.ShutdownVm.Laws.{bag-shutdown_cleanup}
use packer_plugin_cloud_hype.Steps.Collect.{collect_step}
use packer_plugin_cloud_hype.Steps.Keeps.{
  boot_run-Keeps, create_run-Keeps, launch_run-Keeps, shutdown_run-Keeps, collect_run-Keeps,
}
use packer_plugin_cloud_hype.Builder.Vm.{build_vm_config}
use packer_plugin_cloud_hype.Builder.Runner.Invariants.{MarkProof, Link}
use packer_plugin_cloud_hype.Builder.Run.{output_dir}

module _ ⦃P : Platform⦄ where
  -- A step of the SDK leaves a key of the state bag alone.
  pub record Leaves (k : String) (s : Step) : Type 0 where
    pub in_run : (w : Machine) → P.get_ok k (s.run w).1.bag ≡ P.get_ok k w.bag
    pub in_cleanup : (w : Machine) → P.get_ok k (s.cleanup w).bag ≡ P.get_ok k w.bag

  -- The keys that the plugin writes are not written by the SDK's steps.
  pub record IsForeign (s : Step) : Type 0 where
    pub leaves_cmd : Leaves "ch_cmd" s
    pub leaves_client : Leaves "ch_client" s
    pub leaves_artifact : Leaves "artifact" s

module _ ⦃P : Platform⦄ (laws : IsBag P) where
  -- A key that holds one value all along.
  abbrev pub Holds : String → Option Value → Machine → Type 0
  Holds k x w = P.get_ok k w.bag ≡ x

  pub Leaves-Link :
      (k : String) (x : Option Value) (s : Step)
      → Leaves k s
      → Link (Holds k x) (Holds k x) (Holds k x) s
  Leaves-Link k x s h = record {
    stays = λ w e. h.in_run w ∙ e;
    leads = λ w e c. h.in_run w ∙ e;
    cleans = λ w e. h.in_cleanup w ∙ e;
  }

  pub launch-Leaves :
      (k : String)
      → (k == "error") ≡ false
      → (k == "ch_client") ≡ false
      → (k == "ch_cmd") ≡ false
      → (c : Config) → Leaves k (launch_step c.ch_binary_path c.ch_socket_path)
  unfolding launch_step
  launch-Leaves k e client cmd c = record {
    in_run = launch_run-Keeps laws k e client cmd c.ch_binary_path c.ch_socket_path;
    in_cleanup = λ w i. P.get_ok k ((launch_cleanup_lem c.ch_socket_path w).2 i);
  }

  pub create-Leaves :
      (k : String)
      → (k == "error") ≡ false
      → (c : Config) → Leaves k (create_step (build_vm_config c))
  unfolding create_step
  create-Leaves k e c = record {
    in_run = create_run-Keeps laws k e (build_vm_config c);
    in_cleanup = λ w. refl;
  }

  pub boot-Leaves : (k : String) → (k == "error") ≡ false → Leaves k boot_step
  unfolding boot_step
  boot-Leaves k e = record { in_run = boot_run-Keeps laws k e; in_cleanup = λ w. refl }

  pub shutdown-Leaves : (k : String) → (k == "error") ≡ false → Leaves k shutdown_step
  unfolding shutdown_step
  shutdown-Leaves k e = record {
    in_run = shutdown_run-Keeps laws k e _;
    in_cleanup = λ w i. P.get_ok k (bag-shutdown_cleanup w i);
  }

  pub collect-Leaves :
      (k : String)
      → (k == "error") ≡ false
      → (k == "artifact") ≡ false
      → (c : Config) → Leaves k (collect_step c.disk_images (output_dir c))
  unfolding collect_step
  collect-Leaves k e a c = record {
    in_run = collect_run-Keeps laws k e a c.disk_images (output_dir c);
    in_cleanup = λ w. refl;
  }

  pub Holds-mark :
      (k : String) (x : Option Value)
      → (k == "cancelled") ≡ false
      → (k == "halted") ≡ false
      → MarkProof (Holds k x)
  Holds-mark k x c h j w is_mark e = elim is_mark [
    | inl p ↦ rw (p, laws.get_ok-put, c) e
    | inr p ↦ rw (p, laws.get_ok-put, h) e
  ]
