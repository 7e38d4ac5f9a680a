-- ===== src/Builder/Run/Honest.antt =====
-- builder.go `Run`: the steps that halt exactly where they leave an error.
use packer_plugin_cloud_hype.Prelude.{
  ℕ, ap, List, ◌≡◌, refl, ◌∙◌, ◌⊎◌, inl, inr, false, none, some, Str, arith, Bool-cases,
  Option-cases,
}
use packer_plugin_cloud_hype.Runtime.{
  Error, failure, continue, halt, is_ui, as_client, Platform, IsBag, IsClock, Machine, Step,
  StepAction,
}
use packer_plugin_cloud_hype.Config.{DiskImage, Config}
use packer_plugin_cloud_hype.Steps.Common.Laws.{get_ok-put_ne}
use packer_plugin_cloud_hype.Steps.Launch.{launch_step, launch_run, settle}
use packer_plugin_cloud_hype.Steps.Launch.Ping.{bag-ping_loop}
use packer_plugin_cloud_hype.Steps.Launch.Stop.{launch_cleanup_lem}
use packer_plugin_cloud_hype.Steps.CreateVm.{create_step, create_run}
use packer_plugin_cloud_hype.Steps.BootVm.{boot_step, boot_run}
use packer_plugin_cloud_hype.Steps.ShutdownVm.{poll_fuel, shutdown_step, shutdown_run}
use packer_plugin_cloud_hype.Steps.ShutdownVm.Laws.{bag-shutdown_cleanup, shutdown_run-continue}
use packer_plugin_cloud_hype.Steps.Collect.{collect_step, collect_run}
use packer_plugin_cloud_hype.Steps.Keeps.{bag-boot_vm, bag-create_vm, bag-copy_all, bag-mkdir}
use packer_plugin_cloud_hype.Steps.Failures.{ping_loop-uncancelled}
use packer_plugin_cloud_hype.Chclient.VmConfig.{VmConfig}
use packer_plugin_cloud_hype.Builder.Vm.{build_vm_config}
use packer_plugin_cloud_hype.Builder.Run.{output_dir}

module _ ⦃P : Platform⦄ where
  -- The error of a step is in the state bag.
  abbrev pub Failed : Machine → Type 0
  Failed w = (e : Error) × (P.get_ok "error" w.bag ≡ some (failure e))

  abbrev pub IsClear : Machine → Type 0
  IsClear w = P.get_ok "error" w.bag ≡ none

  -- A step has gone on and left no error, or it has halted and left one.
  abbrev pub Told : StepAction × Machine → Type 0
  Told r = ((r.0 ≡ continue) × IsClear r.1) ⊎ ((r.0 ≡ halt) × Failed r.1)

  -- A step that halts exactly where it leaves an error, and whose cleanup writes neither an error
  -- nor an artifact.
  pub record IsHonest (s : Step) : Type 0 where
    pub tells : (w : Machine) → IsClear w → Told (s.run w)
    pub keeps_error : (w : Machine) → P.get_ok "error" (s.cleanup w).bag ≡ P.get_ok "error" w.bag
    pub keeps_artifact :
        (w : Machine) → P.get_ok "artifact" (s.cleanup w).bag ≡ P.get_ok "artifact" w.bag

  pub Failed-of_same :
      (u w : Machine) → P.get_ok "error" w.bag ≡ P.get_ok "error" u.bag → Failed u → Failed w
  Failed-of_same u w same (e, h) = (e, same ∙ h)

  pub IsClear-of_continue :
      (s : Step) (w : Machine)
      → IsHonest s
      → IsClear w
      → (s.run w).0 ≡ continue
      → IsClear (s.run w).1
  IsClear-of_continue s w honest clear c = elim (honest.tells w clear) [
    | inl (x, still) ↦ still
    | inr (h, x) ↦ absurd (ground arith)
  ]

  pub Failed-of_halt :
      (s : Step) (w : Machine) → IsHonest s → IsClear w → (s.run w).0 ≡ halt → Failed (s.run w).1
  Failed-of_halt s w honest clear h = elim (honest.tells w clear) [
    | inl (c, x) ↦ absurd (ground arith)
    | inr (x, failed) ↦ failed
  ]

module _ ⦃P : Platform⦄ (laws : IsBag P) (live : (s : P.State) → (P.ctx_done s).0 ≡ false) where
  launch_run-Told :
      (binary socket : Str) (w : Machine) → IsClear w → Told (launch_run binary socket w)
  unfolding launch_run settle
  launch_run-Told binary socket w clear =
      grind (arith, laws.get_ok-put, bag-ping_loop, ping_loop-uncancelled live)

  create_run-Told : (v : VmConfig) (w : Machine) → IsClear w → Told (create_run v w)
  unfolding create_run
  create_run-Told v w clear = grind (arith, laws.get_ok-put, bag-create_vm)

  boot_run-Told : (w : Machine) → IsClear w → Told (boot_run w)
  unfolding boot_run
  boot_run-Told w clear = grind (arith, laws.get_ok-put, bag-boot_vm)

  collect_run-Told :
      (disks : List DiskImage) (d : Str) (w : Machine) → IsClear w → Told (collect_run disks d w)
  unfolding collect_run
  collect_run-Told disks d w clear =
      grind (
        arith,
        laws.get_ok-put,
        get_ok-put_ne laws "error" "artifact" refl,
        bag-mkdir,
        bag-copy_all,
      )

  pub launch-IsHonest : (c : Config) → IsHonest (launch_step c.ch_binary_path c.ch_socket_path)
  unfolding launch_step
  launch-IsHonest c = record {
    tells = launch_run-Told c.ch_binary_path c.ch_socket_path;
    keeps_error = λ w i. P.get_ok "error" ((launch_cleanup_lem c.ch_socket_path w).2 i);
    keeps_artifact = λ w i. P.get_ok "artifact" ((launch_cleanup_lem c.ch_socket_path w).2 i);
  }

  pub create-IsHonest : (c : Config) → IsHonest (create_step (build_vm_config c))
  unfolding create_step
  create-IsHonest c = record {
    tells = create_run-Told (build_vm_config c);
    keeps_error = λ w. refl;
    keeps_artifact = λ w. refl;
  }

  pub boot-IsHonest : IsHonest boot_step
  unfolding boot_step
  boot-IsHonest = record {
    tells = boot_run-Told;
    keeps_error = λ w. refl;
    keeps_artifact = λ w. refl;
  }

  pub collect-IsHonest : (c : Config) → IsHonest (collect_step c.disk_images (output_dir c))
  unfolding collect_step
  collect-IsHonest c = record {
    tells = collect_run-Told c.disk_images (output_dir c);
    keeps_error = λ w. refl;
    keeps_artifact = λ w. refl;
  }

  shutdown_run-Told :
      (time : P.State → ℕ)
      → IsClock P time
      → (w : Machine) → IsClear w
      → Told (shutdown_run poll_fuel w)
  shutdown_run-Told time clock w clear = elim (Bool-cases (is_ui (P.get_ok "ui" w.bag))) [
    | inr lacks ↦ unfold shutdown_run in grind (arith, laws.get_ok-put)
    | inl has ↦ elim (Option-cases (as_client (P.get_ok "ch_client" w.bag))) [
      | inl lacks ↦ unfold shutdown_run in grind (arith, laws.get_ok-put)
      | inr (c, client) ↦
          let (goes, same) = shutdown_run-continue time clock w has client live in
          inl (goes, ap (λ (b : P.Bag). P.get_ok "error" b) same ∙ clear)
    ]
  ]

  pub shutdown-IsHonest : (time : P.State → ℕ) → IsClock P time → IsHonest shutdown_step
  unfolding shutdown_step
  shutdown-IsHonest time clock = record {
    tells = shutdown_run-Told time clock;
    keeps_error = λ w i. P.get_ok "error" (bag-shutdown_cleanup w i);
    keeps_artifact = λ w i. P.get_ok "artifact" (bag-shutdown_cleanup w i);
  }
