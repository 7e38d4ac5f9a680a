-- ===== src/Builder/Run/Succeeds.antt =====
-- builder.go `Run`: where nothing is refused, a build returns its artifact.
use mathlib.Core.Path.{subst}
use packer_plugin_cloud_hype.Prelude.{ℕ, ◌≡◌, refl, sym, ◌≢◌, ◌∙◌, some, List, [], arith, ap}
use packer_plugin_cloud_hype.Runtime.{
  as_client, Client, is_ui, ui, ok, Files, continue, Platform, IsBag, IsClock, Machine, Step,
}
use packer_plugin_cloud_hype.Config.{Config}
use packer_plugin_cloud_hype.Ssh.{comm_host}
use packer_plugin_cloud_hype.Steps.Healthy.{
  IsHealthy, launch_run-goes, create_run-goes, boot_run-goes, files-launch_run, files-create_run,
  files-boot_run, files-shutdown_run,
}
use packer_plugin_cloud_hype.Builder.Vm.{build_vm_config}
use packer_plugin_cloud_hype.Steps.Launch.{new, launch_step}
use packer_plugin_cloud_hype.Steps.Launch.Laws.{launch_run-continue}
use packer_plugin_cloud_hype.Steps.CreateVm.{create_step}
use packer_plugin_cloud_hype.Steps.BootVm.{boot_step}
use packer_plugin_cloud_hype.Steps.ShutdownVm.{shutdown_step}
use packer_plugin_cloud_hype.Steps.ShutdownVm.Laws.{shutdown_run-continue}
use packer_plugin_cloud_hype.Steps.Keeps.{launch_run-Keeps}
use packer_plugin_cloud_hype.Steps.Collect.{writable, collect_step}
use packer_plugin_cloud_hype.Steps.Collect.Healthy.{Collectable, collect_run-goes}
use packer_plugin_cloud_hype.Builder.Runner.Completes.{Completes}
use packer_plugin_cloud_hype.Builder.Run.Keys.{create-Leaves, boot-Leaves, shutdown-Leaves}
use packer_plugin_cloud_hype.Builder.Run.Honest.{IsHonest}
use packer_plugin_cloud_hype.Builder.Run.Concludes.{build-Making}
use packer_plugin_cloud_hype.Builder.Run.Made.{made_by}
use packer_plugin_cloud_hype.Builder.Run.Cancelled.{first_bag-lacks}
use packer_plugin_cloud_hype.Builder.Run.{Sdk, run, build_steps, output_dir, first_bag}
use packer_plugin_cloud_hype.Builder.Run.Smooth.{
  IsSmooth, Going, arrived, going, Completes-Made, Begun, Connected, Connected-stays, smooth_goes,
}

module _ ⦃P : Platform⦄ (laws : IsBag P) (healthy : IsHealthy P) where
  launch_goes :
      (c : Config) (fs : Files) (w : Machine)
      → Begun fs w
      → let s = launch_step c.ch_binary_path c.ch_socket_path in
        ((s.run w).0 ≡ continue) × Connected (new c.ch_socket_path) fs (s.run w).1
  unfolding launch_step
  launch_goes c fs w (has_ui, files) =
      let is = ap is_ui has_ui in
      let goes = launch_run-goes healthy c.ch_binary_path c.ch_socket_path w is in
      let kept = launch_run-Keeps laws "ui" refl refl refl c.ch_binary_path c.ch_socket_path w in
      let held = launch_run-continue c.ch_binary_path c.ch_socket_path w laws is goes in
      (
        goes,
        ((kept ∙ has_ui, files-launch_run c.ch_binary_path c.ch_socket_path w ∙ files), held.0),
      )

  create_goes :
      (c : Config) (cl : Client) (fs : Files) (w : Machine)
      → Connected cl fs w
      → let s = create_step (build_vm_config c) in
        ((s.run w).0 ≡ continue) × Connected cl fs (s.run w).1
  create_goes c cl fs w h =
      let goes = create_run-goes healthy (build_vm_config c) w (ap is_ui h.0.0) h.1 in
      unfold create_step in
      (
        goes,
        Connected-stays cl fs (create_step (build_vm_config c)) w (create-Leaves laws "ui" refl c)
            (create-Leaves laws "ch_client" refl c) (files-create_run (build_vm_config c) w) h,
      )

  boot_goes :
      (cl : Client) (fs : Files) (w : Machine)
      → Connected cl fs w
      → ((boot_step.run w).0 ≡ continue) × Connected cl fs (boot_step.run w).1
  boot_goes cl fs w h =
      let goes = boot_run-goes healthy w (ap is_ui h.0.0) h.1 in
      unfold boot_step in
      (
        goes,
        Connected-stays cl fs boot_step w (boot-Leaves laws "ui" refl)
            (boot-Leaves laws "ch_client" refl) (files-boot_run w) h,
      )

  shutdown_goes :
      (time : P.State → ℕ) (cl : Client) (fs : Files)
      → IsClock P time
      → (w : Machine) → Connected cl fs w
      → ((shutdown_step.run w).0 ≡ continue) × Connected cl fs (shutdown_step.run w).1
  shutdown_goes time cl fs clock w h =
      let (goes, same) =
        shutdown_run-continue time clock w (ap is_ui h.0.0) (ap as_client h.1) healthy.live in
      unfold shutdown_step in
      (
        goes,
        Connected-stays cl fs shutdown_step w (shutdown-Leaves laws "ui" refl)
            (shutdown-Leaves laws "ch_client" refl) (files-shutdown_run w) h,
      )

  collect_goes :
      (c : Config) (cl : Client) (fs : Files) (w : Machine)
      → Collectable (output_dir c) (writable c.disk_images) fs
      → Connected cl fs w
      → ((collect_step c.disk_images (output_dir c)).run w).0 ≡ continue
  unfolding collect_step
  collect_goes c cl fs w fit ((has_ui, files), x) =
      collect_run-goes healthy.no_fault c.disk_images (output_dir c) w (ap is_ui has_ui)
        (subst (λ gs. Collectable (output_dir c) (writable c.disk_images) gs) (sym files) fit)

  build-Going :
      (time : P.State → ℕ) (sdk : Sdk) (c : Config) (fs : Files)
      → IsClock P time
      → IsSmooth (sdk.connect c.comm (comm_host c.network_interfaces))
      → IsSmooth sdk.provision
      → Collectable (output_dir c) (writable c.disk_images) fs
      → Going (Begun fs) (build_steps sdk c)
  build-Going time sdk c fs clock connect provision fit =
      let cl = new c.ch_socket_path in
      going (launch_goes c fs) (
        going (create_goes c cl fs) (
          going (boot_goes cl fs) (
            going (smooth_goes cl fs _ connect) (
              going (smooth_goes cl fs _ provision) (
                going (shutdown_goes time cl fs clock) (
                  going {next = λ u. Unit {0}} (λ w h. (collect_goes c cl fs w fit h, tt))
                    arrived))))))

  first_bag_ui : P.get_ok "ui" first_bag ≡ some ui
  unfolding first_bag
  first_bag_ui = simp laws.get_ok-put

  -- Where nothing is refused and the runner is never interrupted, a build of which the writable
  -- disks are files returns the artifact of those disks, if there is one at least, the output
  -- directory is no file, and no destination is the output directory or any directory. The state
  -- bag is a map, the clock does not run backwards and a sleep takes as long as it says. The SDK's
  -- steps go on without an error and leave the client, the ui and the files alone, and their
  -- cleanups write neither an error nor an artifact.
  pub run_succeeds :
      (time : P.State → ℕ) (sdk : Sdk) (c : Config) (w : Machine)
      → IsClock P time
      → ((steps : List Step) (u : Machine) → Completes steps u (sdk.runner steps u))
      → IsHonest (sdk.connect c.comm (comm_host c.network_interfaces))
      → IsHonest sdk.provision
      → IsSmooth (sdk.connect c.comm (comm_host c.network_interfaces))
      → IsSmooth sdk.provision
      → writable c.disk_images ≢ []
      → Collectable (output_dir c) (writable c.disk_images) w.files
      → (run sdk c w).0 ≡ ok (made_by c.disk_images (output_dir c))
  unfolding run
  run_succeeds time sdk c w clock uninterrupted connect_h provision_h connect_s provision_s
        some_disk fit =
      let first = record w { bag = first_bag } in
      let (clear, made) =
        Completes-Made _ (uninterrupted (build_steps sdk c) first)
          (build-Making laws healthy.live time sdk c clock connect_h provision_h some_disk)
          (build-Going time sdk c w.files clock connect_s provision_s fit) (first_bag_ui, refl)
          (first_bag-lacks laws).0 in
      ground arith
