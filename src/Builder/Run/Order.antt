-- ===== src/Builder/Run/Order.antt =====
-- builder.go `Run`: the order of the requests of a build.
use packer_plugin_cloud_hype.Prelude.{◌≡◌, refl, sym, [], Str}
use mathlib.Core.Path.{subst}
use packer_plugin_cloud_hype.Runtime.{Platform, Machine, Step}
use packer_plugin_cloud_hype.Config.{Config}
use packer_plugin_cloud_hype.Chclient.VmConfig.{VmConfig}
use packer_plugin_cloud_hype.Ssh.{comm_host}
use packer_plugin_cloud_hype.Steps.CreateVm.{create_step}
use packer_plugin_cloud_hype.Steps.BootVm.{boot_step}
use packer_plugin_cloud_hype.Steps.Launch.{launch_step}
use packer_plugin_cloud_hype.Steps.ShutdownVm.{shutdown_step, poll_fuel}
use packer_plugin_cloud_hype.Steps.Sent.{
  sent, not_boot, launch_run-KeepsSent, shutdown_run-KeepsSent, shutdown_cleanup-KeepsSent,
  sent-launch_cleanup,
}
use packer_plugin_cloud_hype.Builder.Vm.{build_vm_config}
use packer_plugin_cloud_hype.Builder.Runner.Invariants.{Link, Chain, nil, link, Runs-keeps}
use packer_plugin_cloud_hype.Builder.Run.{Sdk, IsRunner, run, build_steps, first_bag}
use packer_plugin_cloud_hype.Builder.Run.Created.{
  NoBoot, Ordered, Unheard, Ready, Ordered-of_NoBoot, Ordered-stable, Ready-stable,
  create_run-Ordered, create_run-Created, boot_run-Ready, collect-Unheard,
}

-- A step in the order: what it needs before, what holds at its end and behind it.
module _ ⦃P : Platform⦄ (v : VmConfig) where
  abbrev Silent : Machine → Type 0
  Silent w = NoBoot (sent w.log)

  abbrev Kept : Machine → Type 0
  Kept w = Ordered v (sent w.log)

  abbrev Asked : Machine → Type 0
  Asked w = Ready v (sent w.log)

  launch-Link : (binary socket : Str) → Link Kept Silent Silent (launch_step binary socket)
  unfolding launch_step
  launch-Link binary socket =
      let silent = launch_run-KeepsSent not_boot NoBoot (λ r rs h k. (h, k)) refl binary socket in
      record {
        stays = λ w h. Ordered-of_NoBoot v _ (silent w h);
        leads = λ w h c. silent w h;
        cleans = λ w h. subst (Ordered v) (sym (sent-launch_cleanup socket w)) h;
      }

  create-Link : Link Kept Silent Asked (create_step v)
  unfolding create_step
  create-Link = record {
    stays = λ w h. create_run-Ordered v w (Ordered-of_NoBoot v _ h);
    leads = λ w h c. (create_run-Created v w c, create_run-Ordered v w (Ordered-of_NoBoot v _ h));
    cleans = λ w h. h;
  }

  boot-Link : Link Kept Asked Asked boot_step
  unfolding boot_step
  boot-Link = record {
    stays = λ w h. (boot_run-Ready v w h).1;
    leads = λ w h c. boot_run-Ready v w h;
    cleans = λ w h. h;
  }

  Unheard-Link : (s : Step) → Unheard s → Link Kept Asked Asked s
  Unheard-Link s u = record {
    stays = λ w h. subst (Ordered v) (sym (u.in_run w)) h.1;
    leads = λ w h c. subst (Ready v) (sym (u.in_run w)) h;
    cleans = λ w h. subst (Ordered v) (sym (u.in_cleanup w)) h;
  }

  shutdown-Link : Link Kept Asked Asked shutdown_step
  unfolding shutdown_step
  shutdown-Link =
      let ready =
        shutdown_run-KeepsSent not_boot (Ready v) (Ready-stable v) poll_fuel refl refl refl in
      record {
        stays = λ w h. (ready w h).1;
        leads = λ w h c. ready w h;
        cleans = shutdown_cleanup-KeepsSent not_boot (Ordered v) (Ordered-stable v) refl;
      }

module _ ⦃P : Platform⦄ where
  order-Chain :
      (sdk : Sdk) (c : Config)
      → Unheard (sdk.connect c.comm (comm_host c.network_interfaces))
      → Unheard sdk.provision
      → Chain (Kept (build_vm_config c)) (Silent (build_vm_config c)) (build_steps sdk c)
  order-Chain sdk c connect provision =
      let v = build_vm_config c in
      let ready = λ (w : Machine) (h : Asked v w). h.1 in
      let silent = λ (w : Machine) (h : Silent v w). Ordered-of_NoBoot v _ h in
      link (λ k w is_mark h. h) silent (launch-Link v c.ch_binary_path c.ch_socket_path)
        (link (λ k w is_mark h. h) silent (create-Link v)
          (link (λ k w is_mark h. h) ready (boot-Link v)
            (link (λ k w is_mark h. h) ready (Unheard-Link v _ connect)
              (link (λ k w is_mark h. h) ready (Unheard-Link v _ provision)
                (link (λ k w is_mark h. h) ready (shutdown-Link v)
                  (link (λ k w is_mark h. h) ready (Unheard-Link v _ (collect-Unheard c))
                    (nil ready)))))))

  -- In a build whose log begins empty, every request to boot comes behind a request to create the
  -- virtual machine that buildVMConfig describes. The runner does what its documentation says, and
  -- the SDK's steps send the monitor nothing.
  pub run-Ordered :
      (sdk : Sdk) (c : Config) (w : Machine)
      → IsRunner sdk
      → Unheard (sdk.connect c.comm (comm_host c.network_interfaces))
      → Unheard sdk.provision
      → w.log ≡ []
      → Ordered (build_vm_config c) (sent (run sdk c w).1.log)
  unfolding run
  run-Ordered sdk c w runner connect provision fresh =
      let first = record w { bag = first_bag } in
      Runs-keeps (λ k u is_mark h. h) (runner (build_steps sdk c) first)
        (order-Chain sdk c connect provision) (rw fresh tt)
