-- ===== src/Builder/Run/Refines.antt =====
-- builder.go `Run`: the requests of a build follow the protocol.
use mathlib.Core.Path.{subst}
use packer_plugin_cloud_hype.Prelude.{◌≡◌, refl, sym, inl, inr, List, [], Str}
use packer_plugin_cloud_hype.Runtime.{Request, Platform, Machine, Step}
use packer_plugin_cloud_hype.Config.{Config}
use packer_plugin_cloud_hype.Chclient.VmConfig.{VmConfig}
use packer_plugin_cloud_hype.Ssh.{comm_host}
use packer_plugin_cloud_hype.Steps.CreateVm.{create_step}
use packer_plugin_cloud_hype.Steps.BootVm.{boot_step}
use packer_plugin_cloud_hype.Steps.Launch.{launch_step}
use packer_plugin_cloud_hype.Steps.ShutdownVm.{shutdown_step, shutdown_cleanup}
use packer_plugin_cloud_hype.Steps.Sent.{
  sent, launch_run-KeepsSent, shutdown_cleanup-KeepsSent, sent-launch_cleanup,
}
use packer_plugin_cloud_hype.Builder.Vm.{build_vm_config}
use packer_plugin_cloud_hype.Builder.Protocol.{Call, Phase, is_call}
use packer_plugin_cloud_hype.Builder.Runner.Invariants.{
  Link, Nested, Chain, nil, link, nest, Runs-keeps,
}
use packer_plugin_cloud_hype.Builder.Run.Created.{Unheard, collect-Unheard}
use packer_plugin_cloud_hype.Builder.Run.{Sdk, IsRunner, run, build_steps, first_bag}
use packer_plugin_cloud_hype.Builder.Run.Phases.{
  At, Follows, Over, Follows-of_Over, idle-ping, Over-delete, create_run-sent, create_run-made,
  boot_run-sent, boot_run-made, shutdown_run-Over,
}

-- The steps, each from its phase to the next.
module _ ⦃P : Platform⦄ where
  abbrev Sent : (List Request → Type 0) → Machine → Type 0
  Sent K w = K (sent w.log)

  launch-Follows :
      (binary socket : Str)
      → Link
          (Sent Follows)
          (Sent (At Phase.idle))
          (Sent (At Phase.idle))
          (launch_step binary socket)
  unfolding launch_step
  launch-Follows binary socket =
      let idle =
        launch_run-KeepsSent (is_call Call.ping) (At Phase.idle) idle-ping refl binary socket in
      record {
        stays = λ w h. (Phase.idle, idle w h);
        leads = λ w h c. idle w h;
        cleans = λ w h. subst Follows (sym (sent-launch_cleanup socket w)) h;
      }

  create-Follows :
      (v : VmConfig)
      → Link (Sent Follows) (Sent (At Phase.idle)) (Sent (At Phase.created)) (create_step v)
  unfolding create_step
  create-Follows v = record {
    stays = λ w h. elim (create_run-sent v w h) [
      | inl e ↦ (Phase.idle, e)
      | inr e ↦ (Phase.created, e)
    ];
    leads = λ w h c. create_run-made v w h c;
    cleans = λ w h. h;
  }

  boot-Follows : Link (Sent Follows) (Sent (At Phase.created)) (Sent (At Phase.booted)) boot_step
  unfolding boot_step
  boot-Follows = record {
    stays =
        λ w h. elim (boot_run-sent w h) [ inl e ↦ (Phase.created, e) | inr e ↦ (Phase.booted, e) ];
    leads = λ w h c. boot_run-made w h c;
    cleans = λ w h. h;
  }

  Unheard-Follows :
      (J K : List Request → Type 0) (s : Step)
      → ((rs : List Request) → K rs → J rs)
      → Unheard s
      → Link (Sent J) (Sent K) (Sent K) s
  Unheard-Follows J K s weak u = record {
    stays = λ w h. subst J (sym (u.in_run w)) (weak _ h);
    leads = λ w h c. subst K (sym (u.in_run w)) h;
    cleans = λ w h. subst J (sym (u.in_cleanup w)) h;
  }

  -- The cleanup of the shutdown may delete the virtual machine: it stands behind its run.
  shutdown-Follows :
      Nested (Sent Follows) (Sent Over) (Sent (At Phase.booted)) (Sent Over) shutdown_step
  unfolding shutdown_step
  shutdown-Follows = record {
    stays = shutdown_run-Over;
    leads = λ w h c. shutdown_run-Over w h;
    cleans = λ w h.
        Follows-of_Over (sent (shutdown_cleanup w).1.log)
          (shutdown_cleanup-KeepsSent (is_call Call.delete) Over Over-delete refl w h);
  }

  Follows-Chain :
      (sdk : Sdk) (c : Config)
      → Unheard (sdk.connect c.comm (comm_host c.network_interfaces))
      → Unheard sdk.provision
      → Chain (Sent Follows) (Sent (At Phase.idle)) (build_steps sdk c)
  Follows-Chain sdk c connect provision =
      let phase =
        λ (p : Phase) (rs : List Request) (h : At p rs). let f : Follows rs = (p, h) in f in
      let weak = λ (p : Phase) (w : Machine) (h : At p (sent w.log)). phase p (sent w.log) h in
      link (λ k w is_mark h. h) (weak Phase.idle) (launch-Follows c.ch_binary_path c.ch_socket_path)
        (link (λ k w is_mark h. h) (weak Phase.idle) (create-Follows (build_vm_config c))
          (link (λ k w is_mark h. h) (weak Phase.created) boot-Follows
            (link (λ k w is_mark h. h) (weak Phase.booted)
              (Unheard-Follows Follows (At Phase.booted) _ (phase Phase.booted) connect)
              (link (λ k w is_mark h. h) (weak Phase.booted)
                (Unheard-Follows Follows (At Phase.booted) _ (phase Phase.booted) provision)
                (nest (λ k w is_mark h. h) (λ k w is_mark h. h) (weak Phase.booted) shutdown-Follows
                  (link (λ k w is_mark h. h) (λ w h. h)
                    (Unheard-Follows Over Over _ (λ rs h. h) (collect-Unheard c))
                    (nil (λ w h. h))))))))

  -- The requests of every build whose log begins empty, wherever it ends and cleanups included, are
  -- a session that the protocol allows. The runner does what its documentation says, and the SDK's
  -- steps send the monitor nothing.
  pub run_refines :
      (sdk : Sdk) (c : Config) (w : Machine)
      → IsRunner sdk
      → Unheard (sdk.connect c.comm (comm_host c.network_interfaces))
      → Unheard sdk.provision
      → w.log ≡ []
      → Follows (sent (run sdk c w).1.log)
  unfolding run
  run_refines sdk c w runner connect provision fresh =
      let first = record w { bag = first_bag } in
      Runs-keeps (λ k u is_mark h. h) (runner (build_steps sdk c) first)
        (Follows-Chain sdk c connect provision) (rw fresh refl)
