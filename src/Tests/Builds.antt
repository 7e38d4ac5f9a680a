-- ===== src/Tests/Builds.antt =====
-- Whole builds, and the theorems about them.
use packer_plugin_cloud_hype.Prelude.{
  none, Str, ◌⊎◌, some, ◌≡◌, refl, ◌≢◌, inl, str_eq, [], ◌∷◌, map, codes,
}
use packer_plugin_cloud_hype.Runtime.{Error, failure, ok, err, new, Artifact, Result, Machine}
use packer_plugin_cloud_hype.Runtime.{os_remove, os_mkdir_all, os_open, os_create, io_copy}
use packer_plugin_cloud_hype.Chclient.Api.{
  ping, do_request, answer, create_vm, boot_vm, shutdown_vm, delete_vm, vm_info,
}
use packer_plugin_cloud_hype.Steps.Launch.{launch_step, launch_run, ping_loop}
use packer_plugin_cloud_hype.Steps.CreateVm.{create_step, create_run}
use packer_plugin_cloud_hype.Steps.BootVm.{boot_step, boot_run}
use packer_plugin_cloud_hype.Steps.ShutdownVm.{shutdown_step, poll}
use packer_plugin_cloud_hype.Steps.Collect.{
  writable, destination, copy_file, copy_all, collect_step, collect_run,
}
use packer_plugin_cloud_hype.Steps.Failures.{GoesOnOrFails, steps-GoesOnOrFails}
use packer_plugin_cloud_hype.Builder.Run.{run, first_bag, output_dir, outcome}
use packer_plugin_cloud_hype.Builder.Runner.{mark, marked, unmarked}
use packer_plugin_cloud_hype.Builder.Run.Cancelled.{outcome-Marked}
use packer_plugin_cloud_hype.Builder.Run.Cleanup.{Stopped, run-Stopped}
use packer_plugin_cloud_hype.Ssh.{comm_host}
use packer_plugin_cloud_hype.Steps.Sent.{sent}
use packer_plugin_cloud_hype.Builder.Vm.{build_vm_config}
use packer_plugin_cloud_hype.Builder.Run.Created.{Unheard, Ordered}
use packer_plugin_cloud_hype.Builder.Run.Order.{run-Ordered}
use packer_plugin_cloud_hype.Builder.Run.Made.{made_by, run-artifact}
use packer_plugin_cloud_hype.Builder.Run.Phases.{Follows}
use packer_plugin_cloud_hype.Builder.Run.Refines.{run_refines}
use packer_plugin_cloud_hype.Builder.Run.Honest.{IsHonest}
use packer_plugin_cloud_hype.Builder.Run.Concludes.{run_concludes}
use packer_plugin_cloud_hype.Builder.Run.Bag
use packer_plugin_cloud_hype.Builder.Run.Bag.{IsAside, run-IsValid}
use packer_plugin_cloud_hype.Builder.Run.Succeeds.{run_succeeds}
use packer_plugin_cloud_hype.Builder.Run.Smooth.{IsSmooth}
use packer_plugin_cloud_hype.Steps.Collect.Healthy.{Collectable}
use packer_plugin_cloud_hype.Go.Strings.{has_prefix}
use packer_plugin_cloud_hype.Artifact.{destroy}
use packer_plugin_cloud_hype.Builder.Run.Destroyed.{destroy-run}
use packer_plugin_cloud_hype.Runtime.{os_remove_all}
use packer_plugin_cloud_hype.Tests.World.{
  world-IsHealthy, world-IsClock, sdk-Completes, passing-Leaves, world, world-IsBag, sdk,
  sdk-IsRunner, provision-IsForeign, connect-IsForeign, config, machine, disk,
}

-- A build with all that it calls.
built : Machine → Result Artifact × Machine
unfolding str_eq delete_vm run sdk launch_step ping_loop ping do_request answer os_remove
    create_step create_vm boot_step boot_vm shutdown_step poll shutdown_vm vm_info collect_step
    writable os_mkdir_all copy_all copy_file os_open os_create io_copy destination
built = run sdk config

built_runs :
    (run sdk config machine).0
    ≡ ok (record { dir = codes "output-web"; files_list = codes "output-web/d.img" ∷ [] })
unfolding built
built_runs = refl

run-Stopped_example : Stopped config (record machine { bag = first_bag }) (run sdk config machine).1
run-Stopped_example =
    run-Stopped world-IsBag sdk config machine sdk-IsRunner (connect-IsForeign _)
      provision-IsForeign

run-artifact_example :
    (writable config.disk_images ≢ [])
    × (output_dir config ≡ codes "output-web")
    × (codes "output-web/d.img" ∷ []
        ≡ map (destination (output_dir config)) (writable config.disk_images))
run-artifact_example =
    run-artifact world-IsBag sdk config machine sdk-IsRunner (connect-IsForeign _)
      provision-IsForeign built_runs

provision-Unheard : Unheard sdk.provision
unfolding sdk
provision-Unheard = record { in_run = λ w. refl; in_cleanup = λ w. refl }

connect-Unheard : Unheard (sdk.connect tt [])
unfolding sdk
connect-Unheard = record { in_run = λ w. refl; in_cleanup = λ w. refl }

run-Ordered_example : Ordered (build_vm_config config) (sent (run sdk config machine).1.log)
unfolding comm_host
run-Ordered_example =
    run-Ordered sdk config machine sdk-IsRunner connect-Unheard provision-Unheard refl

-- The requests of that build, newest first: the shutdown, the boot and the creation among them.
built_paths :
    map (λ r. r.path) (sent (run sdk config machine).1.log)
    ≡ "/api/v1/vm.delete" ∷ "/api/v1/vm.info" ∷ "/api/v1/vm.shutdown" ∷ "/api/v1/vm.boot"
      ∷ "/api/v1/vm.create" ∷ "/api/v1/vmm.ping" ∷ []
unfolding built
built_paths = refl

steps-GoesOnOrFails_example :
    GoesOnOrFails (launch_run (codes "cloud-hypervisor") (codes "/tmp/s") machine)
    × GoesOnOrFails (create_run (build_vm_config config) machine)
    × GoesOnOrFails (boot_run machine)
    × GoesOnOrFails (collect_run (disk ∷ []) (codes "output-web") machine)
steps-GoesOnOrFails_example =
    steps-GoesOnOrFails (codes "cloud-hypervisor") (codes "/tmp/s") (build_vm_config config)
      (disk ∷ []) (codes "output-web") machine world-IsBag (λ s. refl)

abbrev begun : Machine
begun = record machine { bag = first_bag }

outcome-Marked_example :
    outcome (mark "cancelled" begun).bag
    ≡ err (new "no artifact produced: all disk images are read-only")
outcome-Marked_example =
    outcome-Marked world-IsBag machine (mark "cancelled" begun)
      (marked "cancelled" (inl refl) (unmarked refl) refl)

-- The build of the machine above, and its requests against the protocol.
run_refines_example : Follows (sent (run sdk config machine).1.log)
unfolding comm_host
run_refines_example =
    run_refines sdk config machine sdk-IsRunner connect-Unheard provision-Unheard refl

provision-IsAside : IsAside sdk.provision
provision-IsAside = record {
  leaves_ui = passing-Leaves "ui";
  leaves_client = passing-Leaves "ch_client";
  leaves_cmd = passing-Leaves "ch_cmd";
}

connect-IsAside : (host : Str) → IsAside (sdk.connect tt host)
unfolding sdk
connect-IsAside host = provision-IsAside

run-IsValid_example : Bag.IsValid config.ch_socket_path (run sdk config machine).1
run-IsValid_example =
    run-IsValid world-IsBag sdk config machine sdk-IsRunner (connect-IsAside _) provision-IsAside

provision-IsHonest : IsHonest sdk.provision
unfolding sdk
provision-IsHonest = record {
  tells = λ w clear. inl (refl, clear);
  keeps_error = λ w. refl;
  keeps_artifact = λ w. refl;
}

connect-IsHonest : (host : Str) → IsHonest (sdk.connect tt host)
unfolding sdk
connect-IsHonest host = provision-IsHonest

some_disk : writable config.disk_images ≢ []
unfolding writable
some_disk = λ e. cc

run_concludes_example :
    ((run sdk config machine).0 ≡ ok (made_by config.disk_images (output_dir config)))
    ⊎ ((e : Error) × ((run sdk config machine).0 ≡ err e)
        × (world.get_ok "error" (run sdk config machine).1.bag ≡ some (failure e)))
run_concludes_example =
    run_concludes world-IsBag (λ s. refl) (λ s. s) sdk config machine world-IsClock sdk-Completes
      (connect-IsHonest _) provision-IsHonest some_disk

provision-IsSmooth : IsSmooth sdk.provision
unfolding sdk
provision-IsSmooth = record {
  goes_on = λ w. refl;
  leaves_ui = passing-Leaves "ui";
  leaves_client = passing-Leaves "ch_client";
  same_files = λ w. refl;
}

connect-IsSmooth : (host : Str) → IsSmooth (sdk.connect tt host)
unfolding sdk
connect-IsSmooth host = provision-IsSmooth

machine-Collectable : Collectable (output_dir config) (writable config.disk_images) machine.files
unfolding writable destination str_eq
machine-Collectable = (refl, (refl, tt), ((refl, refl), tt))

run_succeeds_example :
    (run sdk config machine).0 ≡ ok (made_by config.disk_images (output_dir config))
run_succeeds_example =
    run_succeeds world-IsBag world-IsHealthy (λ s. s) sdk config machine world-IsClock sdk-Completes
      (connect-IsHonest _) provision-IsHonest (connect-IsSmooth _) provision-IsSmooth some_disk
      machine-Collectable

destroyed :
    (destroy
      (record { dir = codes "output-web"; files_list = codes "output-web/d.img" ∷ [] })
      (run sdk config machine).1).0
    ≡ none
unfolding destroy os_remove_all
destroyed = refl

destroy-run_example :
    (destroy
        (record { dir = codes "output-web"; files_list = codes "output-web/d.img" ∷ [] })
        (run sdk config machine).1).1.files
      (codes "output-web/d.img")
    ≡ none
unfolding str_eq has_prefix
destroy-run_example =
    destroy-run world-IsBag sdk config machine (run sdk config machine).1 (codes "output-web/d.img")
      sdk-IsRunner (connect-IsForeign _) provision-IsForeign built_runs destroyed
