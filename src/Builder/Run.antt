-- ===== src/Builder/Run.antt =====
-- builder/cloud-hypervisor/builder.go `Run`: the steps of a build, its state bag and its outcome.
pub mod Keys
pub mod Made
pub mod Created
pub mod Order
pub mod Phases
pub mod Refines
pub mod Bag
pub mod Cancelled
pub mod Cleanup
pub mod Honest
pub mod Concludes
pub mod Smooth
pub mod Succeeds
pub mod Destroyed
use packer_plugin_cloud_hype.Prelude.{◌≡◌, Option, none, some, List, [], ◌∷◌, ◌++◌, Str, codes}
use packer_plugin_cloud_hype.Runtime.{
  Error, new, Result, ok, err, Artifact, Value, ui, hook, settings, generated_data, as_error,
  as_artifact, Platform, Machine, M, Step,
}
use packer_plugin_cloud_hype.Config.{Config}
use packer_plugin_cloud_hype.Ssh.{comm_host}
use packer_plugin_cloud_hype.Steps.Launch.{launch_step}
use packer_plugin_cloud_hype.Steps.CreateVm.{create_step}
use packer_plugin_cloud_hype.Steps.BootVm.{boot_step}
use packer_plugin_cloud_hype.Steps.ShutdownVm.{shutdown_step}
use packer_plugin_cloud_hype.Steps.Collect.{collect_step}
use packer_plugin_cloud_hype.Builder.Vm.{build_vm_config}
use packer_plugin_cloud_hype.Builder.Runner.{Runs}

abbrev or_unknown : Option Error → Error
or_unknown (some e) = e
or_unknown none = new "unknown error in state bag"

abbrev or_no_artifact : Option Artifact → Result Artifact
or_no_artifact (some a) = ok a
or_no_artifact none = err (new "no artifact produced: all disk images are read-only")

abbrev conclude : Option Value → Option Value → Result Artifact
conclude (some v) made = err (or_unknown (as_error v))
conclude none made = or_no_artifact (as_artifact made)

module _ ⦃P : Platform⦄ where
  -- The SDK's steps that a build uses, and its runner.
  pub record Sdk : Type 0 where
    pub connect : P.CommConfig → Str → Step
    pub provision : Step
    pub runner : List Step → Machine → Machine

  abbrev pub output_dir : Config → Str
  output_dir c = codes "output-" ++ P.build_name c.packer

  -- The steps behind the launch.
  abbrev pub rest_steps : Sdk → Config → List Step
  rest_steps sdk c =
      create_step (build_vm_config c)
      ∷ boot_step
      ∷ sdk.connect c.comm (comm_host c.network_interfaces)
      ∷ sdk.provision
      ∷ shutdown_step
      ∷ collect_step c.disk_images (output_dir c)
      ∷ []

  abbrev pub build_steps : Sdk → Config → List Step
  build_steps sdk c = launch_step c.ch_binary_path c.ch_socket_path ∷ rest_steps sdk c

  -- The state bag that a build begins with.
  unfoldable pub first_bag : P.Bag
  first_bag =
      P.put "generated_data" generated_data
        (P.put "config" settings (P.put "ui" ui (P.put "hook" hook P.empty_bag)))

  -- What `Run` returns, by the state bag that the runner leaves.
  unfoldable pub outcome : P.Bag → Result Artifact
  outcome b = conclude (P.get_ok "error" b) (P.get_ok "artifact" b)

  unfoldable pub run : Sdk → Config → M (Result Artifact)
  unfolding first_bag outcome
  run sdk c w =
      let v = sdk.runner (build_steps sdk c) (record w { bag = first_bag }) in (outcome v.bag, v)

  -- The runner does what its documentation says.
  abbrev pub IsRunner : Sdk → Type 0
  IsRunner sdk = (steps : List Step) (w : Machine) → Runs steps w (sdk.runner steps w)
