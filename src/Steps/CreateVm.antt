-- ===== src/Steps/CreateVm.antt =====
-- builder/cloud-hypervisor/step_create_vm.go
use packer_plugin_cloud_hype.Prelude.{none, some}
use packer_plugin_cloud_hype.Runtime.{
  wrap, Platform, Context, say, StepAction, continue, M, pure, ◌>>=◌, ◌>>◌, emit, Step,
}
use packer_plugin_cloud_hype.Chclient.VmConfig.{VmConfig}
use packer_plugin_cloud_hype.Chclient.Api.{create_vm}
use packer_plugin_cloud_hype.Steps.Common.{fail, with_client}

module _ ⦃P : Platform⦄ where
  unfoldable pub create_run : VmConfig → M StepAction
  create_run config = with_client (λ c. do
    emit (say "Creating Cloud-Hypervisor VM...")
    e ← create_vm c Context.build config
    elim e [ some cause ↦ fail (wrap "error creating VM" cause) | none ↦ pure continue ])

  unfoldable pub create_step : VmConfig → Step
  unfolding create_run
  create_step config = record { run = create_run config; cleanup = λ w. w }
