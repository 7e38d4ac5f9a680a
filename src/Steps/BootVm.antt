-- ===== src/Steps/BootVm.antt =====
-- builder/cloud-hypervisor/step_boot_vm.go
use packer_plugin_cloud_hype.Prelude.{none, some}
use packer_plugin_cloud_hype.Runtime.{
  wrap, Platform, Context, say, StepAction, continue, M, pure, ◌>>=◌, ◌>>◌, emit, Step,
}
use packer_plugin_cloud_hype.Chclient.Api.{boot_vm}
use packer_plugin_cloud_hype.Steps.Common.{fail, with_client}

module _ ⦃P : Platform⦄ where
  unfoldable pub boot_run : M StepAction
  boot_run = with_client (λ c. do
    emit (say "Booting Cloud-Hypervisor VM...")
    e ← boot_vm c Context.build
    elim e [ some cause ↦ fail (wrap "error booting VM" cause) | none ↦ pure continue ])

  unfoldable pub boot_step : Step
  unfolding boot_run
  boot_step = record { run = boot_run; cleanup = λ w. w }
