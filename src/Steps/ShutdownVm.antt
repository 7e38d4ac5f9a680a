-- ===== src/Steps/ShutdownVm.antt =====
-- builder/cloud-hypervisor/step_shutdown_vm.go: the request, the poll of `vm.info` up to a deadline,
-- and the deletion by force. Times are in milliseconds.
pub mod Laws
use packer_plugin_cloud_hype.Prelude.{ℕ, zero, suc, ◌+◌, true, false, Option, none, some, ltb}
use packer_plugin_cloud_hype.Runtime.{
  Error, wrap, ok, err, Client, as_client, Platform, Context, say, debug, ui_error, StepAction,
  continue, halt, M, pure, ◌>>=◌, ◌>>◌, emit, get, ask, sleep, Step,
}
use packer_plugin_cloud_hype.Chclient.Api.{shutdown_vm, vm_info, delete_vm}
use packer_plugin_cloud_hype.Steps.Common.{with_client}

abbrev pub shutdown_poll_interval : ℕ
shutdown_poll_interval = 2000

abbrev pub shutdown_timeout : ℕ
shutdown_timeout = 30000

-- 15 intervals fill the timeout, and the 16th round finds the deadline passed.
abbrev pub poll_fuel : ℕ
poll_fuel = 16

pub data PollEnd : Type 0 where
  cancelled gone timed_out out_of_fuel : PollEnd

abbrev shown : Option Error → Option Error
shown none = none
shown (some e) = some (wrap "Error shutting down VM (continuing)" e)

module _ ⦃P : Platform⦄ where
  abbrev pub report : Option Error → M (Unit {0})
  report none = pure tt
  report (some e) = emit (ui_error e)

  -- The loop; each round reads the clock, and the context, and asks for the machine.
  unfoldable pub poll : ℕ → ℕ → Client → M PollEnd
  poll zero deadline c = pure PollEnd.out_of_fuel
  poll (suc fuel) deadline c = do
    t ← ask P.now
    elim (ltb t deadline) [
      | false ↦ pure PollEnd.timed_out
      | true ↦ do
        done ← ask P.ctx_done
        elim done [
          | true ↦ pure PollEnd.cancelled
          | false ↦ do
            r ← vm_info c Context.build
            elim r [
              | err e ↦ pure PollEnd.gone
              | ok body ↦ do sleep shutdown_poll_interval; poll fuel deadline c
            ]
        ]
    ]

  unfoldable pub force_delete : Client → M StepAction
  force_delete c = do
    emit (say "Shutdown timeout reached, force deleting VM...")
    e ← delete_vm c Context.build
    report (elim e [ none ↦ none | some cause ↦ some (wrap "Error force deleting VM" cause) ])
    pure continue

  abbrev ended : Client → PollEnd → M StepAction
  ended c PollEnd.cancelled = pure halt
  ended c PollEnd.gone = pure continue
  ended c PollEnd.timed_out = force_delete c
  ended c PollEnd.out_of_fuel = pure halt

  unfoldable pub shutdown_body : ℕ → Client → M StepAction
  unfolding force_delete
  shutdown_body fuel c = do
    emit (say "Shutting down Cloud-Hypervisor VM...")
    e ← shutdown_vm c Context.build
    report (shown e)
    emit (say "Waiting for VM to shut down...")
    t ← ask P.now
    end ← poll fuel (t + shutdown_timeout) c
    ended c end

  unfoldable pub shutdown_run : ℕ → M StepAction
  unfolding shutdown_body
  shutdown_run fuel = with_client (shutdown_body fuel)

  abbrev delete_quietly : Option Client → M (Unit {0})
  delete_quietly none = pure tt
  delete_quietly (some c) = do
    e ← delete_vm c Context.background
    elim e [ none ↦ pure tt | some cause ↦ emit (debug "Error deleting VM during cleanup") ]

  unfoldable pub shutdown_cleanup : M (Unit {0})
  shutdown_cleanup = do raw ← get "ch_client"; delete_quietly (as_client raw)

  unfoldable pub shutdown_step : Step
  unfolding shutdown_run shutdown_cleanup
  shutdown_step = record { run = shutdown_run poll_fuel; cleanup = λ w. (shutdown_cleanup w).1 }
