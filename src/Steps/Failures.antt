-- ===== src/Steps/Failures.antt =====
-- The steps that halt: the error that they leave in the state bag.
use packer_plugin_cloud_hype.Prelude.{
  ◌≡◌, ◌≢◌, ◌⊎◌, ℕ, zero, suc, Bool, Option, some, List, Str, true, false, arith,
}
use packer_plugin_cloud_hype.Runtime.{
  Error, Value, Client, failure, continue, Platform, IsBag, Machine, StepAction,
}
use packer_plugin_cloud_hype.Config.{DiskImage}
use packer_plugin_cloud_hype.Chclient.VmConfig.{VmConfig}
use packer_plugin_cloud_hype.Steps.Launch.{PingEnd, launch_run, ping_loop, settle}
use packer_plugin_cloud_hype.Steps.CreateVm.{create_run}
use packer_plugin_cloud_hype.Steps.BootVm.{boot_run}
use packer_plugin_cloud_hype.Steps.Collect.{collect_run}

abbrev is_failure : Option Value → Bool
is_failure (some (failure e)) = true
is_failure _ = false

module _ ⦃P : Platform⦄ where
  -- A step has gone on, or there is an error in the state bag for `Run` to return.
  abbrev pub GoesOnOrFails : StepAction × Machine → Type 0
  GoesOnOrFails r = (r.0 ≡ continue) ⊎ (is_failure (P.get_ok "error" r.1.bag) ≡ true)

module _ ⦃P : Platform⦄ where
  pub ping_loop-uncancelled :
      ((s : P.State) → (P.ctx_done s).0 ≡ false)
      → (c : Client) (n : ℕ) (last : Option Error) (w : Machine)
      → (ping_loop c n last w).0 ≢ PingEnd.cancelled
  unfolding ping_loop
  ping_loop-uncancelled live c zero last w = λ e. cc
  ping_loop-uncancelled live c (suc n) last w = grind (arith, live, ping_loop-uncancelled live c n)

  -- With a context that is never cancelled, each of the launch, the creation, the boot and the
  -- collection goes on, or leaves an error in the state bag. The state bag is a map.
  pub steps-GoesOnOrFails :
      (binary socket : Str) (v : VmConfig) (disks : List DiskImage) (d : Str) (w : Machine)
      → IsBag P
      → ((s : P.State) → (P.ctx_done s).0 ≡ false)
      → GoesOnOrFails (launch_run binary socket w)
        × GoesOnOrFails (create_run v w)
        × GoesOnOrFails (boot_run w)
        × GoesOnOrFails (collect_run disks d w)
  unfolding launch_run settle create_run boot_run collect_run
  steps-GoesOnOrFails binary socket v disks d w laws live = (
    grind (arith, laws.get_ok-put, ping_loop-uncancelled live),
    grind (arith, laws.get_ok-put),
    grind (arith, laws.get_ok-put),
    grind (arith, laws.get_ok-put),
  )
