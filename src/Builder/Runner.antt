-- ===== src/Builder/Runner.antt =====
-- The SDK's runner of steps, as its documentation describes it: a relation between the machine
-- before and after a run. The steps run in their order until one halts or the context is cancelled,
-- and the steps that ran are cleaned up in the reverse order.
pub mod Invariants
pub mod Completes
use packer_plugin_cloud_hype.Prelude.{String, ◌≡◌, ◌⊎◌, List, [], ◌∷◌}
use packer_plugin_cloud_hype.Runtime.{foreign, Platform, continue, Machine, Step}

module _ ⦃P : Platform⦄ where
  -- The runner's own marks, `multistep.StateCancelled` and `multistep.StateHalted`.
  abbrev pub mark : String → Machine → Machine
  mark k w = record w { bag = P.put k (foreign 0) w.bag }

  -- The marks may come at any time, since another thread puts them.
  pub data Marked (w : Machine) : Machine → Type 0 where
    unmarked : {v : Machine} → v ≡ w → Marked w v
    marked :
        {u v : Machine} (k : String)
        → (k ≡ "cancelled") ⊎ (k ≡ "halted")
        → Marked w u
        → v ≡ mark k u
        → Marked w v

  pub data Runs : List Step → Machine → Machine → Type 0 where
    finished : {w v : Machine} → Marked w v → Runs [] w v
    -- The context is cancelled before the next step.
    stopped : {steps : List Step} {w v : Machine} → Marked w v → Runs steps w v
    -- The step halts, or the context is cancelled while it runs.
    ended :
        {s : Step} {rest : List Step} {w u v : Machine}
        → Marked (s.run w).1 u
        → v ≡ s.cleanup u
        → Runs (s ∷ rest) w v
    went_on :
        {s : Step} {rest : List Step} {w u t v : Machine}
        → (s.run w).0 ≡ continue
        → Marked (s.run w).1 u
        → Runs rest u t
        → v ≡ s.cleanup t
        → Runs (s ∷ rest) w v
