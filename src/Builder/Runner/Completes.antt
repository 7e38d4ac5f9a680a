-- ===== src/Builder/Runner/Completes.antt =====
-- The SDK's runner where the context of a build is never cancelled: no mark but the one of a halt,
-- and no end but a halt or the last step.
use packer_plugin_cloud_hype.Prelude.{◌≡◌, refl, inr, List, [], ◌∷◌}
use packer_plugin_cloud_hype.Runtime.{Platform, continue, halt, Machine, Step}
use packer_plugin_cloud_hype.Builder.Runner.{mark, unmarked, marked, Runs, finished, ended, went_on}

module _ ⦃P : Platform⦄ where
  pub data Completes : List Step → Machine → Machine → Type 0 where
    done : {w v : Machine} → v ≡ w → Completes [] w v
    halted :
        {s : Step} {rest : List Step} {w v : Machine}
        → (s.run w).0 ≡ halt
        → v ≡ s.cleanup (mark "halted" (s.run w).1)
        → Completes (s ∷ rest) w v
    passed :
        {s : Step} {rest : List Step} {w t v : Machine}
        → (s.run w).0 ≡ continue
        → Completes rest (s.run w).1 t
        → v ≡ s.cleanup t
        → Completes (s ∷ rest) w v

  -- It is one of the runner's ways.
  pub Runs-of_Completes : {steps : List Step} {w v : Machine} → Completes steps w v → Runs steps w v
  Runs-of_Completes (done e) = finished (unmarked e)
  Runs-of_Completes (halted h e) = ended (marked "halted" (inr refl) (unmarked refl) refl) e
  Runs-of_Completes (passed c r e) = went_on c (unmarked refl) (Runs-of_Completes r) e
