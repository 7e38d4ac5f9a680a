-- ===== src/Builder/Run/Cancelled.antt =====
-- builder.go `Run`: what a build returns that is cancelled before it has begun.
use packer_plugin_cloud_hype.Prelude.{◌≡◌, refl, none}
use packer_plugin_cloud_hype.Runtime.{err, new, Platform, IsBag, Machine}
use packer_plugin_cloud_hype.Builder.Runner.{Marked}
use packer_plugin_cloud_hype.Builder.Runner.Invariants.{Marked-keeps}
use packer_plugin_cloud_hype.Builder.Run.Keys.{Holds, Holds-mark}
use packer_plugin_cloud_hype.Builder.Run.{first_bag, outcome}

module _ ⦃P : Platform⦄ (laws : IsBag P) where
  pub first_bag-lacks : (P.get_ok "error" first_bag ≡ none) × (P.get_ok "artifact" first_bag ≡ none)
  unfolding first_bag
  first_bag-lacks =
      (simp (laws.get_ok-put, laws.get_ok-empty), simp (laws.get_ok-put, laws.get_ok-empty))

  -- A build in which the runner has done no more than to put its marks returns the error that all
  -- disk images are read-only, whatever they are. The state bag is a map.
  pub outcome-Marked :
      (w v : Machine)
      → Marked (record w { bag = first_bag }) v
      → outcome v.bag ≡ err (new "no artifact produced: all disk images are read-only")
  unfolding outcome
  outcome-Marked w v m =
      let no_error =
        Marked-keeps (Holds laws "error" none) (Holds-mark laws "error" none refl refl) m
          first_bag-lacks.0 in
      let no_artifact =
        Marked-keeps (Holds laws "artifact" none) (Holds-mark laws "artifact" none refl refl) m
          first_bag-lacks.1 in
      rw (no_error, no_artifact) refl
