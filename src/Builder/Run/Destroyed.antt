-- ===== src/Builder/Run/Destroyed.antt =====
-- builder.go `Run` and artifact.go `Destroy`: the artifact of a build can be taken back.
use packer_plugin_cloud_hype.Prelude.{◌≡◌, refl, false, none, ap, Str, if◌then◌else◌, is_empty, ◌∙◌}
use packer_plugin_cloud_hype.Runtime.{ok, Artifact, is_under, Platform, IsBag, Machine}
use packer_plugin_cloud_hype.Config.{Config}
use packer_plugin_cloud_hype.Ssh.{comm_host}
use packer_plugin_cloud_hype.Artifact.{destroy, destroy_lem}
use packer_plugin_cloud_hype.Builder.Run.Keys.{IsForeign}
use packer_plugin_cloud_hype.Builder.Run.Made.{run-artifact}
use packer_plugin_cloud_hype.Builder.Run.{Sdk, IsRunner, run, output_dir}

module _ ⦃P : Platform⦄ (laws : IsBag P) where
  -- Where the artifact that a build has returned is destroyed, at any later time, without an error,
  -- nothing is left at the output directory or under it, and every other path is as it was. The
  -- state bag is a map, the runner does what its documentation says, and the SDK's steps leave the
  -- plugin's keys alone.
  pub destroy-run :
      (sdk : Sdk) (c : Config) (w later : Machine) (q : Str) {a : Artifact}
      → IsRunner sdk
      → IsForeign (sdk.connect c.comm (comm_host c.network_interfaces))
      → IsForeign sdk.provision
      → (run sdk c w).0 ≡ ok a
      → (destroy a later).0 ≡ none
      → (destroy a later).1.files q ≡ (if is_under (output_dir c) q then none else later.files q)
  destroy-run sdk c w later q {a} runner connect provision returned gone =
      let (x, dir, y) = run-artifact laws sdk c w runner connect provision returned in
      let named : is_empty a.dir ≡ false = rw dir refl in
      destroy_lem a later q named gone
      ∙ ap (λ (d : Str). if is_under d q then none else later.files q) dir
