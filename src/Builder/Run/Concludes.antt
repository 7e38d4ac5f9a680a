-- ===== src/Builder/Run/Concludes.antt =====
-- builder.go `Run`: a build that is not cancelled returns an artifact or the error of a step.
use packer_plugin_cloud_hype.Prelude.{
  ℕ, Str, false, ◌≢◌, Bool-cases, ◌≡◌, refl, ◌∙◌, ◌⊎◌, inl, inr, some, List, [], ◌∷◌, arith,
}
use packer_plugin_cloud_hype.Runtime.{
  Error, ok, err, failure, Artifact, artifact, continue, Platform, IsBag, IsClock, is_ui, Machine,
  Step,
}
use packer_plugin_cloud_hype.Config.{DiskImage, Config}
use packer_plugin_cloud_hype.Ssh.{comm_host}
use packer_plugin_cloud_hype.Steps.Collect.{writable, collect_run, collect_step}
use packer_plugin_cloud_hype.Steps.Collect.Outcome.{collect_run-artifact}
use packer_plugin_cloud_hype.Builder.Run.{Sdk, run, build_steps, output_dir, first_bag}
use packer_plugin_cloud_hype.Builder.Run.Made.{made_by}
use packer_plugin_cloud_hype.Builder.Run.Cancelled.{first_bag-lacks}
use packer_plugin_cloud_hype.Builder.Runner.{mark}
use packer_plugin_cloud_hype.Builder.Runner.Completes.{Completes, done, halted, passed}
use packer_plugin_cloud_hype.Builder.Run.Keys.{Holds-mark}
use packer_plugin_cloud_hype.Builder.Run.Honest.{
  Failed, IsClear, IsHonest, Failed-of_same, IsClear-of_continue, Failed-of_halt, launch-IsHonest,
  create-IsHonest, boot-IsHonest, shutdown-IsHonest, collect-IsHonest,
}

module _ ⦃P : Platform⦄ where
  -- The build has come to its artifact.
  abbrev pub Made : Artifact → Machine → Type 0
  Made a w = IsClear w × (P.get_ok "artifact" w.bag ≡ some (artifact a))

  -- Honest steps of which the last one makes the artifact.
  pub data Making (a : Artifact) : List Step → Type 0 where
    last :
        {s : Step}
        → IsHonest s
        → ((w : Machine)
            → (s.run w).0 ≡ continue
            → P.get_ok "artifact" (s.run w).1.bag ≡ some (artifact a))
        → Making a (s ∷ [])
    before : {s : Step} {rest : List Step} → IsHonest s → Making a rest → Making a (s ∷ rest)

  abbrev Ends : Artifact → Machine → Type 0
  Ends a w = Failed w ⊎ Made a w

  Ends-cleanup :
      (a : Artifact) (s : Step) (w : Machine) → IsHonest s → Ends a w → Ends a (s.cleanup w)
  Ends-cleanup a s w honest (inl failed) =
      inl (Failed-of_same w (s.cleanup w) (honest.keeps_error w) failed)
  Ends-cleanup a s w honest (inr (clear, made)) =
      inr (honest.keeps_error w ∙ clear, honest.keeps_artifact w ∙ made)

module _ ⦃P : Platform⦄ (laws : IsBag P) where
  Ends-halted :
      (a : Artifact) (s : Step) (w : Machine)
      → IsHonest s
      → Failed (s.run w).1
      → Ends a (s.cleanup (mark "halted" (s.run w).1))
  Ends-halted a s w honest (e, h) = Ends-cleanup a s (mark "halted" (s.run w).1) honest (
      inl
        (e, Holds-mark laws "error" (some (failure e)) refl refl "halted" (s.run w).1 (inr refl) h))

  Completes-Ends :
      (a : Artifact) {steps : List Step} {w v : Machine}
      → Completes steps w v
      → Making a steps
      → IsClear w
      → Ends a v
  Completes-Ends a (done same) making clear = elim making [ ]
  Completes-Ends a (halted {s = s} {w = w} h e) (last honest makes) clear =
      rw e (Ends-halted a s w honest (Failed-of_halt s w honest clear h))
  Completes-Ends a (halted {s = s} {w = w} h e) (before honest rest) clear =
      rw e (Ends-halted a s w honest (Failed-of_halt s w honest clear h))
  Completes-Ends a (passed {s = s} {w = w} {t = t} c (done same) e) (last honest makes) clear =
      rw (e, same)
        (Ends-cleanup a s (s.run w).1 honest
          (inr (IsClear-of_continue s w honest clear c, makes w c)))
  Completes-Ends a (passed {s = s} {w = w} {t = t} c r e) (before honest rest) clear =
      rw e (
        Ends-cleanup a s t honest
          (Completes-Ends a r rest (IsClear-of_continue s w honest clear c)))

  collect_run-makes :
      (disks : List DiskImage) (d : Str) (w : Machine)
      → writable disks ≢ []
      → (collect_run disks d w).0 ≡ continue
      → P.get_ok "artifact" (collect_run disks d w).1.bag ≡ some (artifact (made_by disks d))
  collect_run-makes disks d w some_disk c = elim (Bool-cases (is_ui (P.get_ok "ui" w.bag))) [
    | inl has ↦ (collect_run-artifact disks d w laws has some_disk c).0
    | inr lacks ↦ unfold collect_run in absurd (ground arith)
  ]

module _ ⦃P : Platform⦄ (laws : IsBag P) (live : (s : P.State) → (P.ctx_done s).0 ≡ false) where
  collect-Making :
      (c : Config)
      → writable c.disk_images ≢ []
      → Making
          (made_by c.disk_images (output_dir c))
          (collect_step c.disk_images (output_dir c) ∷ [])
  unfolding collect_step
  collect-Making c some_disk =
      last (collect-IsHonest laws live c)
        (λ u go. collect_run-makes laws c.disk_images (output_dir c) u some_disk go)

  pub build-Making :
      (time : P.State → ℕ) (sdk : Sdk) (c : Config)
      → IsClock P time
      → IsHonest (sdk.connect c.comm (comm_host c.network_interfaces))
      → IsHonest sdk.provision
      → writable c.disk_images ≢ []
      → Making (made_by c.disk_images (output_dir c)) (build_steps sdk c)
  build-Making time sdk c clock connect provision some_disk = before (launch-IsHonest laws live c) (
      before (create-IsHonest laws live c) (
        before (boot-IsHonest laws live) (
          before connect (
            before provision
              (before (shutdown-IsHonest laws live time clock) (collect-Making c some_disk))))))

  -- A build with a writable disk that is not cancelled returns the artifact of the writable disks,
  -- or the error that one of its steps has left in the state bag. The state bag is a map, the
  -- runner is never interrupted and the context never cancelled, the clock does not run backwards
  -- and a sleep takes as long as it says, and the SDK's steps halt exactly where they leave an
  -- error, while their cleanups write neither an error nor an artifact.
  pub run_concludes :
      (time : P.State → ℕ) (sdk : Sdk) (c : Config) (w : Machine)
      → IsClock P time
      → ((steps : List Step) (u : Machine) → Completes steps u (sdk.runner steps u))
      → IsHonest (sdk.connect c.comm (comm_host c.network_interfaces))
      → IsHonest sdk.provision
      → writable c.disk_images ≢ []
      → ((run sdk c w).0 ≡ ok (made_by c.disk_images (output_dir c)))
        ⊎ ((e : Error) × ((run sdk c w).0 ≡ err e)
            × (P.get_ok "error" (run sdk c w).1.bag ≡ some (failure e)))
  unfolding run
  run_concludes time sdk c w clock uninterrupted connect provision some_disk =
      let first = record w { bag = first_bag } in
      let making = build-Making time sdk c clock connect provision some_disk in
      elim (Completes-Ends laws _ (uninterrupted (build_steps sdk c) first) making
        (first_bag-lacks laws).0) [
          | inl (e, failed) ↦ inr (e, ground arith, failed)
          | inr (clear, made) ↦ inl (ground arith)
        ]
