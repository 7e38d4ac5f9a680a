-- ===== src/Builder/Run/Smooth.antt =====
-- builder.go `Run`: steps that all go on, each from what the one before it has left.
use packer_plugin_cloud_hype.Prelude.{◌≡◌, ◌∙◌, some, List, [], ◌∷◌, arith}
use packer_plugin_cloud_hype.Runtime.{
  Client, client, ui, Files, Artifact, continue, Platform, Machine, Step,
}
use packer_plugin_cloud_hype.Builder.Runner.Completes.{Completes, done, halted, passed}
use packer_plugin_cloud_hype.Builder.Run.Keys.{Leaves}
use packer_plugin_cloud_hype.Builder.Run.Honest.{IsHonest, IsClear, IsClear-of_continue}
use packer_plugin_cloud_hype.Builder.Run.Concludes.{Made, Making, last, before}

module _ ⦃P : Platform⦄ where
  -- A step of the SDK that goes on and leaves the ui, the client and the files alone.
  pub record IsSmooth (s : Step) : Type 0 where
    pub goes_on : (w : Machine) → (s.run w).0 ≡ continue
    pub leaves_ui : Leaves "ui" s
    pub leaves_client : Leaves "ch_client" s
    pub same_files : (w : Machine) → (s.run w).1.files ≡ w.files

  -- Steps that all go on, each from what the one before it has left.
  pub data Going : (Machine → Type 0) → List Step → Type 1 where
    arrived : {pre : Machine → Type 0} → Going pre []
    going :
        {pre next : Machine → Type 0} {s : Step} {rest : List Step}
        → ((w : Machine) → pre w → ((s.run w).0 ≡ continue) × next (s.run w).1)
        → Going next rest
        → Going pre (s ∷ rest)

  Made-cleanup :
      (a : Artifact) (s : Step) (w : Machine) → IsHonest s → Made a w → Made a (s.cleanup w)
  Made-cleanup a s w honest (clear, made) =
      (honest.keeps_error w ∙ clear, honest.keeps_artifact w ∙ made)

  pub Completes-Made :
      (a : Artifact) {steps : List Step} {w v : Machine}
      → Completes steps w v
      → Making a steps
      → {pre : Machine → Type 0} → Going pre steps
      → pre w
      → IsClear w
      → Made a v
  Completes-Made a (done same) making path h clear = elim making [ ]
  Completes-Made a (halted {w = w} stops e) making (going goes path) h clear =
      let on = (goes w h).0 in absurd (ground arith)
  Completes-Made a (passed {s = s} {w = w} c (done same) e) (last honest makes) path h clear =
      rw (e, same)
        (Made-cleanup a s (s.run w).1 honest (IsClear-of_continue s w honest clear c, makes w c))
  Completes-Made a (passed {s = s} {w = w} {t = t} c r e) (before honest making) (going goes path) h
        clear =
      rw e (
        Made-cleanup a s t honest
          (Completes-Made a r making path (goes w h).1 (IsClear-of_continue s w honest clear c)))

  -- The ui is there, and the files are as they were.
  abbrev pub Begun : Files → Machine → Type 0
  Begun fs w = (P.get_ok "ui" w.bag ≡ some ui) × (w.files ≡ fs)

  -- And so is the client.
  abbrev pub Connected : Client → Files → Machine → Type 0
  Connected c fs w = Begun fs w × (P.get_ok "ch_client" w.bag ≡ some (client c))

  pub Connected-stays :
      (c : Client) (fs : Files) (s : Step) (w : Machine)
      → Leaves "ui" s
      → Leaves "ch_client" s
      → (s.run w).1.files ≡ w.files
      → Connected c fs w
      → Connected c fs (s.run w).1
  Connected-stays c fs s w leaves_ui leaves_client same ((has_ui, files), has_client) =
      ((leaves_ui.in_run w ∙ has_ui, same ∙ files), leaves_client.in_run w ∙ has_client)

  pub smooth_goes :
      (c : Client) (fs : Files) (s : Step)
      → IsSmooth s
      → (w : Machine) → Connected c fs w
      → ((s.run w).0 ≡ continue) × Connected c fs (s.run w).1
  smooth_goes c fs s smooth w h = (
    smooth.goes_on w,
    Connected-stays c fs s w smooth.leaves_ui smooth.leaves_client (smooth.same_files w) h,
  )
