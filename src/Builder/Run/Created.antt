-- ===== src/Builder/Run/Created.antt =====
-- builder.go `Run`: the requests to create and to boot, and what each step adds to them.
use text.Mathlib.Text.{◌==◌}
use packer_plugin_cloud_hype.Prelude.{
  ◌≡◌, refl, ◌⊎◌, inl, inr, true, false, none, some, List, [], ◌∷◌, Str, arith, Among, Option-cases,
}
use packer_plugin_cloud_hype.Runtime.{
  ok, Context, Request, Client, Platform, Machine, continue, Step, Result-cases,
}
use packer_plugin_cloud_hype.Config.{Config}
use packer_plugin_cloud_hype.Chclient.VmConfig.{VmConfig}
use packer_plugin_cloud_hype.Chclient.Encode.{to_json}
use packer_plugin_cloud_hype.Chclient.Api.{do_request, create_vm, boot_vm}
use packer_plugin_cloud_hype.Steps.CreateVm.{create_run}
use packer_plugin_cloud_hype.Steps.BootVm.{boot_run}
use packer_plugin_cloud_hype.Steps.Collect.{collect_step}
use packer_plugin_cloud_hype.Steps.Sent.{
  sent, not_boot, boot_path, do_request-KeepsSent, sent-collect_run,
}
use packer_plugin_cloud_hype.Builder.Run.{output_dir}

-- The request of the creation.
abbrev pub create_request : Str → Str → Request
create_request socket body = record {
  context = Context.build;
  socket = socket;
  method = "PUT";
  path = "/api/v1/vm.create";
  content_type = "application/json";
  body = some body;
}

abbrev pub NoBoot : List Request → Type 0
NoBoot [] = Unit
NoBoot (r ∷ rs) = (not_boot r.method r.path ≡ true) × NoBoot rs

module _ ⦃P : Platform⦄ where
  -- The creation of a virtual machine has been asked for, by its JSON.
  abbrev pub Created : VmConfig → List Request → Type 0
  Created v rs =
      (socket : Str) × (body : Str) × (P.marshal (to_json v) ≡ ok body)
      × Among (create_request socket body) rs

  -- Each boot, newest first, comes behind the creation.
  abbrev pub Ordered : VmConfig → List Request → Type 0
  Ordered v [] = Unit
  Ordered v (r ∷ rs) = (((r.path == boot_path) ≡ false) ⊎ Created v rs) × Ordered v rs

  -- A step that sends the monitor nothing.
  pub record Unheard (s : Step) : Type 0 where
    pub in_run : (w : Machine) → sent (s.run w).1.log ≡ sent w.log
    pub in_cleanup : (w : Machine) → sent (s.cleanup w).log ≡ sent w.log

  pub collect-Unheard : (c : Config) → Unheard (collect_step c.disk_images (output_dir c))
  unfolding collect_step
  collect-Unheard c = record {
    in_run = sent-collect_run c.disk_images (output_dir c);
    in_cleanup = λ w. refl;
  }

module _ ⦃P : Platform⦄ (v : VmConfig) where
  abbrev pub Ready : List Request → Type 0
  Ready rs = Created v rs × Ordered v rs

  pub Ordered-of_NoBoot : (rs : List Request) → NoBoot rs → Ordered v rs
  Ordered-of_NoBoot [] h = tt
  Ordered-of_NoBoot (r ∷ rs) h = (inl (ground arith), Ordered-of_NoBoot rs h.1)

  pub Ordered-stable :
      (r : Request) (rs : List Request)
      → not_boot r.method r.path ≡ true
      → Ordered v rs
      → Ordered v (r ∷ rs)
  Ordered-stable r rs h o = (inl (ground arith), o)

  Ready-grows : (r : Request) (rs : List Request) → Ready rs → Ready (r ∷ rs)
  Ready-grows r rs ((socket, body, e, a), o) =
      ((socket, body, e, inr a), (inr (socket, body, e, a), o))

  pub Ready-stable :
      (r : Request) (rs : List Request)
      → not_boot r.method r.path ≡ true
      → Ready rs
      → Ready (r ∷ rs)
  Ready-stable r rs h k = Ready-grows r rs k

  create_vm-Ordered :
      (c : Client) (ctx : Context) (w : Machine)
      → Ordered v (sent w.log)
      → Ordered v (sent (create_vm c ctx v w).1.log)
  unfolding create_vm
  create_vm-Ordered c ctx w k = elim (Result-cases (P.marshal (to_json v))) [
    | inl (body, e) ↦
        rw (e, create_vm)
          (do_request-KeepsSent not_boot (Ordered v) Ordered-stable c ctx "PUT" "/api/v1/vm.create"
            _ _ refl w k)
    | inr (x, e) ↦ rw (e, create_vm) k
  ]

  pub create_run-Ordered :
      (w : Machine) → Ordered v (sent w.log) → Ordered v (sent (create_run v w).1.log)
  unfolding create_run
  create_run-Ordered w k = grind (arith, create_vm-Ordered)

  create_vm-Created :
      (c : Client) (w : Machine)
      → (create_vm c Context.build v w).0 ≡ none
      → Created v (sent (create_vm c Context.build v w).1.log)
  unfolding create_vm do_request
  create_vm-Created c w h = elim (Result-cases (P.marshal (to_json v))) [
    | inl (body, e) ↦ elim (Option-cases (P.new_request "PUT" "/api/v1/vm.create")) [
      | inl able ↦ (c.socket_path, body, e, ground arith)
      | inr (x, refused) ↦ absurd (ground arith)
    ]
    | inr (x, e) ↦ absurd (ground arith)
  ]

  pub create_run-Created :
      (w : Machine) → (create_run v w).0 ≡ continue → Created v (sent (create_run v w).1.log)
  unfolding create_run
  create_run-Created w h = grind (arith, create_vm-Created)

  pub boot_run-Ready : (w : Machine) → Ready (sent w.log) → Ready (sent (boot_run w).1.log)
  unfolding boot_run boot_vm do_request
  boot_run-Ready w k = grind (arith, Ready-grows)
