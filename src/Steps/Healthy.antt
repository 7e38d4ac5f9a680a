-- ===== src/Steps/Healthy.antt =====
-- The steps of a build on a platform that refuses nothing: each goes on, and leaves the files alone.
use text.Mathlib.Text.{◌==◌}
use packer_plugin_cloud_hype.Prelude.{
  ℕ, zero, suc, String, ◌≡◌, refl, ◌<◌, true, false, Option, none, some, List, Str, arith,
}
use packer_plugin_cloud_hype.Json.{Json}
use packer_plugin_cloud_hype.Runtime.{
  ok, Client, client, Error, response, continue, is_ui, Request, Context, Platform, Machine,
  Syscall,
}
use packer_plugin_cloud_hype.Chclient.VmConfig.{VmConfig}
use packer_plugin_cloud_hype.Chclient.Encode.{to_json}
use packer_plugin_cloud_hype.Chclient.Api.{
  answer, do_request, ping, create_vm, boot_vm, shutdown_vm, delete_vm, vm_info,
}
use packer_plugin_cloud_hype.Steps.Launch.{PingEnd, arguments, new, settle, ping_loop, launch_run}
use packer_plugin_cloud_hype.Steps.CreateVm.{create_run}
use packer_plugin_cloud_hype.Steps.BootVm.{boot_run}
use packer_plugin_cloud_hype.Steps.ShutdownVm.{poll, poll_fuel, shutdown_body, shutdown_run}

-- Nothing is refused: the context is never cancelled, the system's calls succeed, and the server
-- answers every request but the ones for the state of the virtual machine with a status below 400.
pub record IsHealthy (P : Platform) : Type 0 where
  pub live : (s : P.State) → (P.ctx_done s).0 ≡ false
  pub no_fault : (call : Syscall) (s : P.State) → (P.fault call s).0 ≡ none
  pub starts :
      (binary : Str) (args : List Str) (s : P.State)
      → (pid : ℕ) × ((P.start binary args s).0 ≡ ok pid)
  pub able : (method path : String) → P.new_request method path ≡ none
  pub encodes : (j : Json) → (body : Str) × (P.marshal j ≡ ok body)
  pub accepts :
      (r : Request) (s : P.State)
      → (r.path == "/api/v1/vm.info") ≡ false
      → (status : ℕ) × (body : Str) × ((P.exchange r s).0 ≡ response status body) × (status < 400)

module _ ⦃P : Platform⦄ where
  files-do_request :
      (c : Client) (ctx : Context) (method path content_type : String) (body : Option Str)
      (w : Machine)
      → (do_request c ctx method path content_type body w).1.files ≡ w.files
  unfolding do_request
  files-do_request c ctx method path content_type body w = ground arith

  files-ping_loop :
      (c : Client) (n : ℕ) (last : Option Error) (w : Machine)
      → (ping_loop c n last w).1.files ≡ w.files
  unfolding ping_loop ping
  files-ping_loop c zero last w = refl
  files-ping_loop c (suc n) last w = grind (arith, files-do_request, files-ping_loop c n)

  files-poll :
      (fuel deadline : ℕ) (c : Client) (w : Machine) → (poll fuel deadline c w).1.files ≡ w.files
  unfolding poll vm_info
  files-poll zero deadline c w = refl
  files-poll (suc fuel) deadline c w = grind (arith, files-do_request, files-poll fuel deadline c)

  pub files-launch_run :
      (binary socket : Str) (w : Machine) → (launch_run binary socket w).1.files ≡ w.files
  unfolding launch_run settle
  files-launch_run binary socket w = grind (arith, files-ping_loop)

  pub files-create_run : (v : VmConfig) (w : Machine) → (create_run v w).1.files ≡ w.files
  unfolding create_run create_vm
  files-create_run v w = grind (arith, files-do_request)

  pub files-boot_run : (w : Machine) → (boot_run w).1.files ≡ w.files
  unfolding boot_run boot_vm
  files-boot_run w = grind (arith, files-do_request)

  pub files-shutdown_run : (w : Machine) → (shutdown_run poll_fuel w).1.files ≡ w.files
  unfolding shutdown_run shutdown_body shutdown_vm delete_vm
  files-shutdown_run w = grind (arith, files-do_request, files-poll)

module _ ⦃P : Platform⦄ (healthy : IsHealthy P) where
  -- A request that is not one for the state of the virtual machine is answered.
  do_request_works :
      (c : Client) (ctx : Context) (method path content_type : String) (body : Option Str)
      (w : Machine)
      → (path == "/api/v1/vm.info") ≡ false
      → (text : Str) × ((do_request c ctx method path content_type body w).0 ≡ ok text)
  unfolding do_request answer
  do_request_works c ctx method path content_type body w h =
      let r : Request = record {
        context = ctx;
        socket = c.socket_path;
        method = method;
        path = path;
        content_type = content_type;
        body = body;
      } in
      let (status, text, got, low) = healthy.accepts r w.host h in
      (text, ground (arith, healthy.able method path))

  ping_loop-works :
      (c : Client) (n : ℕ) (last : Option Error) (w : Machine)
      → (ping_loop c (suc n) last w).0 ≡ PingEnd.pinged none
  unfolding ping_loop ping
  ping_loop-works c n last w =
      let u = record w { host = (P.ctx_done w.host).1 } in
      ground (
        arith,
        healthy.live w.host,
        do_request_works c Context.build "GET" "/api/v1/vmm.ping" "" none u refl,
      )

  pub launch_run-goes :
      (binary socket : Str) (w : Machine)
      → is_ui (P.get_ok "ui" w.bag) ≡ true
      → (launch_run binary socket w).0 ≡ continue
  unfolding launch_run settle
  launch_run-goes binary socket w has_ui =
      let piped = P.fault Syscall.stderr_pipe w.host in
      let (pid, started) = healthy.starts binary (arguments socket) piped.1 in
      grind (
        arith,
        healthy.no_fault Syscall.stderr_pipe w.host,
        started,
        ping_loop-works (new socket) 49 none,
      )

  create_vm-works :
      (c : Client) (v : VmConfig) (w : Machine) → (create_vm c Context.build v w).0 ≡ none
  unfolding create_vm
  create_vm-works c v w =
      let (body, encoded) = healthy.encodes (to_json v) in
      ground (
        arith,
        encoded,
        do_request_works c Context.build "PUT" "/api/v1/vm.create" "application/json" (some body) w
            refl,
      )

  pub create_run-goes :
      (v : VmConfig) (w : Machine) {c : Client}
      → is_ui (P.get_ok "ui" w.bag) ≡ true
      → P.get_ok "ch_client" w.bag ≡ some (client c)
      → (create_run v w).0 ≡ continue
  unfolding create_run
  create_run-goes v w {c} has_ui has_client = grind (arith, create_vm-works c v)

  boot_vm-works : (c : Client) (w : Machine) → (boot_vm c Context.build w).0 ≡ none
  unfolding boot_vm
  boot_vm-works c w =
      ground (arith, do_request_works c Context.build "PUT" "/api/v1/vm.boot" "" none w refl)

  pub boot_run-goes :
      (w : Machine) {c : Client}
      → is_ui (P.get_ok "ui" w.bag) ≡ true
      → P.get_ok "ch_client" w.bag ≡ some (client c)
      → (boot_run w).0 ≡ continue
  unfolding boot_run
  boot_run-goes w {c} has_ui has_client = grind (arith, boot_vm-works c)
