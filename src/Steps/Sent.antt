-- ===== src/Steps/Sent.antt =====
-- The requests that the steps send, in the order of the log: newest first.
use text.Mathlib.Text.{◌==◌}
use packer_plugin_cloud_hype.Prelude.{
  ℕ, zero, suc, String, ◌≡◌, refl, true, not, Bool, inl, inr, Option, List, [], ◌∷◌, ◌++◌, Str,
  arith, Option-cases,
}
use packer_plugin_cloud_hype.Runtime.{
  Error, Client, Platform, Context, Request, Event, request, Machine, M, os_open, os_create,
  io_copy, os_mkdir_all, os_remove,
}
use packer_plugin_cloud_hype.Config.{DiskImage}
use packer_plugin_cloud_hype.Chclient.Api.{do_request, ping, shutdown_vm, delete_vm, vm_info}
use packer_plugin_cloud_hype.Steps.Launch.{
  ping_loop, settle, launch_run, stop_process, launch_cleanup,
}
use packer_plugin_cloud_hype.Steps.ShutdownVm.{
  poll, force_delete, shutdown_body, shutdown_run, shutdown_cleanup,
}
use packer_plugin_cloud_hype.Steps.Collect.{destination, copy_file, copy_all, collect_run}

-- The requests of a log.
abbrev pub sent : List Event → List Request
sent [] = []
sent (request r ∷ log) = r ∷ sent log
sent (e ∷ log) = sent log

abbrev pub boot_path : String
boot_path = "/api/v1/vm.boot"

-- Every request but a boot.
abbrev pub not_boot : String → String → Bool
not_boot method path = not (path == boot_path)

module _ ⦃P : Platform⦄ where
  sent-copy_file : (src dst : Str) (w : Machine) → sent (copy_file src dst w).1.log ≡ sent w.log
  unfolding copy_file os_open os_create io_copy
  sent-copy_file src dst w = ground arith

  sent-copy_all :
      (d : Str) (srcs copied : List Str) (w : Machine)
      → sent (copy_all d srcs copied w).1.log ≡ sent w.log
  unfolding copy_all
  sent-copy_all d [] copied w = refl
  sent-copy_all d (s ∷ rest) copied w = ground (
    arith,
    sent-copy_file s (destination d s) w,
    sent-copy_all d rest (copied ++ destination d s ∷ []) (copy_file s (destination d s) w).1,
  )

  sent-mkdir : (d : Str) (w : Machine) → sent (os_mkdir_all d w).1.log ≡ sent w.log
  unfolding os_mkdir_all
  sent-mkdir d w = ground arith

  pub sent-collect_run :
      (disks : List DiskImage) (d : Str) (w : Machine)
      → sent (collect_run disks d w).1.log ≡ sent w.log
  unfolding collect_run
  sent-collect_run disks d w = grind (arith, sent-mkdir, sent-copy_all)

  pub sent-launch_cleanup :
      (socket : Str) (w : Machine) → sent (launch_cleanup socket w).1.log ≡ sent w.log
  unfolding launch_cleanup stop_process os_remove
  sent-launch_cleanup socket w = ground arith

module _ ⦃P : Platform⦄ (pre post : List Request → Type 0) where
  -- One request, from what holds of the requests before it to what holds behind it.
  pub sent-do_request :
      (c : Client) (ctx : Context) (method path content_type : String) (body : Option Str)
      (w : Machine)
      → ((rs : List Request) → pre rs → post rs)
      → ((r : Request) (rs : List Request)
          → r.method ≡ method
          → r.path ≡ path
          → pre rs
          → post (r ∷ rs))
      → pre (sent w.log)
      → post (sent (do_request c ctx method path content_type body w).1.log)
  unfolding do_request
  sent-do_request c ctx method path content_type body w stay grow k =
      elim (Option-cases (P.new_request method path)) [
        | inl e ↦ rw (e, do_request, sent) (grow _ _ refl refl k)
        | inr (x, e) ↦ rw (e, do_request, sent) (stay _ k)
      ]

-- A property of the requests that the allowed requests keep, by their method and path.
module _ ⦃P : Platform⦄ (allowed : String → String → Bool) (K : List Request → Type 0)
    (stable : (r : Request) (rs : List Request)
      → allowed r.method r.path ≡ true
      → K rs
      → K (r ∷ rs)) where
  abbrev pub KeepsSent : {A : Type 0} → M A → Type 0
  KeepsSent m = (w : Machine) → K (sent w.log) → K (sent (m w).1.log)

  pub do_request-KeepsSent :
      (c : Client) (ctx : Context) (method path content_type : String) (body : Option Str)
      → allowed method path ≡ true
      → KeepsSent (do_request c ctx method path content_type body)
  do_request-KeepsSent c ctx method path content_type body h w k =
      sent-do_request K K c ctx method path content_type body w (λ rs i. i)
        (λ r rs same_method same_path i. stable r rs (rw (same_method, same_path) h) i) k

  pub vm_info-KeepsSent :
      (c : Client) (ctx : Context)
      → allowed "GET" "/api/v1/vm.info" ≡ true
      → KeepsSent (vm_info c ctx)
  unfolding vm_info
  vm_info-KeepsSent c ctx h = do_request-KeepsSent c ctx _ _ _ _ h

  pub delete_vm-KeepsSent :
      (c : Client) (ctx : Context)
      → allowed "PUT" "/api/v1/vm.delete" ≡ true
      → KeepsSent (delete_vm c ctx)
  unfolding delete_vm
  delete_vm-KeepsSent c ctx h = do_request-KeepsSent c ctx _ _ _ _ h

  pub shutdown_vm-KeepsSent :
      (c : Client) (ctx : Context)
      → allowed "PUT" "/api/v1/vm.shutdown" ≡ true
      → KeepsSent (shutdown_vm c ctx)
  unfolding shutdown_vm
  shutdown_vm-KeepsSent c ctx h = do_request-KeepsSent c ctx _ _ _ _ h

  -- The launch sends pings alone.
  module _ (pings : allowed "GET" "/api/v1/vmm.ping" ≡ true) where
    ping-KeepsSent : (c : Client) (ctx : Context) → KeepsSent (ping c ctx)
    unfolding ping
    ping-KeepsSent c ctx = do_request-KeepsSent c ctx _ _ _ _ pings

    ping_loop-KeepsSent :
        (c : Client) (n : ℕ) (last : Option Error) → KeepsSent (ping_loop c n last)
    unfolding ping_loop
    ping_loop-KeepsSent c zero last w k = k
    ping_loop-KeepsSent c (suc n) last w k =
        grind (arith, ping-KeepsSent c Context.build, ping_loop-KeepsSent c n)

    pub launch_run-KeepsSent : (binary socket : Str) → KeepsSent (launch_run binary socket)
    unfolding launch_run settle
    launch_run-KeepsSent binary socket w k = grind (arith, ping_loop-KeepsSent)

  pub poll-KeepsSent :
      (fuel deadline : ℕ) (c : Client)
      → allowed "GET" "/api/v1/vm.info" ≡ true
      → KeepsSent (poll fuel deadline c)
  unfolding poll
  poll-KeepsSent zero deadline c h w k = k
  poll-KeepsSent (suc fuel) deadline c h w k =
      grind (arith, vm_info-KeepsSent c Context.build h, poll-KeepsSent fuel deadline c h)

  pub shutdown_run-KeepsSent :
      (fuel : ℕ)
      → allowed "PUT" "/api/v1/vm.shutdown" ≡ true
      → allowed "GET" "/api/v1/vm.info" ≡ true
      → allowed "PUT" "/api/v1/vm.delete" ≡ true
      → KeepsSent (shutdown_run fuel)
  unfolding shutdown_run shutdown_body force_delete
  shutdown_run-KeepsSent fuel h i d w k = grind (
    arith,
    λ (c : Client) (ctx : Context). shutdown_vm-KeepsSent c ctx h,
    λ (dl : ℕ) (c : Client). poll-KeepsSent fuel dl c i,
    λ (c : Client) (ctx : Context). delete_vm-KeepsSent c ctx d,
  )

  pub shutdown_cleanup-KeepsSent :
      allowed "PUT" "/api/v1/vm.delete" ≡ true → KeepsSent shutdown_cleanup
  unfolding shutdown_cleanup
  shutdown_cleanup-KeepsSent d w k =
      grind (arith, λ (c : Client) (ctx : Context). delete_vm-KeepsSent c ctx d)
