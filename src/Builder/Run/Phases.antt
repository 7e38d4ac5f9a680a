-- ===== src/Builder/Run/Phases.antt =====
-- The phases of the protocol that the requests of each step lead to.
use packer_plugin_cloud_hype.Prelude.{
  ℕ, ◌≡◌, refl, ◌⊎◌, inl, inr, String, true, Option, none, some, List, ◌∷◌, Str, arith,
  Option-cases,
}
use packer_plugin_cloud_hype.Runtime.{ok, Context, Request, Client, Platform, Machine, continue}
use packer_plugin_cloud_hype.Chclient.VmConfig.{VmConfig}
use packer_plugin_cloud_hype.Chclient.Api.{do_request, create_vm, boot_vm, shutdown_vm, delete_vm}
use packer_plugin_cloud_hype.Steps.CreateVm.{create_run}
use packer_plugin_cloud_hype.Steps.BootVm.{boot_run}
use packer_plugin_cloud_hype.Steps.ShutdownVm.{poll_fuel, force_delete, shutdown_body, shutdown_run}
use packer_plugin_cloud_hype.Steps.Sent.{sent, sent-do_request, poll-KeepsSent, delete_vm-KeepsSent}
use packer_plugin_cloud_hype.Builder.Protocol.{
  Call, Phase, method_of, path_of, is_call, call_of_is, next_of, replay,
}

-- The requests lead to a phase.
abbrev pub At : Phase → List Request → Type 0
At phase rs = replay rs ≡ some phase

abbrev pub Follows : List Request → Type 0
Follows rs = (phase : Phase) × At phase rs

-- Around the shutdown, and behind it.
abbrev pub Late : List Request → Type 0
Late rs = At Phase.booted rs ⊎ At Phase.stopping rs

abbrev pub Over : List Request → Type 0
Over rs = Late rs ⊎ At Phase.deleted rs

pub Follows-of_Over : (rs : List Request) → Over rs → Follows rs
Follows-of_Over rs (inl (inl h)) = (Phase.booted, h)
Follows-of_Over rs (inl (inr h)) = (Phase.stopping, h)
Follows-of_Over rs (inr h) = (Phase.deleted, h)

-- A request that is a call moves the phase as the call does.
replay-call :
    (c : Call) (r : Request) (rs : List Request)
    → is_call c r.method r.path ≡ true
    → replay (r ∷ rs) ≡ next_of (replay rs) (some c)
replay-call c r rs h = rw (call_of_is c r.method r.path h) refl

pub idle-ping :
    (r : Request) (rs : List Request)
    → is_call Call.ping r.method r.path ≡ true
    → At Phase.idle rs
    → At Phase.idle (r ∷ rs)
idle-ping r rs h e = rw (replay-call Call.ping r rs h, e) refl

Late-info :
    (r : Request) (rs : List Request)
    → is_call Call.info r.method r.path ≡ true
    → Late rs
    → Late (r ∷ rs)
Late-info r rs h (inl e) = inr (rw (replay-call Call.info r rs h, e) refl)
Late-info r rs h (inr e) = inr (rw (replay-call Call.info r rs h, e) refl)

pub Over-delete :
    (r : Request) (rs : List Request)
    → is_call Call.delete r.method r.path ≡ true
    → Over rs
    → Over (r ∷ rs)
Over-delete r rs h (inl (inl e)) = inr (rw (replay-call Call.delete r rs h, e) refl)
Over-delete r rs h (inl (inr e)) = inr (rw (replay-call Call.delete r rs h, e) refl)
Over-delete r rs h (inr e) = inr (rw (replay-call Call.delete r rs h, e) refl)

-- The request of a call, as its method and path say.
is_call-of : (c : Call) → is_call c (method_of c) (path_of c) ≡ true
is_call-of Call.ping = refl
is_call-of Call.create = refl
is_call-of Call.boot = refl
is_call-of Call.shutdown = refl
is_call-of Call.info = refl
is_call-of Call.delete = refl

module _ ⦃P : Platform⦄ where
  -- A call from one phase to another is made unless the request is refused.
  call_moves :
      (call : Call) (before after : Phase)
      → next_of (some before) (some call) ≡ some after
      → (c : Client) (ctx : Context) (content_type : String) (body : Option Str) (w : Machine)
      → At before (sent w.log)
      → let v = (do_request c ctx (method_of call) (path_of call) content_type body w).1 in
        At before (sent v.log) ⊎ At after (sent v.log)
  call_moves call before after step c ctx content_type body w k =
      sent-do_request (At before) (λ rs. At before rs ⊎ At after rs) c ctx _ _ content_type body w
        (λ rs h. inl h)
        (λ r rs same_method same_path h.
          inr (rw (replay-call call r rs (rw (same_method, same_path) (is_call-of call)), h) step))
        k

  -- A call that succeeds has been made.
  call_moved :
      (call : Call) (before after : Phase)
      → next_of (some before) (some call) ≡ some after
      → (c : Client) (ctx : Context) (content_type : String) (body : Option Str) (w : Machine)
        {answered : Str}
      → At before (sent w.log)
      → (do_request c ctx (method_of call) (path_of call) content_type body w).0 ≡ ok answered
      → At after (sent (do_request c ctx (method_of call) (path_of call) content_type body w).1.log)
  unfolding do_request
  call_moved call before after step c ctx content_type body w k done =
      elim (Option-cases (P.new_request (method_of call) (path_of call))) [
        | inl e ↦
            rw (e, do_request, sent)
              (rw
                (
                  replay-call call
                      (record {
                        context = ctx;
                        socket = c.socket_path;
                        method = method_of call;
                        path = path_of call;
                        content_type = content_type;
                        body = body;
                      })
                      (sent w.log) (is_call-of call),
                  k,
                )
                step)
        | inr (x, e) ↦ absurd (ground arith)
      ]

  -- The creation.
  pub create_run-sent :
      (v : VmConfig) (w : Machine)
      → At Phase.idle (sent w.log)
      → let u = (create_run v w).1 in At Phase.idle (sent u.log) ⊎ At Phase.created (sent u.log)
  unfolding create_run create_vm
  create_run-sent v w k = grind (
    arith,
    λ (c : Client) (body : Option Str) (u : Machine).
        call_moves Call.create Phase.idle Phase.created refl c Context.build "application/json" body
          u,
  )

  pub create_run-made :
      (v : VmConfig) (w : Machine)
      → At Phase.idle (sent w.log)
      → (create_run v w).0 ≡ continue
      → At Phase.created (sent (create_run v w).1.log)
  unfolding create_run create_vm
  create_run-made v w k on = grind (
    arith,
    λ (c : Client) (body : Option Str) (u : Machine) (answered : Str).
        call_moved Call.create Phase.idle Phase.created refl c Context.build "application/json" body
          u {answered = answered},
  )

  pub boot_run-sent :
      (w : Machine)
      → At Phase.created (sent w.log)
      → let u = (boot_run w).1 in At Phase.created (sent u.log) ⊎ At Phase.booted (sent u.log)
  unfolding boot_run boot_vm
  boot_run-sent w k = grind (
    arith,
    λ (c : Client) (u : Machine).
        call_moves Call.boot Phase.created Phase.booted refl c Context.build "" none u,
  )

  pub boot_run-made :
      (w : Machine)
      → At Phase.created (sent w.log)
      → (boot_run w).0 ≡ continue
      → At Phase.booted (sent (boot_run w).1.log)
  unfolding boot_run boot_vm
  boot_run-made w k on = grind (
    arith,
    λ (c : Client) (u : Machine) (answered : Str).
        call_moved Call.boot Phase.created Phase.booted refl c Context.build "" none u
          {answered = answered},
  )

  shutdown_vm-Late :
      (c : Client) (w : Machine)
      → At Phase.booted (sent w.log)
      → Late (sent (shutdown_vm c Context.build w).1.log)
  unfolding shutdown_vm
  shutdown_vm-Late c w k =
      call_moves Call.shutdown Phase.booted Phase.stopping refl c Context.build "" none w k

  delete_vm-Over :
      (c : Client) (ctx : Context) (w : Machine)
      → Over (sent w.log)
      → Over (sent (delete_vm c ctx w).1.log)
  delete_vm-Over c ctx w k =
      delete_vm-KeepsSent (is_call Call.delete) Over Over-delete c ctx refl w k

  pub shutdown_run-Over :
      (w : Machine) → At Phase.booted (sent w.log) → Over (sent (shutdown_run poll_fuel w).1.log)
  unfolding shutdown_run shutdown_body force_delete
  shutdown_run-Over w k = grind (
    arith,
    shutdown_vm-Late,
    λ (d : ℕ) (c : Client) (u : Machine).
        poll-KeepsSent (is_call Call.info) Late Late-info poll_fuel d c refl u,
    delete_vm-Over,
  )
