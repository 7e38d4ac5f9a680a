-- ===== src/Steps/ShutdownVm/Laws.antt =====
-- step_shutdown_vm.go: the poll ends within its fuel, and only a cancelled build halts.
use native.Mathlib.Nat.{suc-add}
use packer_plugin_cloud_hype.Prelude.{
  ℕ, zero, suc, ◌+◌, ◌*◌, ◌≤◌, ◌<◌, ◌≡◌, refl, ◌≢◌, inl, inr, true, false, none, some, arith,
  Option-cases,
}
use packer_plugin_cloud_hype.Runtime.{
  is_ui, as_client, say, emit, Client, Platform, Context, IsClock, continue, Machine, sleep,
}
use packer_plugin_cloud_hype.Chclient.Api.{do_request, shutdown_vm, vm_info, delete_vm}
use packer_plugin_cloud_hype.Chclient.Api.Laws.{bag-do_request}
use packer_plugin_cloud_hype.Steps.ShutdownVm.{
  PollEnd, shutdown_poll_interval, poll, poll_fuel, report, shown, shutdown_timeout, force_delete,
  shutdown_body, shutdown_run, shutdown_cleanup,
}

module _ ⦃P : Platform⦄ (time : P.State → ℕ) (clock : IsClock P time) where
  time-vm_info :
      (c : Client) (ctx : Context) (w : Machine) → time w.host ≤ time (vm_info c ctx w).1.host
  unfolding vm_info do_request
  time-vm_info c ctx w = elim (Option-cases (P.new_request "GET" "/api/v1/vm.info")) [
    | inl e ↦ rw (e, do_request) (clock.time-exchange _ w.host)
    | inr (x, e) ↦ rw (e, do_request) (omega arith)
  ]

  -- The machine that the next round of the loop begins with.
  abbrev after_round : Client → Machine → Machine
  after_round c w =
      let s = (P.ctx_done (P.now w.host).1).1 in
      (sleep shutdown_poll_interval (vm_info c Context.build (record w { host = s })).1).1

  time-after_round : (c : Client) (w : Machine) → time w.host + 2000 ≤ time (after_round c w).host
  time-after_round c w = omega (
    arith,
    clock.now_reads w.host,
    clock.time-ctx_done (P.now w.host).1,
    time-vm_info c Context.build (record w { host = (P.ctx_done (P.now w.host).1).1 }),
    clock.time-sleep 2000
        (vm_info c Context.build (record w { host = (P.ctx_done (P.now w.host).1).1 })).1.host,
  )

  -- Rounds that fill the time up to the deadline are enough.
  poll_ends :
      (fuel deadline : ℕ) (c : Client) (w : Machine)
      → 0 < fuel
      → deadline + 2000 ≤ time w.host + fuel * 2000
      → (poll fuel deadline c w).0 ≢ PollEnd.out_of_fuel
  unfolding poll
  poll_ends zero deadline c w pos h = elim pos [ ]
  poll_ends (suc fuel) deadline c w pos h = ground (
    arith,
    clock.now_reads w.host,
    time-after_round c w,
    poll_ends fuel deadline c (after_round c w),
  )

module _ ⦃P : Platform⦄ where
  abbrev poll_next : Client → Machine → Machine
  poll_next c w =
      let s = (P.ctx_done (P.now w.host).1).1 in
      (sleep shutdown_poll_interval (vm_info c Context.build (record w { host = s })).1).1

  bag-vm_info : (c : Client) (ctx : Context) (w : Machine) → (vm_info c ctx w).1.bag ≡ w.bag
  unfolding vm_info
  bag-vm_info c ctx w = bag-do_request c ctx _ _ _ _ w

  bag-poll : (fuel deadline : ℕ) (c : Client) (w : Machine) → (poll fuel deadline c w).1.bag ≡ w.bag
  unfolding poll
  bag-poll zero deadline c w = refl
  bag-poll (suc fuel) deadline c w = ground (
    arith,
    bag-vm_info c Context.build (record w { host = (P.ctx_done (P.now w.host).1).1 }),
    bag-poll fuel deadline c (poll_next c w),
  )

  -- A loop that has ended does not change with more fuel.
  poll_more :
      (fuel more deadline : ℕ) (c : Client) (w : Machine)
      → (poll fuel deadline c w).0 ≢ PollEnd.out_of_fuel
      → poll (fuel + more) deadline c w ≡ poll fuel deadline c w
  unfolding poll
  poll_more zero more deadline c w h = absurd (h refl)
  poll_more (suc fuel) more deadline c w h =
      rw suc-add (ground (arith, poll_more fuel more deadline c (poll_next c w)))

  poll_uncancelled :
      (fuel deadline : ℕ) (c : Client) (w : Machine)
      → ((s : P.State) → (P.ctx_done s).0 ≡ false)
      → (poll fuel deadline c w).0 ≢ PollEnd.cancelled
  unfolding poll
  poll_uncancelled zero deadline c w h = λ e. cc
  poll_uncancelled (suc fuel) deadline c w h =
      ground (arith, h (P.now w.host).1, poll_uncancelled fuel deadline c (poll_next c w) h)

  force_delete_lem :
      (c : Client) (w : Machine)
      → ((force_delete c w).0 ≡ continue) × ((force_delete c w).1.bag ≡ w.bag)
  unfolding force_delete delete_vm
  force_delete_lem c w = ground (
    arith,
    bag-do_request c Context.build "PUT" "/api/v1/vm.delete" "" none
        (emit (say "Shutdown timeout reached, force deleting VM...") w).1,
  )

  -- The machine at the first round of the poll.
  abbrev asked : Client → Machine → Machine
  asked c w =
      let (e, v) =
        shutdown_vm c Context.build (emit (say "Shutting down Cloud-Hypervisor VM...") w).1 in
      (emit (say "Waiting for VM to shut down...") (report (shown e) v).1).1

  bag-asked : (c : Client) (w : Machine) → (asked c w).bag ≡ w.bag
  unfolding shutdown_vm
  bag-asked c w = ground (
    arith,
    bag-do_request c Context.build "PUT" "/api/v1/vm.shutdown" "" none
        (emit (say "Shutting down Cloud-Hypervisor VM...") w).1,
  )

  abbrev polling : Client → Machine → Machine
  polling c w = record (asked c w) { host = (P.now (asked c w).host).1 }

  abbrev deadline_of : Client → Machine → ℕ
  deadline_of c w = (P.now (asked c w).host).0 + shutdown_timeout

  shutdown_body_lem :
      (fuel : ℕ) (c : Client) (w : Machine)
      → let end = (poll fuel (deadline_of c w) c (polling c w)).0 in
        end ≢ PollEnd.out_of_fuel
        → end ≢ PollEnd.cancelled
        → ((shutdown_body fuel c w).0 ≡ continue) × ((shutdown_body fuel c w).1.bag ≡ w.bag)
  unfolding shutdown_body
  shutdown_body_lem fuel c w p q = ground (
    arith,
    bag-asked c w,
    bag-poll fuel (deadline_of c w) c (polling c w),
    force_delete_lem c (poll fuel (deadline_of c w) c (polling c w)).1,
  )

module _ ⦃P : Platform⦄ where
  pub bag-shutdown_body :
      (fuel : ℕ) (c : Client) (w : Machine) → (shutdown_body fuel c w).1.bag ≡ w.bag
  unfolding shutdown_body
  bag-shutdown_body fuel c w = ground (
    arith,
    bag-asked c w,
    bag-poll fuel (deadline_of c w) c (polling c w),
    force_delete_lem c (poll fuel (deadline_of c w) c (polling c w)).1,
  )

module _ ⦃P : Platform⦄ (time : P.State → ℕ) (clock : IsClock P time) where
  -- Up to a deadline that lies at most the timeout ahead, the poll of the shutdown ends within its
  -- 16 rounds, and more rounds would change nothing. The clock does not run backwards, and a sleep
  -- takes as long as it says.
  pub poll_terminates :
      (more deadline : ℕ) (c : Client) (w : Machine)
      → deadline ≤ time w.host + shutdown_timeout
      → ((poll poll_fuel deadline c w).0 ≢ PollEnd.out_of_fuel)
        × (poll (poll_fuel + more) deadline c w ≡ poll poll_fuel deadline c w)
  poll_terminates more deadline c w h =
      let ends : (poll poll_fuel deadline c w).0 ≢ PollEnd.out_of_fuel =
        poll_ends time clock poll_fuel deadline c w (omega arith) (omega arith) in
      (ends, poll_more poll_fuel more deadline c w ends)

  -- With a ui and a client in the state bag and a context that is never cancelled, the shutdown
  -- step goes on, whatever the server answers to the shutdown, the polls and the deletion, and it
  -- leaves the state bag as it was. The clock does not run backwards, and a sleep takes as long as
  -- it says.
  pub shutdown_run-continue :
      (w : Machine) {c : Client}
      → is_ui (P.get_ok "ui" w.bag) ≡ true
      → as_client (P.get_ok "ch_client" w.bag) ≡ some c
      → ((s : P.State) → (P.ctx_done s).0 ≡ false)
      → ((shutdown_run poll_fuel w).0 ≡ continue) × ((shutdown_run poll_fuel w).1.bag ≡ w.bag)
  unfolding shutdown_run
  shutdown_run-continue w {c} has_ui has_client live = ground (
    arith,
    shutdown_body_lem poll_fuel c w
        (poll_ends time clock poll_fuel (deadline_of c w) c (polling c w) (omega arith)
          (omega (arith, clock.now_reads (asked c w).host)))
        (poll_uncancelled poll_fuel (deadline_of c w) c (polling c w) live),
  )

module _ ⦃P : Platform⦄ where
  pub bag-shutdown_cleanup : (w : Machine) → (shutdown_cleanup w).1.bag ≡ w.bag
  unfolding shutdown_cleanup delete_vm do_request
  bag-shutdown_cleanup w = ground arith
