-- ===== src/Steps/Launch/Ping.antt =====
-- step_launch_ch.go: the rounds of the wait for the API.
use packer_plugin_cloud_hype.Prelude.{
  ℕ, zero, suc, ◌+◌, ◌≤◌, ◌≡◌, refl, inl, inr, Option, none, some, List, [], ◌∷◌, arith,
  Option-cases,
}
use packer_plugin_cloud_hype.Runtime.{
  Client, Error, Platform, Context, Event, request, Machine, sleep,
}
use packer_plugin_cloud_hype.Chclient.Api.{do_request, ping}
use packer_plugin_cloud_hype.Chclient.Api.Laws.{bag-do_request}
use packer_plugin_cloud_hype.Steps.Launch.{PingEnd, ch_ping_interval, ping_loop}

-- How many requests a log holds.
abbrev pub requests : List Event → ℕ
requests [] = 0
requests (request r ∷ log) = suc (requests log)
requests (e ∷ log) = requests log

module _ ⦃P : Platform⦄ where
  requests-ping :
      (c : Client) (ctx : Context) (w : Machine)
      → (requests (ping c ctx w).1.log ≤ requests w.log + 1)
        × (P.new_request "GET" "/api/v1/vmm.ping" ≡ none
            → requests (ping c ctx w).1.log ≡ requests w.log + 1)
  unfolding ping do_request
  requests-ping c ctx w = ground arith

  bag-ping : (c : Client) (ctx : Context) (w : Machine) → (ping c ctx w).1.bag ≡ w.bag
  unfolding ping
  bag-ping c ctx w = bag-do_request c ctx "GET" "/api/v1/vmm.ping" "" none w

  -- The machine behind the look at the context.
  abbrev pub checked : Machine → Machine
  checked w = record w { host = (P.ctx_done w.host).1 }

  abbrev pub pinged_once : Client → Machine → Machine
  pinged_once c w = (ping c Context.build (checked w)).1

  abbrev pub next_ping : Client → Machine → Machine
  next_ping c w = (sleep ch_ping_interval (pinged_once c w)).1

  pub bag-ping_loop :
      (c : Client) (n : ℕ) (last : Option Error) (w : Machine)
      → (ping_loop c n last w).1.bag ≡ w.bag
  unfolding ping_loop
  bag-ping_loop c zero last w = refl
  bag-ping_loop c (suc n) last w =
      let (e, v) = ping c Context.build (checked w) in
      elim (Option-cases e) [
        | inl ready ↦ ground (arith, bag-ping c Context.build (checked w))
        | inr (cause, failed) ↦ ground (
          arith,
          bag-ping c Context.build (checked w),
          bag-ping_loop c n (some cause) (next_ping c w),
        )
      ]

  requests-ping_loop :
      (c : Client) (n : ℕ) (last : Option Error) (w : Machine)
      → (requests (ping_loop c n last w).1.log ≤ requests w.log + n)
        × ((e : Error)
            → (ping_loop c n last w).0 ≡ PingEnd.pinged (some e)
            → P.new_request "GET" "/api/v1/vmm.ping" ≡ none
            → requests (ping_loop c n last w).1.log ≡ requests w.log + n)
  unfolding ping_loop
  requests-ping_loop c zero last w = (omega arith, λ e h k. omega arith)
  requests-ping_loop c (suc n) last w =
      let (e, v) = ping c Context.build (checked w) in
      elim (Option-cases e) [
        | inl ready ↦ ground (arith, requests-ping c Context.build (checked w))
        | inr (cause, failed) ↦ grind (
          arith,
          requests-ping c Context.build (checked w),
          requests-ping_loop c n (some cause) (next_ping c w),
        )
      ]

  -- A wait for the API of n rounds sends at most n requests.
  requests-ping_loop_le :
      (c : Client) (n : ℕ) (last : Option Error) (w : Machine)
      → requests (ping_loop c n last w).1.log ≤ requests w.log + n
  requests-ping_loop_le c n last w = (requests-ping_loop c n last w).0

  -- Where requests can be made, a wait for the API of n rounds that ends with an error has sent n
  -- requests: it gives up on none of its rounds.
  pub requests-ping_loop_failed :
      (c : Client) (n : ℕ) (last : Option Error) (w : Machine) {e : Error}
      → (ping_loop c n last w).0 ≡ PingEnd.pinged (some e)
      → P.new_request "GET" "/api/v1/vmm.ping" ≡ none
      → requests (ping_loop c n last w).1.log ≡ requests w.log + n
  requests-ping_loop_failed c n last w {e} ended able =
      (requests-ping_loop c n last w).1 e ended able
