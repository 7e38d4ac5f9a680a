-- ===== src/Steps/Launch/Patience.antt =====
-- step_launch_ch.go: how long the wait for the API lasts before it fails.
use packer_plugin_cloud_hype.Prelude.{
  ℕ, zero, suc, ◌+◌, ◌*◌, ◌≤◌, ◌≡◌, inl, inr, Option, some, arith, Option-cases,
}
use packer_plugin_cloud_hype.Runtime.{Client, Error, Platform, IsClock, Context, Machine}
use packer_plugin_cloud_hype.Chclient.Api.{do_request, ping}
use packer_plugin_cloud_hype.Steps.Launch.{PingEnd, ch_ping_interval, ping_loop}
use packer_plugin_cloud_hype.Steps.Launch.Ping.{pinged_once, next_ping, checked}

module _ ⦃P : Platform⦄ (time : P.State → ℕ) (clock : IsClock P time) where
  time-ping : (c : Client) (ctx : Context) (w : Machine) → time w.host ≤ time (ping c ctx w).1.host
  unfolding ping do_request
  time-ping c ctx w = elim (Option-cases (P.new_request "GET" "/api/v1/vmm.ping")) [
    | inl e ↦ rw (e, do_request) (clock.time-exchange _ w.host)
    | inr (x, e) ↦ rw (e, do_request) (omega arith)
  ]

  time-next_ping :
      (c : Client) (w : Machine) → time w.host + ch_ping_interval ≤ time (next_ping c w).host
  time-next_ping c w = omega (
    arith,
    clock.time-ctx_done w.host,
    time-ping c Context.build (checked w),
    clock.time-sleep ch_ping_interval (pinged_once c w).host,
  )

  -- A wait for the API of n rounds that ends with an error has lasted for n intervals of 100
  -- milliseconds at least. The clock does not run backwards, and a sleep takes as long as it says.
  pub time-ping_loop_failed :
      (c : Client) (n : ℕ) (last : Option Error) (w : Machine) {e : Error}
      → (ping_loop c n last w).0 ≡ PingEnd.pinged (some e)
      → time w.host + n * ch_ping_interval ≤ time (ping_loop c n last w).1.host
  unfolding ping_loop
  time-ping_loop_failed c zero last w {e} ended = omega arith
  time-ping_loop_failed c (suc n) last w {e} ended =
      elim (Option-cases (ping c Context.build (checked w)).0) [
        | inl ready ↦ ground arith
        | inr (cause, failed) ↦ ground (
          arith,
          time-next_ping c w,
          time-ping_loop_failed c n (some cause) (next_ping c w) {e = e},
        )
      ]
