-- ===== src/Steps/Launch/Laws.antt =====
-- step_launch_ch.go: what the launch leaves in the state bag.
use packer_plugin_cloud_hype.Prelude.{
  ℕ, ◌≡◌, refl, ◌≢◌, inl, inr, true, Option, none, some, [], ◌∷◌, Str, codes, arith, Option-cases,
}
use packer_plugin_cloud_hype.Runtime.{
  Client, wrap, client, cmd, failure, is_ui, Platform, Syscall, StepAction, spawned, IsBag,
  continue, halt, Machine, Result-cases, say, ok, err,
}
use packer_plugin_cloud_hype.Steps.Launch.{
  PingEnd, arguments, new, ch_ping_retries, ping_loop, settle, launch_run, process_of,
}
use packer_plugin_cloud_hype.Steps.Launch.Ping.{bag-ping_loop}

module _ ⦃P : Platform⦄ where
  settle_lem :
      (c : Client) (end : PingEnd) (w : Machine)
      → IsBag P
      → ((settle c end w).0 ≡ continue
          → (P.get_ok "ch_client" (settle c end w).1.bag ≡ some (client c))
            × (P.get_ok "error" (settle c end w).1.bag ≡ P.get_ok "error" w.bag))
        × ((settle c end w).0 ≡ halt
            → P.get_ok "ch_client" (settle c end w).1.bag ≡ P.get_ok "ch_client" w.bag)
        × (P.get_ok "ch_cmd" (settle c end w).1.bag ≡ P.get_ok "ch_cmd" w.bag)
  unfolding settle
  settle_lem c PingEnd.cancelled w laws = (λ h. cc, λ h. refl, refl)
  settle_lem c (PingEnd.pinged (some e)) w laws =
      (λ h. cc, λ h. rw laws.get_ok-put, rw laws.get_ok-put)
  settle_lem c (PingEnd.pinged none) w laws =
      ((λ h. (rw laws.get_ok-put, rw laws.get_ok-put)), λ h. cc, rw laws.get_ok-put)

  -- The machine that waits for the API of the process.
  abbrev started : Str → Str → ℕ → Machine → Machine
  started binary socket pid w = record w {
    bag = P.put "ch_cmd" (cmd (record { process = some pid })) w.bag;
    log =
        say "Waiting for Cloud-Hypervisor API..."
        ∷ spawned binary (arguments socket)
        ∷ say "Launching Cloud-Hypervisor..."
        ∷ w.log;
    host = (P.start binary (arguments socket) (P.fault Syscall.stderr_pipe w.host).1).1;
  }

  -- What a launch leaves in the state bag, by its action.
  abbrev pub Launched : Str → StepAction → Machine → Machine → Type 0
  Launched socket a w v =
      (a ≡ continue
        → (P.get_ok "ch_client" v.bag ≡ some (client (new socket)))
          × (process_of (P.get_ok "ch_cmd" v.bag) ≢ none)
          × (P.get_ok "error" v.bag ≡ P.get_ok "error" w.bag))
      × (a ≡ halt → P.get_ok "ch_client" v.bag ≡ P.get_ok "ch_client" w.bag)

  started_lem :
      (binary socket : Str) (pid : ℕ) (w : Machine)
      → IsBag P
      → let (end, u) = ping_loop (new socket) ch_ping_retries none (started binary socket pid w) in
        Launched socket (settle (new socket) end u).0 w (settle (new socket) end u).1
  started_lem binary socket pid w laws =
      let (end, u) = ping_loop (new socket) ch_ping_retries none (started binary socket pid w) in
      let same = bag-ping_loop (new socket) ch_ping_retries none (started binary socket pid w) in
      let settled = settle_lem (new socket) end u laws in
      let process = cmd (record { process = some pid }) in
      ground (
        arith,
        same,
        settled,
        laws.get_ok-put "ch_client" "ch_cmd" process w.bag,
        laws.get_ok-put "ch_cmd" "ch_cmd" process w.bag,
        laws.get_ok-put "error" "ch_cmd" process w.bag,
      )

  pub launch_run-Launched :
      (binary socket : Str) (w : Machine)
      → IsBag P
      → is_ui (P.get_ok "ui" w.bag) ≡ true
      → Launched socket (launch_run binary socket w).0 w (launch_run binary socket w).1
  unfolding launch_run
  launch_run-Launched binary socket w laws has_ui =
      let refused = (P.fault Syscall.stderr_pipe w.host).0 in
      let begun = (P.start binary (arguments socket) (P.fault Syscall.stderr_pipe w.host).1).0 in
      elim (Option-cases refused) [
        | inr (e, piped) ↦ ground (
          arith,
          laws.get_ok-put "ch_client" "error" (failure (wrap "error creating stderr pipe" e)) w.bag,
        )
        | inl piped ↦ elim (Result-cases begun) [
          | inr (e, failed) ↦ ground (
            arith,
            laws.get_ok-put "ch_client" "error" (failure (wrap "error starting Cloud-Hypervisor" e))
                w.bag,
          )
          | inl (pid, done) ↦ ground (arith, started_lem binary socket pid w laws)
        ]
      ]

  -- Where the launch goes on, with a ui in the state bag, the bag then holds a client of the socket
  -- and a started process, and no new error. The state bag is a map.
  pub launch_run-continue :
      (binary socket : Str) (w : Machine)
      → IsBag P
      → is_ui (P.get_ok "ui" w.bag) ≡ true
      → (launch_run binary socket w).0 ≡ continue
      → let v = (launch_run binary socket w).1 in
        (P.get_ok "ch_client" v.bag ≡ some (client (new socket)))
        × (process_of (P.get_ok "ch_cmd" v.bag) ≢ none)
        × (P.get_ok "error" v.bag ≡ P.get_ok "error" w.bag)
  launch_run-continue binary socket w laws has_ui on =
      (launch_run-Launched binary socket w laws has_ui).0 on

  -- The process that starting the monitor gives, from the host of the launch: none, where the pipe
  -- is refused before or where the start fails.
  abbrev pub started_by : Str → Str → P.State → Option ℕ
  started_by binary socket s = elim (P.fault Syscall.stderr_pipe s).0 [
    | some e ↦ none
    | none ↦
        elim (P.start binary (codes "--api-socket" ∷ socket ∷ [])
          (P.fault Syscall.stderr_pipe s).1).0 [ err e ↦ none | ok pid ↦ some pid ]
  ]

  -- The launch leaves the process that it has started in the state bag, whether the API has answered
  -- or not.
  pub launch_run-started :
      (binary socket : Str) (w : Machine)
      → IsBag P
      → is_ui (P.get_ok "ui" w.bag) ≡ true
      → P.get_ok "ch_cmd" w.bag ≡ none
      → process_of (P.get_ok "ch_cmd" (launch_run binary socket w).1.bag)
        ≡ started_by binary socket w.host
  unfolding launch_run
  launch_run-started binary socket w laws has_ui fresh =
      let refused = (P.fault Syscall.stderr_pipe w.host).0 in
      let begun = (P.start binary (arguments socket) (P.fault Syscall.stderr_pipe w.host).1).0 in
      elim (Option-cases refused) [
        | inr (e, piped) ↦ ground (
          arith,
          laws.get_ok-put "ch_cmd" "error" (failure (wrap "error creating stderr pipe" e)) w.bag,
        )
        | inl piped ↦ elim (Result-cases begun) [
          | inr (e, failed) ↦ ground (
            arith,
            laws.get_ok-put "ch_cmd" "error" (failure (wrap "error starting Cloud-Hypervisor" e))
                w.bag,
          )
          | inl (pid, done) ↦
              let (end, u) =
                ping_loop (new socket) ch_ping_retries none (started binary socket pid w) in
              ground (
                arith,
                bag-ping_loop (new socket) ch_ping_retries none (started binary socket pid w),
                settle_lem (new socket) end u laws,
                laws.get_ok-put "ch_cmd" "ch_cmd" (cmd (record { process = some pid })) w.bag,
              )
        ]
      ]
