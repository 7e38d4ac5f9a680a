-- ===== src/Steps/Launch/Stop.antt =====
-- step_launch_ch.go: what the cleanup does to the process and to the socket.
use packer_plugin_cloud_hype.Prelude.{
  ℕ, ◌≡◌, ◌⊎◌, inl, inr, true, Option, none, some, List, Str, arith, Among, Option-cases,
}
use packer_plugin_cloud_hype.Runtime.{
  Platform, Event, terminated, killed, waited, removed, Machine, os_remove,
}
use packer_plugin_cloud_hype.Steps.Launch.{launch_cleanup, stop_process, process_of}

-- A process, where there is one, has been sent SIGTERM and waited for.
abbrev pub IsWaitedFor : Option ℕ → List Event → Type 0
IsWaitedFor none log = Unit
IsWaitedFor (some pid) log = Among (terminated pid) log × Among (waited pid) log

module _ ⦃P : Platform⦄ where
  -- The host after the first signal, where the wait begins.
  abbrev pub signalled : ℕ → P.State → P.State
  signalled pid s = elim (P.terminate pid s).0 [
    | none ↦ (P.terminate pid s).1
    | some e ↦ P.kill pid (P.terminate pid s).1
  ]

  -- The process that the cleanup of the launch stops is sent the signal and waited for, and it is
  -- killed unless it takes the signal and ends in time. The state bag stays.
  pub stop_process_lem :
      (pid : ℕ) (w : Machine)
      → let v = (stop_process pid w).1 in
        Among (terminated pid) v.log
        × Among (waited pid) v.log
        × ((((P.terminate pid w.host).0 ≡ none)
              × ((P.wait_exit pid 5000 (signalled pid w.host)).0 ≡ true))
            ⊎ Among (killed pid) v.log)
        × (v.bag ≡ w.bag)
  unfolding stop_process
  stop_process_lem pid w = (ground arith, ground arith, ground arith, ground arith)

  -- The cleanup of the launch removes the socket file in every case, and where the state bag holds
  -- a started process, that process is sent the signal and waited for. The state bag stays.
  pub launch_cleanup_lem :
      (socket : Str) (w : Machine)
      → let v = (launch_cleanup socket w).1 in
        Among (removed socket) v.log
        × IsWaitedFor (process_of (P.get_ok "ch_cmd" w.bag)) v.log
        × (v.bag ≡ w.bag)
  unfolding launch_cleanup os_remove
  launch_cleanup_lem socket w = elim (Option-cases (process_of (P.get_ok "ch_cmd" w.bag))) [
    | inl unstarted ↦ (ground arith, rw unstarted tt, ground arith)
    | inr (pid, running) ↦ (
      ground arith,
      rw running (ground (arith, stop_process_lem pid w)),
      ground (arith, stop_process_lem pid w),
    )
  ]
