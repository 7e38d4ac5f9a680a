-- ===== src/Steps/Launch.antt =====
-- builder/cloud-hypervisor/step_launch_ch.go: the subprocess, the wait for its API, and the cleanup.
-- Times are in milliseconds.
pub mod Laws
pub mod Ping
pub mod Stop
pub mod Patience
use packer_plugin_cloud_hype.Prelude.{
  ℕ, zero, suc, true, false, Option, none, some, List, [], ◌∷◌, Str, codes,
}
use packer_plugin_cloud_hype.Runtime.{
  Error, not_exist, wrap, Result, ok, err, Client, Value, client, cmd, as_cmd, Platform, Context,
  Syscall, say, debug, spawned, terminated, killed, waited, StepAction, continue, halt, M, pure,
  ◌>>=◌, ◌>>◌, emit, get, put, ask, fault, sleep, Step, os_remove,
}
use packer_plugin_cloud_hype.Chclient.Api.{ping}
use packer_plugin_cloud_hype.Steps.Common.{fail, with_ui}

abbrev pub ch_ping_retries : ℕ
ch_ping_retries = 50

abbrev pub ch_ping_interval : ℕ
ch_ping_interval = 100

abbrev pub kill_wait : ℕ
kill_wait = 5000

-- `chclient.New`
abbrev pub new : Str → Client
new socket = record { socket_path = socket }

-- How the loop over the retries ends: by the context, or with the last error of a ping.
pub data PingEnd : Type 0 where
  cancelled : PingEnd
  pinged : Option Error → PingEnd

abbrev pub arguments : Str → List Str
arguments socket = codes "--api-socket" ∷ socket ∷ []

-- The process of the command in the state bag, if it is one and has been started.
abbrev pub process_of : Option Value → Option ℕ
process_of raw = elim (as_cmd raw) [ none ↦ none | some c ↦ c.process ]

module _ ⦃P : Platform⦄ where
  unfoldable pub ping_loop : Client → ℕ → Option Error → M PingEnd
  ping_loop c zero last = pure (PingEnd.pinged last)
  ping_loop c (suc n) last = do
    done ← ask P.ctx_done
    elim done [
      | true ↦ pure PingEnd.cancelled
      | false ↦ do
        e ← ping c Context.build
        elim e [
          | none ↦ pure (PingEnd.pinged none)
          | some cause ↦ do sleep ch_ping_interval; ping_loop c n (some cause)
        ]
    ]

  -- What follows the loop.
  unfoldable pub settle : Client → PingEnd → M StepAction
  settle c PingEnd.cancelled = pure halt
  settle c (PingEnd.pinged (some e)) = fail (wrap "Cloud-Hypervisor did not become ready" e)
  settle c (PingEnd.pinged none) = do
    put "ch_client" (client c)
    emit (say "Cloud-Hypervisor is ready")
    pure continue

  abbrev await_ready : Str → ℕ → M StepAction
  await_ready socket pid = do
    put "ch_cmd" (cmd (record { process = some pid }))
    emit (say "Waiting for Cloud-Hypervisor API...")
    let c = new socket
    end ← ping_loop c ch_ping_retries none
    settle c end

  abbrev start_process : Str → Str → M (Result ℕ)
  start_process binary socket = do
    emit (spawned binary (arguments socket))
    ask (P.start binary (arguments socket))

  unfoldable pub launch_body : Str → Str → M StepAction
  unfolding settle
  launch_body binary socket = do
    emit (say "Launching Cloud-Hypervisor...")
    piped ← fault Syscall.stderr_pipe
    elim piped [
      | some e ↦ fail (wrap "error creating stderr pipe" e)
      | none ↦ do
        started ← start_process binary socket
        elim started [
          | err e ↦ fail (wrap "error starting Cloud-Hypervisor" e)
          | ok pid ↦ await_ready socket pid
        ]
    ]

  unfoldable pub launch_run : Str → Str → M StepAction
  unfolding launch_body
  launch_run binary socket = with_ui (launch_body binary socket)

  abbrev kill_process : ℕ → M (Unit {0})
  kill_process pid w = (tt, record w { log = killed pid ∷ w.log; host = P.kill pid w.host })

  -- SIGTERM, or SIGKILL where that fails; then a wait, and SIGKILL where it was in vain.
  unfoldable pub stop_process : ℕ → M (Unit {0})
  stop_process pid = do
    emit (debug "Terminating Cloud-Hypervisor")
    emit (terminated pid)
    refused ← ask (P.terminate pid)
    elim refused [
      | none ↦ pure tt
      | some e ↦ do emit (debug "SIGTERM failed, sending SIGKILL"); kill_process pid
    ]
    emit (waited pid)
    exited ← ask (P.wait_exit pid kill_wait)
    elim exited [
      | true ↦ pure tt
      | false ↦ do
        emit (debug "Cloud-Hypervisor did not exit in time, sending SIGKILL")
        kill_process pid
    ]

  abbrev stop_if_started : Option ℕ → M (Unit {0})
  stop_if_started none = pure tt
  stop_if_started (some pid) = stop_process pid

  abbrev socket_error : Option Error → M (Unit {0})
  socket_error none = pure tt
  socket_error (some not_exist) = pure tt
  socket_error (some e) = emit (debug "Error removing socket")

  unfoldable pub launch_cleanup : Str → M (Unit {0})
  unfolding stop_process
  launch_cleanup socket = do
    raw ← get "ch_cmd"
    stop_if_started (process_of raw)
    e ← os_remove socket
    socket_error e

  unfoldable pub launch_step : Str → Str → Step
  unfolding launch_run launch_cleanup
  launch_step binary socket = record {
    run = launch_run binary socket;
    cleanup = λ w. (launch_cleanup socket w).1;
  }
