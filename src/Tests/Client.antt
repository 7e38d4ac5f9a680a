-- ===== src/Tests/Client.antt =====
-- The theorems on the requests, on the launch and on the shutdown.
use packer_plugin_cloud_hype.Prelude.{
  ℕ, ◌≡◌, refl, ◌≢◌, ◌≤◌, ◌<◌, ◌+◌, ◌*◌, ◌↔◌, ◌⊎◌, none, some, true, List, [], ◌∷◌, Str, codes,
  arith, Among,
}
use packer_plugin_cloud_hype.Runtime.{
  ok, err, http, call, Client, client, ui, no_response, response, Platform, IsClock, Machine,
  terminated, killed, waited, continue, new,
}
use packer_plugin_cloud_hype.Chclient.Api.{answer, do_request, ping}
use packer_plugin_cloud_hype.Chclient.Api.Laws.{Infix, answer-eq-ok_iff, answer_of_failure}
use packer_plugin_cloud_hype.Steps.Launch.{
  ch_ping_interval, PingEnd, ping_loop, launch_run, stop_process, process_of,
}
use packer_plugin_cloud_hype.Steps.Launch.Laws.{launch_run-continue}
use packer_plugin_cloud_hype.Steps.Launch.Ping.{requests, requests-ping_loop_failed}
use packer_plugin_cloud_hype.Steps.Launch.Patience.{time-ping_loop_failed}
use packer_plugin_cloud_hype.Steps.Launch.Stop.{signalled, stop_process_lem}
use packer_plugin_cloud_hype.Steps.ShutdownVm.{PollEnd, poll, poll_fuel, shutdown_run}
use packer_plugin_cloud_hype.Steps.ShutdownVm.Laws.{poll_terminates, shutdown_run-continue}
use packer_plugin_cloud_hype.Tests.World.{world, world-IsBag, world-IsClock, machine}

-- A server that does not answer, and one whose failures carry two messages.
abbrev silent : Platform
silent = record world { exchange = λ r s. (no_response (new "refused"), s) }

abbrev wordy : Platform
wordy = record world { unmarshal = λ s. some (codes "low" ∷ codes "memory" ∷ []) }

abbrev the_client : Client
the_client = record { socket_path = codes "/tmp/s" }

answer-eq-ok_iff_example :
    (answer "GET" "/api/v1/vm.info" (response 200 (codes "{}")) ≡ ok (codes "{}"))
    ↔ ((status : ℕ) × (response 200 (codes "{}") ≡ response status (codes "{}")) × (status < 400))
answer-eq-ok_iff_example =
    answer-eq-ok_iff "GET" "/api/v1/vm.info" (response 200 (codes "{}")) (codes "{}")

answer_of_failure_example :
    (message : Str) × (answer ⦃P = wordy⦄ "PUT" "/api/v1/vm.create" (response 500 (codes "[]"))
      ≡ err (http 500 message))
    × ((ms : List Str) (m : Str)
        → wordy.unmarshal (codes "[]") ≡ some ms
        → Among m ms
        → Infix m message)
    × ((wordy.unmarshal (codes "[]") ≡ none) ⊎ (wordy.unmarshal (codes "[]") ≡ some [])
        → message ≡ codes "[]")
answer_of_failure_example =
    answer_of_failure ⦃P = wordy⦄ "PUT" "/api/v1/vm.create" 500 (codes "[]") (omega arith)

abbrev alone : Machine ⦃P = silent⦄
alone = record { bag = []; log = []; files = λ p. none; host = 0 }

unanswered :
    (ping_loop ⦃P = silent⦄ the_client 2 none alone).0
    ≡ PingEnd.pinged (some (call "GET" "/api/v1/vmm.ping" (new "refused")))
unfolding ping_loop ping do_request answer
unanswered = refl

requests-ping_loop_failed_example :
    requests (ping_loop ⦃P = silent⦄ the_client 2 none alone).1.log ≡ requests [] + 2
requests-ping_loop_failed_example =
    requests-ping_loop_failed ⦃P = silent⦄ the_client 2 none alone unanswered refl

silent-IsClock : IsClock silent (λ s. s)
silent-IsClock = record {
  now_reads = λ s. (refl, omega arith);
  time-sleep = λ d s. omega arith;
  time-ctx_done = λ s. omega arith;
  time-exchange = λ r s. omega arith;
}

time-ping_loop_failed_example :
    0 + 2 * ch_ping_interval ≤ (ping_loop ⦃P = silent⦄ the_client 2 none alone).1.host
time-ping_loop_failed_example =
    time-ping_loop_failed ⦃P = silent⦄ (λ s. s) silent-IsClock the_client 2 none alone unanswered

launched : (launch_run (codes "cloud-hypervisor") (codes "/tmp/s") machine).0 ≡ continue
unfolding launch_run ping_loop ping do_request answer
launched = refl

launch_run-continue_example :
    let v = (launch_run (codes "cloud-hypervisor") (codes "/tmp/s") machine).1 in
    (world.get_ok "ch_client" v.bag ≡ some (client the_client))
    × (process_of (world.get_ok "ch_cmd" v.bag) ≢ none)
    × (world.get_ok "error" v.bag ≡ world.get_ok "error" machine.bag)
launch_run-continue_example =
    launch_run-continue (codes "cloud-hypervisor") (codes "/tmp/s") machine world-IsBag refl
      launched

stop_process_lem_example :
    let v = (stop_process 42 machine).1 in
    Among (terminated 42) v.log
    × Among (waited 42) v.log
    × ((((world.terminate 42 machine.host).0 ≡ none)
          × ((world.wait_exit 42 5000 (signalled 42 machine.host)).0 ≡ true))
        ⊎ Among (killed 42) v.log)
    × (v.bag ≡ machine.bag)
stop_process_lem_example = stop_process_lem 42 machine

poll_terminates_example :
    ((poll poll_fuel 30000 the_client machine).0 ≢ PollEnd.out_of_fuel)
    × (poll (poll_fuel + 5) 30000 the_client machine ≡ poll poll_fuel 30000 the_client machine)
poll_terminates_example =
    poll_terminates (λ s. s) world-IsClock 5 30000 the_client machine (omega arith)

abbrev running : Machine
running = record machine { bag = ("ch_client", client the_client) ∷ ("ui", ui) ∷ [] }

shutdown_run-continue_example :
    ((shutdown_run poll_fuel running).0 ≡ continue)
    × ((shutdown_run poll_fuel running).1.bag ≡ running.bag)
shutdown_run-continue_example =
    shutdown_run-continue (λ s. s) world-IsClock running refl refl (λ s. refl)
