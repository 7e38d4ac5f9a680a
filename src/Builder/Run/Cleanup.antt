-- ===== src/Builder/Run/Cleanup.antt =====
-- builder.go `Run`: a build that has started Cloud-Hypervisor stops it, wherever the build ends.
use packer_plugin_cloud_hype.Prelude.{
  ◌≡◌, refl, ap, ◌⊎◌, ◌∙◌, true, none, some, inl, inr, Option, Among,
}
use packer_plugin_cloud_hype.Runtime.{Value, Platform, IsBag, removed, ui, is_ui, Machine}
use packer_plugin_cloud_hype.Config.{Config}
use packer_plugin_cloud_hype.Ssh.{comm_host}
use packer_plugin_cloud_hype.Steps.Launch.{launch_cleanup, launch_run, launch_step, process_of}
use packer_plugin_cloud_hype.Steps.Launch.Laws.{started_by, launch_run-started}
use packer_plugin_cloud_hype.Steps.Launch.Stop.{IsWaitedFor, launch_cleanup_lem}
use mathlib.Core.Path.{subst}
use packer_plugin_cloud_hype.Builder.Runner.{Runs, stopped, ended, went_on}
use packer_plugin_cloud_hype.Builder.Runner.Invariants.{Marked-keeps, Chain, nil, link, Runs-keeps}
use packer_plugin_cloud_hype.Builder.Run.Keys.{
  Leaves, IsForeign, Holds, Leaves-Link, create-Leaves, boot-Leaves, shutdown-Leaves,
  collect-Leaves, Holds-mark,
}
use packer_plugin_cloud_hype.Builder.Run.{Sdk, IsRunner, rest_steps, run, build_steps, first_bag}

module _ ⦃P : Platform⦄ where
  -- Before the launch there is nothing to stop. Behind it, the socket file is removed, and the
  -- process that the platform has started, if any, is sent the signal and waited for.
  abbrev pub Stopped : Config → Machine → Machine → Type 0
  Stopped c w v =
      (v.log ≡ w.log)
      ⊎ (Among (removed c.ch_socket_path) v.log
          × IsWaitedFor (started_by c.ch_binary_path c.ch_socket_path w.host) v.log)

module _ ⦃P : Platform⦄ (laws : IsBag P) where
  -- The steps behind the launch keep the command in the state bag.
  rest-Chain :
      (sdk : Sdk) (c : Config) (x : Option Value)
      → Leaves "ch_cmd" (sdk.connect c.comm (comm_host c.network_interfaces))
      → Leaves "ch_cmd" sdk.provision
      → Chain (Holds laws "ch_cmd" x) (Holds laws "ch_cmd" x) (rest_steps sdk c)
  rest-Chain sdk c x connect provision =
      let keeps = λ (w : Machine) (h : Holds laws "ch_cmd" x w). h in
      let marks = Holds-mark laws "ch_cmd" x refl refl in
      link marks keeps (Leaves-Link laws "ch_cmd" x _ (create-Leaves laws "ch_cmd" refl c)) (
        link marks keeps (Leaves-Link laws "ch_cmd" x _ (boot-Leaves laws "ch_cmd" refl)) (
          link marks keeps (Leaves-Link laws "ch_cmd" x _ connect) (
            link marks keeps (Leaves-Link laws "ch_cmd" x _ provision) (
              link marks keeps (Leaves-Link laws "ch_cmd" x _ (shutdown-Leaves laws "ch_cmd" refl))
                (link marks keeps
                  (Leaves-Link laws "ch_cmd" x _ (collect-Leaves laws "ch_cmd" refl refl c))
                  (nil keeps))))))

  -- The ui is there, and no command yet.
  abbrev IsFirst : Machine → Type 0
  IsFirst w = (is_ui (P.get_ok "ui" w.bag) ≡ true) × (P.get_ok "ch_cmd" w.bag ≡ none)

  first_bag-IsFirst : (w : Machine) → IsFirst (record w { bag = first_bag })
  unfolding first_bag
  first_bag-IsFirst w =
      let has_ui : P.get_ok "ui" first_bag ≡ some ui = simp laws.get_ok-put in
      (ap is_ui has_ui, simp (laws.get_ok-put, laws.get_ok-empty))

  -- The cleanup of the launch, with the command as the launch has left it.
  cleanup-Stopped :
      (c : Config) (w t v : Machine)
      → IsFirst w
      → P.get_ok "ch_cmd" t.bag
        ≡ P.get_ok "ch_cmd" (launch_run c.ch_binary_path c.ch_socket_path w).1.bag
      → v ≡ (launch_step c.ch_binary_path c.ch_socket_path).cleanup t
      → Stopped c w v
  unfolding launch_step
  cleanup-Stopped c w t v (has_ui, fresh) same e =
      let left = launch_run-started c.ch_binary_path c.ch_socket_path w laws has_ui fresh in
      let (gone, stops, _) = launch_cleanup_lem c.ch_socket_path t in
      rw e (
        inr (
          gone,
          subst (λ x. IsWaitedFor x (launch_cleanup c.ch_socket_path t).1.log)
              (ap process_of same ∙ left) stops,
        ))

  Runs-Stopped :
      (sdk : Sdk) (c : Config) (w v : Machine)
      → IsFirst w
      → Leaves "ch_cmd" (sdk.connect c.comm (comm_host c.network_interfaces))
      → Leaves "ch_cmd" sdk.provision
      → Runs (build_steps sdk c) w v
      → Stopped c w v
  unfolding launch_step
  Runs-Stopped sdk c w v begins connect provision (stopped m) =
      inl (Marked-keeps (λ u. u.log ≡ w.log) (λ k u is_mark h. h) m refl)
  Runs-Stopped sdk c w v begins connect provision (ended {u = u} m e) =
      cleanup-Stopped c w u v begins
        (Marked-keeps (Holds laws "ch_cmd" _) (Holds-mark laws "ch_cmd" _ refl refl) m refl) e
  Runs-Stopped sdk c w v begins connect provision (went_on {u = u} {t = t} go m r e) =
      cleanup-Stopped c w t v begins
        (Runs-keeps (Holds-mark laws "ch_cmd" _ refl refl) r (rest-Chain sdk c _ connect provision)
          (Marked-keeps (Holds laws "ch_cmd" _) (Holds-mark laws "ch_cmd" _ refl refl) m refl))
        e

  -- Wherever a build ends, by an error, a cancellation or its artifact, it has either done nothing,
  -- since it was cancelled before the launch, or the socket file has been removed and the process
  -- that the start of the monitor gave, if it gave one, has been sent SIGTERM and waited for. The
  -- state bag is a map, the runner does what its documentation says, and the SDK's steps leave the
  -- plugin's keys alone.
  pub run-Stopped :
      (sdk : Sdk) (c : Config) (w : Machine)
      → IsRunner sdk
      → IsForeign (sdk.connect c.comm (comm_host c.network_interfaces))
      → IsForeign sdk.provision
      → Stopped c (record w { bag = first_bag }) (run sdk c w).1
  unfolding run
  run-Stopped sdk c w runner connect provision =
      Runs-Stopped sdk c (record w { bag = first_bag }) _ (first_bag-IsFirst w) connect.leaves_cmd
        provision.leaves_cmd (runner (build_steps sdk c) (record w { bag = first_bag }))
