-- ===== src/Builder/Run/Bag.antt =====
-- builder.go `Run`: what the state bag holds at every end of a build.
use packer_plugin_cloud_hype.Prelude.{
  ◌≡◌, refl, sym, ◌≢◌, ◌∙◌, ◌⊎◌, inl, inr, none, some, arith, ap, Str,
}
use mathlib.Core.Path.{subst}
use packer_plugin_cloud_hype.Runtime.{client, Platform, IsBag, Machine, Step, ui}
use packer_plugin_cloud_hype.Config.{Config}
use packer_plugin_cloud_hype.Ssh.{comm_host}
use packer_plugin_cloud_hype.Steps.Launch.{
  new, process_of, settle, launch_run, launch_cleanup, launch_step,
}
use packer_plugin_cloud_hype.Steps.Launch.Ping.{bag-ping_loop}
use packer_plugin_cloud_hype.Steps.Launch.Laws.{launch_run-Launched}
use packer_plugin_cloud_hype.Steps.Launch.Stop.{launch_cleanup_lem}
use packer_plugin_cloud_hype.Steps.Keeps.{launch_run-Keeps}
use packer_plugin_cloud_hype.Steps.Common.Laws.{StepAction-cases}
use packer_plugin_cloud_hype.Builder.Runner.{mark}
use packer_plugin_cloud_hype.Builder.Runner.Invariants.{
  MarkProof, Link, Chain, nil, link, Runs-keeps,
}
use packer_plugin_cloud_hype.Builder.Run.Keys.{
  Leaves, Holds-mark, create-Leaves, boot-Leaves, shutdown-Leaves, collect-Leaves,
}
use packer_plugin_cloud_hype.Builder.Run.{Sdk, IsRunner, run, build_steps, first_bag}

module _ ⦃P : Platform⦄ where
  -- A client in the state bag is one of the configured socket, and comes with a started process.
  abbrev pub HasOwner : Str → P.Bag → Type 0
  HasOwner socket b =
      (P.get_ok "ch_client" b ≡ none)
      ⊎ ((P.get_ok "ch_client" b ≡ some (client (new socket)))
          × (process_of (P.get_ok "ch_cmd" b) ≢ none))

  -- The state bag of a build.
  pub record IsValid (socket : Str) (w : Machine) : Type 0 where
    pub has_ui : P.get_ok "ui" w.bag ≡ some ui
    pub has_owner : HasOwner socket w.bag

  HasOwner-of_same :
      (socket : Str) (a b : P.Bag)
      → P.get_ok "ch_client" b ≡ P.get_ok "ch_client" a
      → P.get_ok "ch_cmd" b ≡ P.get_ok "ch_cmd" a
      → HasOwner socket a
      → HasOwner socket b
  HasOwner-of_same socket a b same_client same_cmd h = grind arith

  -- A step that leaves the ui and the plugin's client and command alone.
  pub record IsAside (s : Step) : Type 0 where
    pub leaves_ui : Leaves "ui" s
    pub leaves_client : Leaves "ch_client" s
    pub leaves_cmd : Leaves "ch_cmd" s

  IsValid-of_same :
      (socket : Str) (u w : Machine)
      → P.get_ok "ui" w.bag ≡ P.get_ok "ui" u.bag
      → P.get_ok "ch_client" w.bag ≡ P.get_ok "ch_client" u.bag
      → P.get_ok "ch_cmd" w.bag ≡ P.get_ok "ch_cmd" u.bag
      → IsValid socket u
      → IsValid socket w
  IsValid-of_same socket u w same_ui same_client same_cmd v = record {
    has_ui = same_ui ∙ v.has_ui;
    has_owner = HasOwner-of_same socket u.bag w.bag same_client same_cmd v.has_owner;
  }

  IsAside-Link :
      (socket : Str) (s : Step)
      → IsAside s
      → Link (IsValid socket) (IsValid socket) (IsValid socket) s
  IsAside-Link socket s a =
      let ran = λ (w : Machine).
        IsValid-of_same socket w (s.run w).1 (a.leaves_ui.in_run w) (a.leaves_client.in_run w)
          (a.leaves_cmd.in_run w) in
      record {
        stays = ran;
        leads = λ w v c. ran w v;
        cleans = λ w.
            IsValid-of_same socket w (s.cleanup w) (a.leaves_ui.in_cleanup w)
              (a.leaves_client.in_cleanup w) (a.leaves_cmd.in_cleanup w);
      }

module _ ⦃P : Platform⦄ (laws : IsBag P) where
  IsValid-mark : (socket : Str) → MarkProof (IsValid socket)
  IsValid-mark socket k w is_mark =
      IsValid-of_same socket w (mark k w)
        (Holds-mark laws "ui" (P.get_ok "ui" w.bag) refl refl k w is_mark refl)
        (Holds-mark laws "ch_client" (P.get_ok "ch_client" w.bag) refl refl k w is_mark refl)
        (Holds-mark laws "ch_cmd" (P.get_ok "ch_cmd" w.bag) refl refl k w is_mark refl)

  launch_run-cmd :
      (binary socket : Str) (w : Machine)
      → let v = (launch_run binary socket w).1 in
        (P.get_ok "ch_cmd" v.bag ≡ P.get_ok "ch_cmd" w.bag)
        ⊎ (process_of (P.get_ok "ch_cmd" v.bag) ≢ none)
  unfolding launch_run settle
  launch_run-cmd binary socket w = grind (arith, laws.get_ok-put, bag-ping_loop)

  launch_run-IsValid :
      (binary socket : Str) (w : Machine)
      → IsValid socket w
      → IsValid socket (launch_run binary socket w).1
  launch_run-IsValid binary socket w v =
      let same_ui = launch_run-Keeps laws "ui" refl refl refl binary socket w in
      let launched = launch_run-Launched binary socket w laws (ground (arith, v.has_ui)) in
      let owned : HasOwner socket (launch_run binary socket w).1.bag =
        elim (StepAction-cases (launch_run binary socket w).0) [
          | inl on ↦ let (client_put, started, _) = launched.0 on in inr (client_put, started)
          | inr off ↦ elim v.has_owner [
            | inl lacks ↦ inl (launched.1 off ∙ lacks)
            | inr (owned, started) ↦ inr (
              launched.1 off ∙ owned,
              elim (launch_run-cmd binary socket w) [
                | inl same ↦ subst (λ x. process_of x ≢ none) (sym same) started
                | inr new_one ↦ new_one
              ],
            )
          ]
        ] in
      record { has_ui = same_ui ∙ v.has_ui; has_owner = owned }

  launch-Link :
      (binary socket : Str)
      → Link (IsValid socket) (IsValid socket) (IsValid socket) (launch_step binary socket)
  unfolding launch_step
  launch-Link binary socket = record {
    stays = launch_run-IsValid binary socket;
    leads = λ w v c. launch_run-IsValid binary socket w v;
    cleans = λ w.
        let bag = (launch_cleanup_lem socket w).2 in
        IsValid-of_same socket w (launch_cleanup socket w).1 (ap (P.get_ok "ui") bag)
          (ap (P.get_ok "ch_client") bag) (ap (P.get_ok "ch_cmd") bag);
  }

  bag-Chain :
      (sdk : Sdk) (c : Config)
      → IsAside (sdk.connect c.comm (comm_host c.network_interfaces))
      → IsAside sdk.provision
      → Chain (IsValid c.ch_socket_path) (IsValid c.ch_socket_path) (build_steps sdk c)
  bag-Chain sdk c connect provision =
      let marks = IsValid-mark c.ch_socket_path in
      let weak = λ (w : Machine) (v : IsValid c.ch_socket_path w). v in
      let aside = IsAside-Link c.ch_socket_path in
      link marks weak (launch-Link c.ch_binary_path c.ch_socket_path) (
        link marks weak
          (aside _ (record {
            leaves_ui = create-Leaves laws "ui" refl c;
            leaves_client = create-Leaves laws "ch_client" refl c;
            leaves_cmd = create-Leaves laws "ch_cmd" refl c;
          }))
          (link marks weak
            (aside _ (record {
              leaves_ui = boot-Leaves laws "ui" refl;
              leaves_client = boot-Leaves laws "ch_client" refl;
              leaves_cmd = boot-Leaves laws "ch_cmd" refl;
            }))
            (link marks weak (aside _ connect) (
              link marks weak (aside _ provision) (
                link marks weak
                  (aside _ (record {
                    leaves_ui = shutdown-Leaves laws "ui" refl;
                    leaves_client = shutdown-Leaves laws "ch_client" refl;
                    leaves_cmd = shutdown-Leaves laws "ch_cmd" refl;
                  }))
                  (link marks weak
                    (aside _ (record {
                      leaves_ui = collect-Leaves laws "ui" refl refl c;
                      leaves_client = collect-Leaves laws "ch_client" refl refl c;
                      leaves_cmd = collect-Leaves laws "ch_cmd" refl refl c;
                    }))
                    (nil weak)))))))

  first_bag-IsValid : (socket : Str) (w : Machine) → IsValid socket (record w { bag = first_bag })
  unfolding first_bag
  first_bag-IsValid socket w = record {
    has_ui = simp laws.get_ok-put;
    has_owner = inl (simp (laws.get_ok-put, laws.get_ok-empty));
  }

  -- At every end of a build the state bag holds the ui that it began with, and a client in it is
  -- one of the configured socket and comes with a started process. The state bag is a map, the
  -- runner does what its documentation says, and the SDK's steps leave the ui, the client and the
  -- command alone.
  pub run-IsValid :
      (sdk : Sdk) (c : Config) (w : Machine)
      → IsRunner sdk
      → IsAside (sdk.connect c.comm (comm_host c.network_interfaces))
      → IsAside sdk.provision
      → IsValid c.ch_socket_path (run sdk c w).1
  unfolding run
  run-IsValid sdk c w runner connect provision =
      let first = record w { bag = first_bag } in
      Runs-keeps (IsValid-mark c.ch_socket_path) (runner (build_steps sdk c) first)
        (bag-Chain sdk c connect provision) (first_bag-IsValid c.ch_socket_path w)
