-- ===== src/Tests/World.antt =====
-- A platform on which every call of the system succeeds: the clock is its state, the server answers
-- 404 to `vm.info` and 204 to all else.
use text.Mathlib.Text.{◌==◌}
use packer_plugin_cloud_hype.Prelude.{
  ℕ, String, ◌+◌, ◌≡◌, refl, true, false, Option, none, some, List, [], ◌∷◌, Str, codes, str_eq,
  arith, if◌then◌else◌,
}
use packer_plugin_cloud_hype.Prelude.Int.{pos}
use packer_plugin_cloud_hype.Go.Reflect.{basic}
use packer_plugin_cloud_hype.Runtime.{
  Value, ui, ok, Platform, IsBag, IsClock, response, file, Machine, Step, StepAction, continue,
  halt,
}
use packer_plugin_cloud_hype.Config.{DiskImage, Config}
use packer_plugin_cloud_hype.Steps.Healthy.{IsHealthy}
use packer_plugin_cloud_hype.Builder.Runner.{mark}
use packer_plugin_cloud_hype.Builder.Runner.Completes.{
  Completes, done, halted, passed, Runs-of_Completes,
}
use packer_plugin_cloud_hype.Builder.Run.{Sdk, IsRunner}
use packer_plugin_cloud_hype.Builder.Run.Keys.{Leaves, IsForeign}

abbrev Bag : Type 0
Bag = List (String × Value)

abbrev find : String → Bag → Option Value
find j [] = none
find j ((k, v) ∷ b) = if j == k then some v else find j b

instance abbrev pub world : Platform
world = record {
  State = ℕ;
  Bag = Bag;
  empty_bag = [];
  get_ok = find;
  put = λ k v b. (k, v) ∷ b;
  PackerConfig = Str;
  build_name = λ c. c;
  CommConfig = Unit {0};
  packer_type = basic;
  comm_type = basic;
  unicode_lower = λ s. s;
  parse_v6 = λ s. none;
  comm_prepare = λ c s. (([], c), s);
  new_request = λ method path. none;
  exchange = λ r s. (response (if r.path == "/api/v1/vm.info" then 404 else 204) [], s);
  marshal = λ j. ok [];
  unmarshal = λ s. none;
  ctx_done = λ s. (false, s);
  now = λ s. (s, s);
  sleep = λ d s. s + d;
  fault = λ c s. (none, s);
  written = λ s. (0, s);
  lost = λ s. ((λ p. false), s);
  temp_name = λ s. (codes "/tmp/ch-socket-1", s);
  start = λ binary args s. (ok 42, s);
  terminate = λ pid s. (none, s);
  kill = λ pid s. s;
  wait_exit = λ pid ms s. (true, s);
}

pub world-IsBag : IsBag world
world-IsBag = record { get_ok-empty = λ k. refl; get_ok-put = λ j k v b. refl }

pub world-IsClock : IsClock world (λ s. s)
world-IsClock = record {
  now_reads = λ s. (refl, omega arith);
  time-sleep = λ d s. omega arith;
  time-ctx_done = λ s. omega arith;
  time-exchange = λ r s. omega arith;
}

pub world-IsHealthy : IsHealthy world
world-IsHealthy = record {
  live = λ s. refl;
  no_fault = λ call s. refl;
  starts = λ binary args s. (42, refl);
  able = λ method path. refl;
  encodes = λ j. ([], refl);
  accepts = λ r s h. (204, [], rw h refl, omega arith);
}

-- A runner that is never interrupted.
run_steps : List Step → Machine → Machine
run_steps [] w = w
run_steps (s ∷ rest) w = elim (s.run w).0 [
  | halt ↦ s.cleanup (mark "halted" (s.run w).1)
  | continue ↦ s.cleanup (run_steps rest (s.run w).1)
]

unfoldable pub sdk : Sdk
unfolding run_steps
sdk = record {
  connect = λ c host. record { run = λ w. (continue, w); cleanup = λ w. w };
  provision = record { run = λ w. (continue, w); cleanup = λ w. w };
  runner = run_steps;
}

run_steps-Completes : (steps : List Step) (w : Machine) → Completes steps w (run_steps steps w)
unfolding run_steps
run_steps-Completes [] w = done refl
run_steps-Completes (s ∷ rest) w = go (s.run w).0 refl (run_steps-Completes rest (s.run w).1)
  where
    go :
        (a : StepAction)
        → (s.run w).0 ≡ a
        → Completes rest (s.run w).1 (run_steps rest (s.run w).1)
        → Completes (s ∷ rest) w (elim a [
          | halt ↦ s.cleanup (mark "halted" (s.run w).1)
          | continue ↦ s.cleanup (run_steps rest (s.run w).1)
        ])
    go continue e next = passed e next refl
    go halt e next = halted e refl

pub sdk-Completes : (steps : List Step) (w : Machine) → Completes steps w (sdk.runner steps w)
unfolding sdk
sdk-Completes = run_steps-Completes

pub sdk-IsRunner : IsRunner sdk
sdk-IsRunner steps w = Runs-of_Completes (sdk-Completes steps w)

pub passing-Leaves : (k : String) → Leaves k sdk.provision
unfolding sdk
passing-Leaves k = record { in_run = λ w. refl; in_cleanup = λ w. refl }

pub provision-IsForeign : IsForeign sdk.provision
provision-IsForeign = record {
  leaves_cmd = passing-Leaves "ch_cmd";
  leaves_client = passing-Leaves "ch_client";
  leaves_artifact = passing-Leaves "artifact";
}

pub connect-IsForeign : (host : Str) → IsForeign (sdk.connect tt host)
unfolding sdk
connect-IsForeign host = provision-IsForeign

abbrev pub disk : DiskImage
disk = record { path = codes "/vm/d.img"; readonly = false; image_type = codes "raw"; id = [] }

abbrev pub config : Config
config = record {
  packer = codes "web";
  comm = tt;
  ch_binary_path = codes "cloud-hypervisor";
  ch_socket_path = codes "/tmp/s";
  vcpus = pos 2;
  memory = pos 512;
  cpu_boot = none;
  kernel = codes "/vm/k";
  initramfs = [];
  cmdline = [];
  firmware = [];
  disk_images = disk ∷ [];
  network_interfaces = [];
  serial = codes "null";
  serial_file = [];
  console = codes "off";
  console_file = [];
  rng_source = [];
}

abbrev pub machine : Machine
machine = record {
  bag = ("ui", ui) ∷ [];
  log = [];
  files = λ p. if str_eq p (codes "/vm/d.img") then some (file (1 ∷ 2 ∷ [])) else none;
  host = 0;
}
