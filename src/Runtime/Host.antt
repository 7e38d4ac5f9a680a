-- ===== src/Runtime/Host.antt =====
-- The platform: what is not the plugin's own code. The operating system, the clock, the context and
-- the server answer from a state that the plugin does not see; the state bag is the SDK's.
use Prim.Native.String.{String}
use text.Mathlib.Text.{◌==◌}
use packer_plugin_cloud_hype.Prelude.{
  ℕ, ◌+◌, ◌≤◌, ◌≡◌, Bool, Option, none, some, List, Str, if◌then◌else◌,
}
use packer_plugin_cloud_hype.Go.Reflect.{GoType}
use packer_plugin_cloud_hype.Json.{Json}
use packer_plugin_cloud_hype.Runtime.Errors.{Error, Result}
use packer_plugin_cloud_hype.Runtime.Values.{Value}

-- The context of a call: the build's, which can be cancelled, or `context.Background()`.
pub data Context : Type 0 where
  build background : Context

-- One HTTP request over the client's socket.
pub record Request : Type 0 where
  pub context : Context
  pub socket : Str
  pub method : String
  pub path : String
  pub content_type : String
  pub body : Option Str

-- What becomes of a request: no response, a body that cannot be read, or a response.
pub data Exchange : Type 0 where
  no_response unread : Error → Exchange
  response : ℕ → Str → Exchange

-- The calls on the system that may be refused.
pub data Syscall : Type 0 where
  stat open_file create copy close make_dir remove remove_all : Str → Syscall
  stderr_pipe create_temp : Syscall

pub record Platform : Type 1 where
  pub State : Type 0
  pub Bag : Type 0
  pub empty_bag : Bag
  pub get_ok : String → Bag → Option Value
  pub put : String → Value → Bag → Bag
  -- The SDK's configurations, which the plugin's own embeds.
  pub PackerConfig : Type 0
  pub build_name : PackerConfig → Str
  pub CommConfig : Type 0
  -- The two configurations as reflection sees them.
  pub packer_type : GoType
  pub comm_type : GoType
  -- Unicode's lower case, and the text of an IPv6 address.
  pub unicode_lower : Str → Str
  pub parse_v6 : Str → Option Str
  -- `CommConfig.Prepare` fills defaults in, and may read files.
  pub comm_prepare : CommConfig → State → (List Error × CommConfig) × State
  -- `http.NewRequestWithContext`: the method and the URL's path are refused, or not.
  pub new_request : String → String → Option Error
  pub exchange : Request → State → Exchange × State
  -- `json.Marshal` of a value, and `json.Unmarshal` into a list of texts.
  pub marshal : Json → Result Str
  pub unmarshal : Str → Option (List Str)
  -- `<-ctx.Done()` in a `select` with a default.
  pub ctx_done : State → Bool × State
  -- Milliseconds.
  pub now : State → ℕ × State
  pub sleep : ℕ → State → State
  pub fault : Syscall → State → Option Error × State
  -- How many bytes a failed copy has written.
  pub written : State → ℕ × State
  -- Which paths a failed removal of a tree has removed.
  pub lost : State → (Str → Bool) × State
  pub temp_name : State → Str × State
  -- `cmd.Start()` for a binary and its arguments gives the process.
  pub start : Str → List Str → State → Result ℕ × State
  pub terminate : ℕ → State → Option Error × State
  pub kill : ℕ → State → State
  -- Whether the process ends within so many milliseconds.
  pub wait_exit : ℕ → ℕ → State → Bool × State

-- The state bag is a map.
pub record IsBag (P : Platform) : Type 0 where
  pub get_ok-empty : (k : String) → P.get_ok k P.empty_bag ≡ none
  pub get_ok-put :
      (j k : String) (v : Value) (b : P.Bag)
      → P.get_ok j (P.put k v b) ≡ (if j == k then some v else P.get_ok j b)

-- Time does not run backwards, and a sleep takes as long as it says.
pub record IsClock (P : Platform) (time : P.State → ℕ) : Type 0 where
  pub now_reads : (s : P.State) → ((P.now s).0 ≡ time s) × (time s ≤ time (P.now s).1)
  pub time-sleep : (d : ℕ) (s : P.State) → time s + d ≤ time (P.sleep d s)
  pub time-ctx_done : (s : P.State) → time s ≤ time (P.ctx_done s).1
  pub time-exchange : (r : Request) (s : P.State) → time s ≤ time (P.exchange r s).1
