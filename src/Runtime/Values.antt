-- ===== src/Runtime/Values.antt =====
-- chclient/client.go `Client`, artifact.go `Artifact`, `exec.Cmd`, and the values of a state bag.
use packer_plugin_cloud_hype.Prelude.{ℕ, Bool, true, false, Option, none, some, List, Str}
use packer_plugin_cloud_hype.Runtime.Errors.{Error}

-- The HTTP client of Go's library, which the source keeps beside the path, dials that path.
pub record Client : Type 0 where
  pub socket_path : Str

pub record Artifact : Type 0 where
  pub dir : Str
  pub files_list : List Str

-- A started command has a process.
pub record Cmd : Type 0 where
  pub process : Option ℕ

-- What a state bag holds: the dynamic types that the source asks for, and any other.
pub data Value : Type 0 where
  ui hook settings generated_data : Value
  client : Client → Value
  cmd : Cmd → Value
  failure : Error → Value
  artifact : Artifact → Value
  foreign : ℕ → Value

-- The type assertions of the source.
abbrev pub is_ui : Option Value → Bool
is_ui (some ui) = true
is_ui _ = false

abbrev pub as_client : Option Value → Option Client
as_client (some (client c)) = some c
as_client _ = none

abbrev pub as_cmd : Option Value → Option Cmd
as_cmd (some (cmd c)) = some c
as_cmd _ = none

abbrev pub as_error : Value → Option Error
as_error (failure e) = some e
as_error _ = none

abbrev pub as_artifact : Option Value → Option Artifact
as_artifact (some (artifact a)) = some a
as_artifact _ = none
