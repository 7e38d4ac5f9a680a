-- ===== src/Builder/Protocol.antt =====
-- What one build may ask of the monitor, without the steps that ask it: the requests of
-- builder/cloud-hypervisor/chclient/client.go as calls, and the phases of one virtual machine.
use text.Mathlib.Text.{◌==◌}
use text.Mathlib.TextEquality.{eq_iff}
use packer_plugin_cloud_hype.Prelude.{
  String, ◌≡◌, refl, Bool, true, ◌&&◌, Option, none, some, List, [], ◌∷◌, arith, if◌then◌else◌,
}
use packer_plugin_cloud_hype.Runtime.{Request}

pub data Call : Type 0 where
  ping create boot shutdown info delete : Call

-- The phases of the virtual machine, as the requests alone tell them.
pub data Phase : Type 0 where
  idle created booted stopping deleted : Phase

abbrev pub method_of : Call → String
method_of ping = "GET"
method_of info = "GET"
method_of _ = "PUT"

abbrev pub path_of : Call → String
path_of ping = "/api/v1/vmm.ping"
path_of create = "/api/v1/vm.create"
path_of boot = "/api/v1/vm.boot"
path_of shutdown = "/api/v1/vm.shutdown"
path_of info = "/api/v1/vm.info"
path_of delete = "/api/v1/vm.delete"

abbrev pub is_call : Call → String → String → Bool
is_call c method path = method == method_of c && path == path_of c

abbrev pub call_of : String → String → Option Call
call_of m p =
    if is_call ping m p
    then some ping
    else if is_call create m p
    then some create
    else if is_call boot m p
    then some boot
    else if is_call shutdown m p
    then some shutdown
    else if is_call info m p
    then some info
    else if is_call delete m p
    then some delete
    else none

pub call_of_is : (c : Call) (m p : String) → is_call c m p ≡ true → call_of m p ≡ some c
call_of_is c m p h =
    let same_method : m ≡ method_of c = (eq_iff m (method_of c)).0 (ground arith) in
    let same_path : p ≡ path_of c = (eq_iff p (path_of c)).0 (ground arith) in
    rw (same_method, same_path) (go c)
  where
    go : (c : Call) → call_of (method_of c) (path_of c) ≡ some c
    go ping = refl
    go create = refl
    go boot = refl
    go shutdown = refl
    go info = refl
    go delete = refl

-- The API is looked for before there is a virtual machine. It is created once, booted once, asked
-- at most once to shut down, then looked at until it is gone or deleted, and nothing but the
-- deletion is asked again.
abbrev pub next : Phase → Call → Option Phase
next idle ping = some idle
next idle create = some created
next created boot = some booted
next booted shutdown = some stopping
next booted info = some stopping
next booted delete = some deleted
next stopping info = some stopping
next stopping delete = some deleted
next deleted delete = some deleted
next _ _ = none

abbrev pub next_of : Option Phase → Option Call → Option Phase
next_of (some phase) (some call) = next phase call
next_of _ _ = none

-- The phase that the requests lead to, newest first; none where one of them is out of turn.
abbrev pub replay : List Request → Option Phase
replay [] = some idle
replay (r ∷ rs) = next_of (replay rs) (call_of r.method r.path)
