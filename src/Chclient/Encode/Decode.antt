-- ===== src/Chclient/Encode/Decode.antt =====
-- Reading a `VMConfig` back from what encoding/json makes of it, as encoding/json would: a missing
-- field is the zero value of its type.
use package.text.Mathlib.Text.{◌==◌}
use packer_plugin_cloud_hype.Prelude.{
  String, ◌≡◌, refl, Bool, false, Option, none, some, List, [], ◌∷◌, Str, arith, if◌then◌else◌,
}
use packer_plugin_cloud_hype.Prelude.Int.{ℤ, pos}
use packer_plugin_cloud_hype.Json.{
  Json, number, boolean, text, array, object, Items, nil, cons, Fields, end, field, items,
}
use packer_plugin_cloud_hype.Chclient.VmConfig.{PayloadConfig, DiskConfig, NetConfig, VmConfig}
use packer_plugin_cloud_hype.Chclient.Encode.{payload_json, disk_json, net_json, to_json}

-- The value of a field.
unfoldable pub get : String → Fields → Option Json
get name end = none
get name (field n j rest) = if n == name then some j else get name rest

abbrev text_of : Option Json → Str
text_of (some (text s)) = s
text_of _ = []

abbrev pointer_of : Option Json → Option Str
pointer_of (some (text s)) = some s
pointer_of _ = none

abbrev flag_of : Option Json → Bool
flag_of (some (boolean b)) = b
flag_of _ = false

abbrev number_of : Option Json → ℤ
number_of (some (number n)) = n
number_of _ = pos 0

abbrev fields_of : Option Json → Fields
fields_of (some (object fs)) = fs
fields_of _ = end

abbrev items_of : Option Json → Items
items_of (some (array js)) = js
items_of _ = nil

unfoldable pub disk_of : Json → DiskConfig
unfolding get
disk_of j =
    let fs = fields_of (some j) in
    record {
      path = text_of (get "path" fs);
      readonly = flag_of (get "readonly" fs);
      image_type = text_of (get "image_type" fs);
      id = text_of (get "id" fs);
    }

unfoldable pub net_of : Json → NetConfig
unfolding get
net_of j =
    let fs = fields_of (some j) in
    record {
      tap = text_of (get "tap" fs);
      mac = text_of (get "mac" fs);
      ip = text_of (get "ip" fs);
      mask = text_of (get "mask" fs);
      id = text_of (get "id" fs);
    }

disk_of-disk_json : (d : DiskConfig) → disk_of (disk_json d) ≡ d
unfolding disk_of
disk_of-disk_json d = ground arith

net_of-net_json : (n : NetConfig) → net_of (net_json n) ≡ n
unfolding net_of
net_of-net_json n = ground arith

-- Every item of an array, read in its order.
module _ {A : Type 0} (decode : Json → A) where
  unfoldable pub list_of : Items → List A
  list_of nil = []
  list_of (cons j js) = decode j ∷ list_of js

list_of-items :
    {A : Type 0} (encode : A → Json) (decode : Json → A)
    → ((x : A) → decode (encode x) ≡ x)
    → (xs : List A) → list_of decode (items encode xs) ≡ xs
unfolding list_of items
list_of-items encode decode h [] = refl
list_of-items encode decode h (x ∷ xs) = cc (h x, list_of-items encode decode h xs)

unfoldable pub payload_of : Option Json → Option PayloadConfig
unfolding get
payload_of none = none
payload_of (some j) =
    let fs = fields_of (some j) in
    some (record {
      kernel = pointer_of (get "kernel" fs);
      initramfs = pointer_of (get "initramfs" fs);
      cmdline = pointer_of (get "cmdline" fs);
      firmware = pointer_of (get "firmware" fs);
    })

payload_of-payload_json : (p : PayloadConfig) → payload_of (some (payload_json p)) ≡ some p
unfolding payload_of
payload_of-payload_json p = ground arith

unfoldable pub from_json : Json → VmConfig
unfolding get payload_of list_of disk_of net_of
from_json j =
    let fs = fields_of (some j) in
    let cpus = fields_of (get "cpus" fs) in
    record {
      cpus = record {
        boot_vcpus = number_of (get "boot_vcpus" cpus);
        max_vcpus = number_of (get "max_vcpus" cpus);
      };
      memory = record { size = number_of (get "size" (fields_of (get "memory" fs))) };
      payload = payload_of (get "payload" fs);
      disks = list_of disk_of (items_of (get "disks" fs));
      net = list_of net_of (items_of (get "net" fs));
      serial = record { mode = text_of (get "mode" (fields_of (get "serial" fs))) };
      console = record { mode = text_of (get "mode" (fields_of (get "console" fs))) };
      rng = record { src = text_of (get "src" (fields_of (get "rng" fs))) };
    }

-- What is read back from the JSON of a configuration is that configuration: no setting is lost by
-- the fields that are left out, and no two share a name.
pub from_json-to_json : (c : VmConfig) → from_json (to_json c) ≡ c
unfolding from_json to_json
from_json-to_json c = grind (
  arith,
  list_of-items disk_json disk_of disk_of-disk_json c.disks,
  list_of-items net_json net_of net_of-net_json c.net,
  payload_of-payload_json,
)
