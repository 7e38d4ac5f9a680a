-- ===== src/Config/Keys.antt =====
-- builder/cloud-hypervisor/config.go: `collectKeys`, `knownKeys` and `filterRaws`.
pub mod Laws
pub mod Tags
pub mod Declared
pub mod Filtered
use packer_plugin_cloud_hype.Prelude.{
  ℕ, Bool, true, false, not, ◌&&◌, ◌||◌, Option, none, some, List, [], ◌∷◌, Str, codes, str_eq,
  is_empty, if◌then◌else◌,
}
use packer_plugin_cloud_hype.Go.Strings.{split, has_prefix}
use packer_plugin_cloud_hype.Go.Reflect.{GoType, basic, pointer, struct, StructFields, end, field}
use packer_plugin_cloud_hype.Runtime.{Platform}

-- A set of keys, as a list.
unfoldable pub contains : Str → List Str → Bool
contains k [] = false
contains k (j ∷ keys) = str_eq k j || contains k keys

-- `parts[0]`, and whether `parts[1]` is "squash".
abbrev pub tag_name : List Str → Str
tag_name [] = []
tag_name (name ∷ parts) = name

abbrev pub tag_squash : List Str → Bool
tag_squash [] = false
tag_squash (name ∷ []) = false
tag_squash (name ∷ option ∷ parts) = str_eq option (codes "squash")

abbrev pub ignored : Str → Bool
ignored tag = is_empty tag || str_eq tag (codes "-")

unfoldable mutual
  unfolding split

  pub collect_keys : GoType → List Str → List Str
  collect_keys basic keys = keys
  collect_keys (struct fs) keys = collect_fields fs keys
  collect_keys (pointer (struct fs)) keys = collect_fields fs keys
  collect_keys (pointer basic) keys = keys
  collect_keys (pointer (pointer t)) keys = keys

  pub collect_fields : StructFields → List Str → List Str
  collect_fields end keys = keys
  collect_fields (field tag t rest) keys =
      let name = tag_name (split b',' tag) in
      let is_squash = tag_squash (split b',' tag) in
      let inner = collect_keys t keys in
      let outer = collect_keys t (name ∷ keys) in
      collect_fields rest (
        if ignored tag
        then keys
        else if is_empty name && is_squash
        then inner
        else if is_empty name
        then keys
        else if is_squash
        then outer
        else name ∷ keys)

-- The fields of `Config` behind the two that are embedded, by their tags.
abbrev pub own_fields : StructFields
own_fields = field (codes "ch_binary_path") basic (
    field (codes "ch_socket_path") basic (
      field (codes "vcpus") basic (
        field (codes "memory") basic (
          field (codes "cpu_boot") (pointer basic) (
            field (codes "kernel") basic (
              field (codes "initramfs") basic (
                field (codes "cmdline") basic (
                  field (codes "firmware") basic (
                    field (codes "disk_images") basic (
                      field (codes "network_interfaces") basic (
                        field (codes "serial") basic (
                          field (codes "serial_file") basic (
                            field (codes "console") basic (
                              field (codes "console_file") basic
                                (field (codes "rng_source") basic end)))))))))))))))

abbrev pub config_type : GoType → GoType → GoType
config_type packer comm =
    struct (field (codes ",squash") packer (field (codes ",squash") comm own_fields))

unfoldable pub known_keys : ⦃P : Platform⦄ → List Str
unfolding collect_keys
known_keys ⦃P⦄ = collect_keys (config_type P.packer_type P.comm_type) []

-- A value of a decoded template: a text, or one of another dynamic type.
pub data Any : Type 0 where
  text : Str → Any
  opaque : ℕ → Any

-- An argument of `Prepare`: a `map[string]any`, or something else.
pub data Raw : Type 0 where
  mapping : List (Str × Any) → Raw
  other : ℕ → Raw

abbrev pub kept : List Str → Str → Bool
kept keys k = has_prefix k (codes "packer_") || str_eq k (codes "type") || contains k keys

unfoldable pub filter_map : List Str → List (Str × Any) → List (Str × Any)
filter_map keys [] = []
filter_map keys ((k, v) ∷ m) =
    let rest = filter_map keys m in if kept keys k then (k, v) ∷ rest else rest

abbrev pub filter_raw : List Str → Raw → Raw
filter_raw keys (mapping m) = mapping (filter_map keys m)
filter_raw keys (other n) = other n

unfoldable pub filter_raws : List Raw → List Str → List Raw
unfolding filter_map
filter_raws [] keys = []
filter_raws (raw ∷ raws) keys = filter_raw keys raw ∷ filter_raws raws keys

-- `m[k]` with its `ok`.
unfoldable pub lookup : Str → List (Str × Any) → Option Any
lookup k [] = none
lookup k ((j, v) ∷ m) = if str_eq k j then some v else lookup k m
