-- ===== src/Config/Keys/Laws.antt =====
-- config.go: which keys are collected, and which entries of a template are kept.
use packer_plugin_cloud_hype.Prelude.{
  ◌≡◌, refl, ◌∙◌, true, All, All-of_all, codes, sym, ap, inl, inr, none, List, [], ◌∷◌, Str, str_eq,
  str_eq-eq, if◌then◌else◌, arith, Bool-cases,
}
use packer_plugin_cloud_hype.Config.Keys.{
  Any, Raw, mapping, other, kept, filter_map, filter_raws, lookup, contains, collect_keys,
  known_keys,
}
use packer_plugin_cloud_hype.Runtime.{Platform}
use packer_plugin_cloud_hype.Go.Strings.{split}

-- Under a key, the filtered map holds what the map holds, where the key is kept, and else nothing.
pub lookup-filter_map :
    (keys : List Str) (k : Str) (m : List (Str × Any))
    → lookup k (filter_map keys m) ≡ (if kept keys k then lookup k m else none)
unfolding lookup filter_map
lookup-filter_map keys k [] = ground arith
lookup-filter_map keys k ((j, v) ∷ m) = elim (Bool-cases (str_eq k j)) [
  | inl same ↦
      let e = str_eq-eq k j same in
      let next = lookup-filter_map keys k m in
      let shut : kept keys j ≡ kept keys k = ap (kept keys) (sym e) in
      elim (Bool-cases (kept keys k)) [
        | inl held ↦ rw (shut, held, same) refl
        | inr not_held ↦ rw (shut, not_held, next, not_held) refl
      ]
  | inr differ ↦
      let next = lookup-filter_map keys k m in
      elim (Bool-cases (kept keys j)) [
        | inl held ↦ rw (held, differ, next) refl
        | inr not_held ↦ rw (not_held, next, differ) refl
      ]
]

filter_map_idem :
    (keys : List Str) (m : List (Str × Any))
    → filter_map keys (filter_map keys m) ≡ filter_map keys m
unfolding filter_map
filter_map_idem keys [] = refl
filter_map_idem keys ((j, v) ∷ m) = ground (arith, filter_map_idem keys m)

-- Filtering again with the same keys changes nothing.
pub filter_raws_idem :
    (raws : List Raw) (keys : List Str)
    → filter_raws (filter_raws raws keys) keys ≡ filter_raws raws keys
unfolding filter_raws
filter_raws_idem [] keys = refl
filter_raws_idem (mapping m ∷ raws) keys = cc (filter_map_idem keys m, filter_raws_idem raws keys)
filter_raws_idem (other n ∷ raws) keys = cc (filter_raws_idem raws keys)

-- The settings of the plugin's own.
abbrev pub own_keys : List Str
own_keys =
    codes "ch_binary_path"
    ∷ codes "ch_socket_path"
    ∷ codes "vcpus"
    ∷ codes "memory"
    ∷ codes "cpu_boot"
    ∷ codes "kernel"
    ∷ codes "initramfs"
    ∷ codes "cmdline"
    ∷ codes "firmware"
    ∷ codes "disk_images"
    ∷ codes "network_interfaces"
    ∷ codes "serial"
    ∷ codes "serial_file"
    ∷ codes "console"
    ∷ codes "console_file"
    ∷ codes "rng_source"
    ∷ []

module _ ⦃P : Platform⦄ where
  own_keys_known : All (λ k. contains k known_keys ≡ true) own_keys
  unfolding known_keys collect_keys contains str_eq split
  own_keys_known = All-of_all (λ k. contains k known_keys) own_keys refl

  -- The settings of the plugin's own are not filtered out of a template, whatever the types of the
  -- SDK's two configurations are.
  pub own_keys_kept :
      (m : List (Str × Any)) → All (λ k. lookup k (filter_map known_keys m) ≡ lookup k m) own_keys
  own_keys_kept m = go own_keys own_keys_known
    where
      go :
          (ks : List Str)
          → All (λ k. contains k known_keys ≡ true) ks
          → All (λ k. lookup k (filter_map known_keys m) ≡ lookup k m) ks
      go [] h = tt
      go (k ∷ ks) h = (lookup-filter_map known_keys k m ∙ (ground (arith, h.0)), go ks h.1)
