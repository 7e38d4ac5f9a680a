-- ===== src/Config/Hcl/Laws.antt =====
-- config.hcl2spec.go: the specifications against the structs that they fill, and against the keys
-- that config.go knows.
use packer_plugin_cloud_hype.Prelude.{
  ◌≡◌, refl, ◌∙◌, sym, ap, Bool, true, Option, none, some, List, [], ◌∷◌, ◌++◌, map, Str, codes,
  str_eq, str_eq-eq, arith, All, All-of_all, if◌then◌else◌, Bool-cases, inl, inr, ◌||◌,
}
use packer_plugin_cloud_hype.Go.Strings.{has_prefix}
use packer_plugin_cloud_hype.Runtime.{Platform}
use packer_plugin_cloud_hype.Config.Keys.{Any, contains, kept, known_keys, filter_map}
use packer_plugin_cloud_hype.Config.Keys.Laws.{own_keys}
use packer_plugin_cloud_hype.Config.Keys.Declared.{declares, contains-known_keys}
use packer_plugin_cloud_hype.Config.Hcl.Fields.{
  FlatType, packer_fields, comm_fields, setting_fields, flat_config, flat_disk_image,
  flat_network_interface,
}
use packer_plugin_cloud_hype.Config.Hcl.Spec.{
  Cty, Attr, HclSpec, attr, block_list, optional, disk_spec, network_spec, config_spec,
}

-- The entry of a table under a name.
unfoldable pub entry {ℓ} : {A : Type ℓ} → Str → List (Str × A) → Option A
entry k [] = none
entry k ((j, x) ∷ table) = if str_eq k j then some x else entry k table

-- What reads a field of a name and a type: an optional attribute of its type, or the blocks of its
-- struct.
abbrev pub spec_of : Str → FlatType → HclSpec
spec_of k FlatType.text = attr (optional k Cty.text)
spec_of k FlatType.flag = attr (optional k Cty.flag)
spec_of k FlatType.int = attr (optional k Cty.number)
spec_of k FlatType.texts = attr (optional k (Cty.list Cty.text))
spec_of k FlatType.bytes = attr (optional k (Cty.list Cty.number))
spec_of k FlatType.text_map = attr (optional k (Cty.map Cty.text))
spec_of k FlatType.disk_blocks = block_list k disk_spec
spec_of k FlatType.network_blocks = block_list k network_spec

abbrev pub filled : Str → Option FlatType → Option HclSpec
filled k none = none
filled k (some t) = some (spec_of k t)

-- The specification of nested blocks, as one of its own.
abbrev pub attributes : List (Str × Attr) → List (Str × HclSpec)
attributes = map (λ a. (a.0, attr a.1))

specs_of : List (Str × FlatType) → List (Str × HclSpec)
specs_of = map (λ f. (f.0, spec_of f.0 f.1))

entry-specs_of :
    (k : Str) (fs : List (Str × FlatType)) → entry k (specs_of fs) ≡ filled k (entry k fs)
unfolding entry specs_of
entry-specs_of k [] = refl
entry-specs_of k ((j, t) ∷ fs) = elim (Bool-cases (str_eq k j)) [
  | inl same ↦ rw same (ap (λ n. some (spec_of n t)) (sym (str_eq-eq k j same)))
  | inr differ ↦ rw differ (entry-specs_of k fs)
]

config_spec-specs_of :
    (config_spec ≡ specs_of flat_config)
    × (attributes disk_spec ≡ specs_of flat_disk_image)
    × (attributes network_spec ≡ specs_of flat_network_interface)
unfolding config_spec specs_of
config_spec-specs_of = (refl, refl, refl)

-- Under each name, the three specifications hold what reads the field of that name in their struct,
-- by its type, and nothing where the struct has no such field.
pub entry-config_spec :
    (k : Str)
    → (entry k config_spec ≡ filled k (entry k flat_config))
      × (entry k (attributes disk_spec) ≡ filled k (entry k flat_disk_image))
      × (entry k (attributes network_spec) ≡ filled k (entry k flat_network_interface))
entry-config_spec k =
    let (config, disk, network) = config_spec-specs_of in
    (
      ap (entry k) config ∙ entry-specs_of k flat_config,
      ap (entry k) disk ∙ entry-specs_of k flat_disk_image,
      ap (entry k) network ∙ entry-specs_of k flat_network_interface,
    )

-- The names of a table.
abbrev pub names {ℓ} : {A : Type ℓ} → List (Str × A) → List Str
names = map (λ f. f.0)

-- The settings among the fields are the plugin's own.
setting_fields-own : names setting_fields ≡ own_keys
setting_fields-own = refl

contains-append :
    (k : Str) (xs ys : List Str) → contains k (xs ++ ys) ≡ (contains k xs || contains k ys)
unfolding contains
contains-append k [] ys = refl
contains-append k (x ∷ xs) ys = ground (arith, contains-append k xs ys)

-- What holds of each name holds of a name among them.
All-contains :
    (p : Str → Bool) (k : Str) (xs : List Str)
    → contains k xs ≡ true
    → All (λ x. p x ≡ true) xs
    → p k ≡ true
unfolding contains
All-contains p k [] h all_p = cc
All-contains p k (x ∷ xs) h all_p = elim (Bool-cases (str_eq k x)) [
  | inl same ↦ ap p (str_eq-eq k x same) ∙ all_p.0
  | inr differ ↦ All-contains p k xs (ground arith) all_p.1
]

packer_names : All (λ k. has_prefix k (codes "packer_") ≡ true) (names packer_fields)
unfolding has_prefix
packer_names = All-of_all (λ k. has_prefix k (codes "packer_")) (names packer_fields) refl

config_names :
    names config_spec ≡ names packer_fields ++ (names comm_fields ++ names setting_fields)
unfolding config_spec
config_names = refl

module _ ⦃P : Platform⦄ where
  -- The communicator's fields of the flat struct are the ones that its configuration declares.
  abbrev pub BubblesUp : Type 0
  BubblesUp = All (λ k. declares k P.comm_type ≡ true) (names comm_fields)

  kept_of_spec :
      (k : Str) → BubblesUp → contains k (names config_spec) ≡ true → kept known_keys k ≡ true
  kept_of_spec k declared named =
      let parts = ap (contains k) config_names in
      ground (
        arith,
        parts,
        contains-append k (names packer_fields) (names comm_fields ++ names setting_fields),
        contains-append k (names comm_fields) (names setting_fields),
        contains-known_keys k,
        λ (h : contains k (names packer_fields) ≡ true).
            All-contains (λ j. has_prefix j (codes "packer_")) k (names packer_fields) h
              packer_names,
        λ (h : contains k (names comm_fields) ≡ true).
            All-contains (λ j. declares j P.comm_type) k (names comm_fields) h declared,
        setting_fields-own,
      )

  -- A template that HCL has read, with attributes and blocks of the specification alone, passes
  -- the filter whole, where the communicator declares its fields of the flat struct.
  pub filter_map-of_spec :
      (m : List (Str × Any))
      → BubblesUp
      → All (λ e. contains e.0 (names config_spec) ≡ true) m
      → filter_map known_keys m ≡ m
  unfolding filter_map
  filter_map-of_spec [] declared named = refl
  filter_map-of_spec ((k, v) ∷ m) declared named =
      ground (arith, kept_of_spec k declared named.0, filter_map-of_spec m declared named.1)
