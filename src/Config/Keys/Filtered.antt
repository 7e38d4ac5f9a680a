-- ===== src/Config/Keys/Filtered.antt =====
-- config.go `filterRaws` on `knownKeys`: which entries of the arguments are left.
use packer_plugin_cloud_hype.Prelude.{
  ◌≡◌, refl, ◌∙◌, ap, Bool, ◌||◌, none, List, [], ◌∷◌, Str, codes, str_eq, if◌then◌else◌,
}
use packer_plugin_cloud_hype.Go.Strings.{has_prefix}
use packer_plugin_cloud_hype.Runtime.{Platform}
use packer_plugin_cloud_hype.Config.Keys.{
  Raw, mapping, other, contains, known_keys, filter_raws, lookup,
}
use packer_plugin_cloud_hype.Config.Keys.Laws.{own_keys, lookup-filter_map}
use packer_plugin_cloud_hype.Config.Keys.Declared.{declares, contains-known_keys}

module _ ⦃P : Platform⦄ where
  -- The keys that are left: Packer's own, the type, the fields of the SDK's two configurations, and
  -- the plugin's settings.
  abbrev pub is_left : Str → Bool
  is_left k =
      has_prefix k (codes "packer_")
      || str_eq k (codes "type")
      || (declares k P.packer_type || declares k P.comm_type || contains k own_keys)

  -- The arguments one by one: of a map just the entries under those keys, all else as it was.
  abbrev pub IsFiltered : List Raw → List Raw → Type 0
  IsFiltered [] [] = Unit
  IsFiltered (mapping m ∷ raws) (mapping n ∷ outs) =
      ((k : Str) → lookup k n ≡ (if is_left k then lookup k m else none)) × IsFiltered raws outs
  IsFiltered (other a ∷ raws) (other b ∷ outs) = (b ≡ a) × IsFiltered raws outs
  IsFiltered _ _ = ⊥

  -- The arguments that `Prepare` goes on with are the ones that it was given, in their order: of each
  -- map the entries are left whose key begins with "packer_", is "type", is declared by one of the
  -- SDK's two configurations or is one of the plugin's settings, and any other argument is as it was.
  pub filter_raws-IsFiltered : (raws : List Raw) → IsFiltered raws (filter_raws raws known_keys)
  unfolding filter_raws
  filter_raws-IsFiltered [] = tt
  filter_raws-IsFiltered (mapping m ∷ raws) = (
    λ k.
        lookup-filter_map known_keys k m
        ∙ ap
            (λ (b : Bool).
              if has_prefix k (codes "packer_") || str_eq k (codes "type") || b
              then lookup k m
              else none)
            (contains-known_keys k),
    filter_raws-IsFiltered raws,
  )
  filter_raws-IsFiltered (other n ∷ raws) = (refl, filter_raws-IsFiltered raws)
