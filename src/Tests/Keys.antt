-- ===== src/Tests/Keys.antt =====
-- The theorems on the names of the settings, over an SDK that declares them.
use packer_plugin_cloud_hype.Prelude.{
  ◌≡◌, refl, ◌||◌, All-of_all, List, [], ◌∷◌, Str, codes, str_eq,
}
use packer_plugin_cloud_hype.Go.Reflect.{basic, StructFields, struct, end, field}
use packer_plugin_cloud_hype.Go.Strings.{has_prefix}
use packer_plugin_cloud_hype.Runtime.{Platform}
use packer_plugin_cloud_hype.Config.Keys.{
  Raw, mapping, other, filter_raws, Any, text, contains, known_keys, filter_map,
}
use packer_plugin_cloud_hype.Config.Keys.Laws.{own_keys}
use packer_plugin_cloud_hype.Config.Keys.Declared.{declares, contains-known_keys}
use packer_plugin_cloud_hype.Config.Keys.Filtered.{IsFiltered, filter_raws-IsFiltered}
use packer_plugin_cloud_hype.Config.Hcl.Fields.{
  comm_fields, flat_config, flat_disk_image, flat_network_interface,
}
use packer_plugin_cloud_hype.Config.Hcl.Spec.{config_spec, disk_spec, network_spec}
use packer_plugin_cloud_hype.Config.Hcl.Laws.{
  entry, filled, attributes, names, entry-config_spec, BubblesUp, filter_map-of_spec,
}
use packer_plugin_cloud_hype.Tests.World.{world}

-- Fields of a basic type under names.
tagged : List Str → StructFields
tagged [] = end
tagged (k ∷ ks) = field k basic (tagged ks)

abbrev sdk_types : Platform
unfolding tagged
sdk_types = record world { comm_type = struct (tagged (names comm_fields)) }

contains-known_keys_example : contains (codes "ssh_host") (known_keys ⦃P = sdk_types⦄) ≡ (
    declares (codes "ssh_host") sdk_types.packer_type
    || declares (codes "ssh_host") sdk_types.comm_type
    || contains (codes "ssh_host") own_keys)
contains-known_keys_example = contains-known_keys ⦃P = sdk_types⦄ (codes "ssh_host")

entry-config_spec_example :
    (entry (codes "image_type") config_spec
      ≡ filled (codes "image_type") (entry (codes "image_type") flat_config))
    × (entry (codes "image_type") (attributes disk_spec)
        ≡ filled (codes "image_type") (entry (codes "image_type") flat_disk_image))
    × (entry (codes "image_type") (attributes network_spec)
        ≡ filled (codes "image_type") (entry (codes "image_type") flat_network_interface))
entry-config_spec_example = entry-config_spec (codes "image_type")

sdk_types-BubblesUp : BubblesUp ⦃P = sdk_types⦄
unfolding declares str_eq has_prefix sdk_types
sdk_types-BubblesUp = All-of_all (λ k. declares k sdk_types.comm_type) (names comm_fields) refl

abbrev template : List (Str × Any)
template = (codes "vcpus", text (codes "2")) ∷ (codes "ssh_host", text []) ∷ []

filter_map-of_spec_example : filter_map (known_keys ⦃P = sdk_types⦄) template ≡ template
unfolding contains config_spec str_eq
filter_map-of_spec_example =
    filter_map-of_spec ⦃P = sdk_types⦄ template sdk_types-BubblesUp (refl, (refl, tt))

abbrev arguments : List Raw
arguments =
    mapping ((codes "unknown", text []) ∷ (codes "packer_debug", text []) ∷ template) ∷ other 1 ∷ []

filter_raws-IsFiltered_example :
    IsFiltered ⦃P = sdk_types⦄ arguments (filter_raws arguments (known_keys ⦃P = sdk_types⦄))
filter_raws-IsFiltered_example = filter_raws-IsFiltered ⦃P = sdk_types⦄ arguments
