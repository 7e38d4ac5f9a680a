-- ===== src/Artifact.antt =====
-- builder/cloud-hypervisor/artifact.go: the methods of the artifact.
use packer_plugin_cloud_hype.Prelude.{
  ◌≡◌, false, Option, none, some, List, [], ◌∷◌, ◌++◌, Str, codes, str_eq, arith, is_empty,
  if◌then◌else◌,
}
use packer_plugin_cloud_hype.Go.FilePath
use packer_plugin_cloud_hype.Runtime.{
  Error, wrap, Artifact, Platform, Machine, M, pure, ◌>>=◌, os_remove_all, is_under,
}

abbrev pub builder_id : Str
builder_id = codes "eryoma.cloud-hypervisor"

abbrev pub files : Artifact → List Str
files a = a.files_list

unfoldable pub id : Artifact → Str
unfolding FilePath.base
id a = FilePath.base a.dir

abbrev pub describe : Artifact → Str
describe a = codes "Cloud-Hypervisor images in: " ++ a.dir

-- The metadata under the SDK's own key of an image registry, which are none so far.
abbrev pub artifact_state : Artifact → Option (List (Str × Str))
artifact_state a = none

-- The metadata under a name, as a map, or nil. `uri` is the SDK's key.
unfoldable pub state : Str → Artifact → Str → Option (List (Str × Str))
unfolding id
state uri a name =
    if str_eq name (codes "generated_data")
    then some ((codes "artifact_id", id a) ∷ [])
    else if str_eq name uri
    then artifact_state a
    else none

module _ ⦃P : Platform⦄ where
  abbrev pub destroy_error : Option Error → Option Error
  destroy_error none = none
  destroy_error (some e) = some (wrap "error destroying artifact" e)

  unfoldable pub destroy : Artifact → M (Option Error)
  destroy a = do e ← os_remove_all a.dir; pure (destroy_error e)

  os_remove_all_lem :
      (d : Str) (w : Machine) (q : Str)
      → is_empty d ≡ false
      → (os_remove_all d w).0 ≡ none
      → (os_remove_all d w).1.files q ≡ (if is_under d q then none else w.files q)
  unfolding os_remove_all
  os_remove_all_lem [] w q named done = absurd (ground arith)
  os_remove_all_lem (c ∷ d) w q named done = ground arith

  -- Where the artifact has a directory, and its destruction reports no error, nothing is left at the
  -- directory or under it, and every other path is as it was.
  pub destroy_lem :
      (a : Artifact) (w : Machine) (q : Str)
      → is_empty a.dir ≡ false
      → (destroy a w).0 ≡ none
      → (destroy a w).1.files q ≡ (if is_under a.dir q then none else w.files q)
  unfolding destroy
  destroy_lem a w q named done = ground (arith, os_remove_all_lem a.dir w q named)
