-- ===== src/Tests/Copies.antt =====
-- The theorems on the copies of the disks.
use packer_plugin_cloud_hype.Prelude.{
  ◌≡◌, refl, ◌≢◌, none, some, true, false, [], ◌∷◌, map, Str, codes, str_eq, if◌then◌else◌,
}
use packer_plugin_cloud_hype.Runtime.{
  file, ok, artifact, Artifact, os_remove_all, is_under, continue, Machine, os_open, os_create,
  io_copy, os_mkdir_all,
}
use packer_plugin_cloud_hype.Steps.Collect.{
  writable, destination, copy_file, copy_all, collect_run, collect_body,
}
use packer_plugin_cloud_hype.Steps.Collect.Laws.{is_file, Arrived, copy_file_lem, copy_file_self}
use packer_plugin_cloud_hype.Steps.Collect.Clash.{copy_all_clash}
use packer_plugin_cloud_hype.Steps.Collect.Outcome.{collect_run-Arrived}
use packer_plugin_cloud_hype.Artifact.{destroy, destroy_lem}
use packer_plugin_cloud_hype.Tests.World.{world, world-IsBag, machine, disk}

abbrev first : Str
first = codes "/vm/d.img"

abbrev second : Str
second = codes "/new/d.img"

abbrev here : Str
here = codes "output-web/d.img"

-- Two disks with one file name.
abbrev two : Machine
two = record machine {
  files = λ p.
      if str_eq p first
      then some (file (1 ∷ 2 ∷ []))
      else if str_eq p second
      then some (file (7 ∷ []))
      else none;
}

copied : (copy_file first here two).0 ≡ none
unfolding copy_file os_open os_create io_copy str_eq
copied = refl

apart : str_eq first here ≡ false
unfolding str_eq
apart = refl

apart2 : str_eq second here ≡ false
unfolding str_eq
apart2 = refl

copy_file_lem_example :
    (is_file (two.files first) ≡ true)
    × ((copy_file first here two).1.files second
        ≡ (if str_eq second here then two.files first else two.files second))
copy_file_lem_example = copy_file_lem first here second two copied apart

copied_self : (copy_file first first two).0 ≡ none
unfolding copy_file os_open os_create io_copy str_eq
copied_self = refl

copy_file_self_example : (copy_file first first two).1.files first ≡ some (file [])
copy_file_self_example = copy_file_self first two copied_self

both_copied : (copy_all (codes "output-web") (first ∷ second ∷ []) [] two).0 ≡ ok (here ∷ here ∷ [])
unfolding copy_all copy_file os_open os_create io_copy str_eq destination
both_copied = refl

copy_all_clash_example :
    (here ∷ here ∷ []
      ≡ destination (codes "output-web") first ∷ destination (codes "output-web") first ∷ [])
    × ((copy_all (codes "output-web") (first ∷ second ∷ []) [] two).1.files
          (destination (codes "output-web") first)
        ≡ two.files second)
unfolding destination str_eq
copy_all_clash_example =
    copy_all_clash (codes "output-web") first second two refl apart apart2 both_copied

collected : (collect_run (disk ∷ []) (codes "output-web") machine).0 ≡ continue
unfolding collect_run collect_body writable os_mkdir_all copy_all copy_file os_open os_create
    io_copy str_eq destination
collected = refl

some_disk : writable (disk ∷ []) ≢ []
unfolding writable
some_disk = λ e. cc

collect_run-Arrived_example :
    (world.get_ok "artifact" (collect_run (disk ∷ []) (codes "output-web") machine).1.bag
      ≡ some (
          artifact (record {
            dir = codes "output-web";
            files_list = map (destination (codes "output-web")) (writable (disk ∷ []));
          })))
    × Arrived
        (codes "output-web")
        machine
        (collect_run (disk ∷ []) (codes "output-web") machine).1
        (writable (disk ∷ []))
unfolding writable destination str_eq
collect_run-Arrived_example =
    collect_run-Arrived (disk ∷ []) (codes "output-web") machine world-IsBag refl some_disk
      collected (tt, tt) ((refl, tt), tt) (refl, tt)

abbrev built : Artifact
built = record { dir = codes "output-web"; files_list = here ∷ [] }

-- A machine with the artifact's file.
abbrev full : Machine
full = record machine { files = λ p. if str_eq p here then some (file (1 ∷ [])) else none }

destroyed : (destroy built full).0 ≡ none
unfolding destroy os_remove_all
destroyed = refl

destroy_lem_example :
    (destroy built full).1.files here
    ≡ (if is_under (codes "output-web") here then none else full.files here)
destroy_lem_example = destroy_lem built full here refl destroyed
