-- ===== src/Steps/Collect.antt =====
-- builder/cloud-hypervisor/step_collect_artifact.go: the copies of the writable disks.
pub mod Laws
pub mod Clash
pub mod Outcome
pub mod Warning
pub mod Healthy
use packer_plugin_cloud_hype.Prelude.{
  true, false, Option, none, some, List, [], ◌∷◌, ◌++◌, Str, length, is_empty,
}
use packer_plugin_cloud_hype.Go.FilePath
use packer_plugin_cloud_hype.Runtime.{
  Error, wrap, on_path, on_paths, Result, ok, err, artifact, Platform, Syscall, say, said_count,
  StepAction, continue, M, pure, ◌>>=◌, ◌>>◌, emit, put, fault, Step, os_open, os_create, io_copy,
  os_mkdir_all,
}
use packer_plugin_cloud_hype.Config.{DiskImage}
use packer_plugin_cloud_hype.Steps.Common.{fail, with_ui}

-- The paths of the disks that are not read-only.
unfoldable pub writable : List DiskImage → List Str
writable [] = []
writable (disk ∷ disks) =
    let rest = writable disks in elim disk.readonly [ true ↦ rest | false ↦ disk.path ∷ rest ]

-- Where the copy of a disk goes.
unfoldable pub destination : Str → Str → Str
unfolding FilePath.join FilePath.base
destination dir src = FilePath.join dir (FilePath.base src)

module _ ⦃P : Platform⦄ where
  -- `copyFile`. Closing the source has no effect that the program reads.
  unfoldable pub copy_file : Str → Str → M (Option Error)
  copy_file src dst = do
    unopened ← os_open src
    elim unopened [
      | some e ↦ pure (some (on_path "error opening source file" src e))
      | none ↦ do
        uncreated ← os_create dst
        elim uncreated [
          | some e ↦ pure (some (on_path "error creating destination file" dst e))
          | none ↦ do
            uncopied ← io_copy src dst
            unclosed ← fault (Syscall.close dst)
            elim uncopied [
              | some e ↦ pure (some (on_paths "error copying" src dst e))
              | none ↦ elim unclosed [
                | some e ↦ pure (some (on_path "error closing destination file" dst e))
                | none ↦ pure none
              ]
            ]
        ]
    ]

  unfoldable pub copy_all : Str → List Str → List Str → M (Result (List Str))
  copy_all dir [] copied = pure (ok copied)
  copy_all dir (src ∷ rest) copied = do
    let dest = destination dir src
    e ← copy_file src dest
    elim e [
      | some cause ↦ pure (err (on_paths "error copying disk" src dest cause))
      | none ↦ copy_all dir rest (copied ++ dest ∷ [])
    ]

  abbrev finish : Str → Result (List Str) → M StepAction
  finish dir (err e) = fail e
  finish dir (ok copied) = do
    put "artifact" (artifact (record { dir = dir; files_list = copied }))
    emit (said_count (length copied))
    pure continue

  abbrev collect_files : Str → List Str → M StepAction
  collect_files dir files = do
    e ← os_mkdir_all dir
    elim e [
      | some cause ↦ fail (wrap "error creating output directory" cause)
      | none ↦ do copied ← copy_all dir files []; finish dir copied
    ]

  unfoldable pub collect_body : Str → List Str → M StepAction
  collect_body dir files = elim (is_empty files) [
    | true ↦ do emit (say "No writable disks to collect as artifact"); pure continue
    | false ↦ collect_files dir files
  ]

  unfoldable pub collect_run : List DiskImage → Str → M StepAction
  unfolding collect_body
  collect_run disks dir = with_ui (collect_body dir (writable disks))

  unfoldable pub collect_step : List DiskImage → Str → Step
  unfolding collect_run
  collect_step disks dir = record { run = collect_run disks dir; cleanup = λ w. w }
