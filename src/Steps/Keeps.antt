-- ===== src/Steps/Keeps.antt =====
-- What the steps leave in the state bag under the keys that they do not write.
use text.Mathlib.Text.{◌==◌}
use packer_plugin_cloud_hype.Prelude.{ℕ, String, ◌≡◌, refl, false, List, [], ◌∷◌, ◌++◌, Str, arith}
use packer_plugin_cloud_hype.Runtime.{
  Value, Client, Platform, IsBag, Context, Machine, os_open, os_create, io_copy, os_mkdir_all,
}
use packer_plugin_cloud_hype.Config.{DiskImage}
use packer_plugin_cloud_hype.Chclient.VmConfig.{VmConfig}
use packer_plugin_cloud_hype.Chclient.Api.{create_vm, boot_vm, do_request}
use packer_plugin_cloud_hype.Chclient.Api.Laws.{bag-do_request}
use packer_plugin_cloud_hype.Steps.Common.Laws.{Keeps, get_ok-put_ne}
use packer_plugin_cloud_hype.Steps.Launch.{PingEnd, launch_run, settle}
use packer_plugin_cloud_hype.Steps.Launch.Ping.{bag-ping_loop}
use packer_plugin_cloud_hype.Steps.ShutdownVm.Laws.{bag-shutdown_body}
use packer_plugin_cloud_hype.Steps.CreateVm.{create_run}
use packer_plugin_cloud_hype.Steps.BootVm.{boot_run}
use packer_plugin_cloud_hype.Steps.ShutdownVm.{shutdown_run}
use packer_plugin_cloud_hype.Steps.Collect.{destination, copy_file, copy_all, collect_run}

module _ ⦃P : Platform⦄ where
  pub bag-boot_vm : (c : Client) (ctx : Context) (w : Machine) → (boot_vm c ctx w).1.bag ≡ w.bag
  unfolding boot_vm
  bag-boot_vm c ctx w = bag-do_request c ctx _ _ _ _ w

  pub bag-create_vm :
      (c : Client) (ctx : Context) (v : VmConfig) (w : Machine)
      → (create_vm c ctx v w).1.bag ≡ w.bag
  unfolding create_vm do_request
  bag-create_vm c ctx v w = ground arith

  bag-copy_file : (src dst : Str) (w : Machine) → (copy_file src dst w).1.bag ≡ w.bag
  unfolding copy_file os_open os_create io_copy
  bag-copy_file src dst w = ground arith

  pub bag-copy_all :
      (d : Str) (srcs copied : List Str) (w : Machine) → (copy_all d srcs copied w).1.bag ≡ w.bag
  unfolding copy_all
  bag-copy_all d [] copied w = refl
  bag-copy_all d (s ∷ rest) copied w = ground (
    arith,
    bag-copy_file s (destination d s) w,
    bag-copy_all d rest (copied ++ destination d s ∷ []) (copy_file s (destination d s) w).1,
  )

  pub bag-mkdir : (d : Str) (w : Machine) → (os_mkdir_all d w).1.bag ≡ w.bag
  unfolding os_mkdir_all
  bag-mkdir d w = ground arith

module _ ⦃P : Platform⦄ (laws : IsBag P) (k : String) (other : (k == "error") ≡ false) where
  put_error : (v : Value) (b : P.Bag) → P.get_ok k (P.put "error" v b) ≡ P.get_ok k b
  put_error = get_ok-put_ne laws k "error" other

  pub boot_run-Keeps : Keeps k boot_run
  unfolding boot_run
  boot_run-Keeps w = grind (arith, put_error, bag-boot_vm)

  pub create_run-Keeps : (v : VmConfig) → Keeps k (create_run v)
  unfolding create_run
  create_run-Keeps v w = grind (arith, put_error, bag-create_vm)

  settle-Keeps : (k == "ch_client") ≡ false → (c : Client) (end : PingEnd) → Keeps k (settle c end)
  unfolding settle
  settle-Keeps client c end w = grind (arith, put_error, get_ok-put_ne laws k "ch_client" client)

  pub launch_run-Keeps :
      (k == "ch_client") ≡ false
      → (k == "ch_cmd") ≡ false
      → (binary socket : Str) → Keeps k (launch_run binary socket)
  unfolding launch_run
  launch_run-Keeps client cmd binary socket w =
      grind
        (arith, put_error, bag-ping_loop, get_ok-put_ne laws k "ch_cmd" cmd, settle-Keeps client)

  pub shutdown_run-Keeps : (fuel : ℕ) → Keeps k (shutdown_run fuel)
  unfolding shutdown_run
  shutdown_run-Keeps fuel w = grind (arith, put_error, bag-shutdown_body)

  pub collect_run-Keeps :
      (k == "artifact") ≡ false → (disks : List DiskImage) (d : Str) → Keeps k (collect_run disks d)
  unfolding collect_run
  collect_run-Keeps artifact disks d w =
      grind (arith, put_error, get_ok-put_ne laws k "artifact" artifact, bag-mkdir, bag-copy_all)
