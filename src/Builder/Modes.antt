-- ===== src/Builder/Modes.antt =====
-- builder/cloud-hypervisor/builder.go: the names of image types and of console modes.
pub mod Laws
pub mod Names
use packer_plugin_cloud_hype.Prelude.{[], ◌∷◌, ◌++◌, Str, codes, str_eq, is_empty, if◌then◌else◌}
use packer_plugin_cloud_hype.Go.Strings.{to_lower, to_upper_one}
use packer_plugin_cloud_hype.Runtime.{Platform}
use packer_plugin_cloud_hype.Config.Prepare.{default_serial_mode}

-- `pascalCase`: the first byte alone is put in upper case.
unfoldable pub pascal_case : Str → Str
unfolding to_upper_one
pascal_case [] = []
pascal_case (c ∷ s) = to_upper_one c ++ s

-- The `switch` on the text in lower case, whose `default` goes back to the text as it was.
unfoldable pub image_type_for : Str → Str → Str
unfolding pascal_case
image_type_for low t =
    if str_eq low (codes "raw")
    then codes "Raw"
    else if str_eq low (codes "qcow2")
    then codes "Qcow2"
    else if str_eq low (codes "fixedvhd")
    then codes "FixedVhd"
    else if str_eq low (codes "vhdx")
    then codes "Vhdx"
    else if is_empty low
    then []
    else pascal_case t

unfoldable pub console_mode_for : Str → Str → Str
unfolding pascal_case
console_mode_for low m =
    if str_eq low (codes "off")
    then codes "Off"
    else if str_eq low (codes "pty")
    then codes "Pty"
    else if str_eq low (codes "tty")
    then codes "Tty"
    else if str_eq low (codes "file")
    then codes "File"
    else if str_eq low (codes "socket")
    then codes "Socket"
    else if str_eq low (codes "null")
    then default_serial_mode
    else if is_empty low
    then []
    else pascal_case m

module _ ⦃P : Platform⦄ where
  unfoldable pub normalize_image_type : Str → Str
  unfolding image_type_for to_lower
  normalize_image_type t = image_type_for (to_lower P.unicode_lower t) t

  unfoldable pub normalize_console_mode : Str → Str
  unfolding console_mode_for to_lower
  normalize_console_mode m = console_mode_for (to_lower P.unicode_lower m) m
