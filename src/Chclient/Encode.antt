-- ===== src/Chclient/Encode.antt =====
-- What encoding/json makes of a `VMConfig`, by the struct tags of chclient/client.go.
pub mod Decode
use packer_plugin_cloud_hype.Prelude.{Option, none, some, Str}
use packer_plugin_cloud_hype.Json.{
  Json, number, text, object, Fields, end, field, omit_text, omit_false, omit_nil, omit_empty,
  items,
}
use packer_plugin_cloud_hype.Chclient.VmConfig.{
  CpusConfig, MemoryConfig, PayloadConfig, DiskConfig, NetConfig, RngConfig, VmConfig,
}

abbrev cpus_json : CpusConfig → Json
cpus_json c =
    object (field "boot_vcpus" (number c.boot_vcpus) (field "max_vcpus" (number c.max_vcpus) end))

abbrev memory_json : MemoryConfig → Json
memory_json m = object (field "size" (number m.size) end)

abbrev pub payload_json : PayloadConfig → Json
payload_json p = object (
    omit_nil "kernel" p.kernel (
      omit_nil "initramfs" p.initramfs
        (omit_nil "cmdline" p.cmdline (omit_nil "firmware" p.firmware end))))

abbrev pub disk_json : DiskConfig → Json
disk_json d = object (
    field "path" (text d.path) (
      omit_false "readonly" d.readonly
        (omit_text "image_type" d.image_type (omit_text "id" d.id end))))

abbrev pub net_json : NetConfig → Json
net_json n = object (
    omit_text "tap" n.tap (
      omit_text "mac" n.mac
        (omit_text "ip" n.ip (omit_text "mask" n.mask (omit_text "id" n.id end)))))

abbrev mode_json : Str → Json
mode_json m = object (field "mode" (text m) end)

abbrev rng_json : RngConfig → Json
rng_json r = object (field "src" (text r.src) end)

abbrev omit_payload : Option PayloadConfig → Fields → Fields
omit_payload none rest = rest
omit_payload (some p) rest = field "payload" (payload_json p) rest

unfoldable pub to_json : VmConfig → Json
unfolding items
to_json c = object (
    field "cpus" (cpus_json c.cpus) (
      field "memory" (memory_json c.memory) (
        omit_payload c.payload (
          omit_empty "disks" (items disk_json c.disks) (
            omit_empty "net" (items net_json c.net) (
              field "serial" (mode_json c.serial.mode) (
                field "console" (mode_json c.console.mode) (field "rng" (rng_json c.rng) end))))))))
