-- ===== src/Go/Reflect.antt =====
-- The types of Go as `reflect` shows them to the plugin: a struct's fields, each with its
-- `mapstructure` tag, a pointer, and any other type.
use packer_plugin_cloud_hype.Prelude.{Str}

mutual
  pub data GoType : Type 0 where
    basic : GoType
    pointer : GoType → GoType
    struct : StructFields → GoType

  pub data StructFields : Type 0 where
    end : StructFields
    field : Str → GoType → StructFields → StructFields
