-- ===== src/Json.antt =====
-- JSON values, and Go's struct tags: what encoding/json writes for the fields of a struct.
use packer_plugin_cloud_hype.Prelude.{
  String, Bool, true, false, List, [], ◌∷◌, Option, none, some, Str,
}
use packer_plugin_cloud_hype.Prelude.Int.{ℤ}

mutual
  pub data Json : Type 0 where
    number : ℤ → Json
    boolean : Bool → Json
    text : Str → Json
    array : Items → Json
    object : Fields → Json

  pub data Items : Type 0 where
    nil : Items
    cons : Json → Items → Items

  pub data Fields : Type 0 where
    end : Fields
    field : String → Json → Fields → Fields

-- `json:"name,omitempty"` for a text, a Boolean, a pointer to a text and a slice.
abbrev pub omit_text : String → Str → Fields → Fields
omit_text name [] rest = rest
omit_text name (c ∷ s) rest = field name (text (c ∷ s)) rest

abbrev pub omit_false : String → Bool → Fields → Fields
omit_false name false rest = rest
omit_false name true rest = field name (boolean true) rest

abbrev pub omit_nil : String → Option Str → Fields → Fields
omit_nil name none rest = rest
omit_nil name (some s) rest = field name (text s) rest

abbrev pub omit_empty : String → Items → Fields → Fields
omit_empty name nil rest = rest
omit_empty name (cons j js) rest = field name (array (cons j js)) rest

module _ {A : Type 0} (encode : A → Json) where
  unfoldable pub items : List A → Items
  items [] = nil
  items (x ∷ xs) = cons (encode x) (items xs)
