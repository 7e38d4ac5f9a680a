-- ===== src/Config/Keys/Declared.antt =====
-- config.go `collectKeys`, `knownKeys`: the keys that are collected are the ones that the types
-- declare.
use packer_plugin_cloud_hype.Prelude.{
  ◌≡◌, refl, ◌∙◌, ap, Bool, true, false, ◌&&◌, ◌||◌, not, List, [], ◌∷◌, Str, codes, str_eq,
  is_empty, arith,
}
use packer_plugin_cloud_hype.Go.Strings.{split}
use packer_plugin_cloud_hype.Config.Keys.Tags.{
  has_comma, names_field_plain, names_field-squash, squashes-squash, names_field, squashes,
  names_field-split, squashes-split,
}
use packer_plugin_cloud_hype.Go.Reflect.{GoType, basic, pointer, struct, StructFields, end, field}
use packer_plugin_cloud_hype.Runtime.{Platform}
use packer_plugin_cloud_hype.Config.Keys.Laws.{own_keys}
use packer_plugin_cloud_hype.Config.Keys.{
  contains, tag_name, tag_squash, ignored, collect_keys, collect_fields, own_fields, config_type,
  known_keys,
}

str_eq_sym : (s t : Str) → str_eq s t ≡ str_eq t s
unfolding str_eq
str_eq_sym [] [] = refl
str_eq_sym [] (b ∷ t) = refl
str_eq_sym (a ∷ s) [] = refl
str_eq_sym (a ∷ s) (b ∷ t) = ground (arith, str_eq_sym s t)

-- A field that is not tagged "-" declares its name, and what its type declares, where it is
-- squashed. A pointer counts as what it points to, once.
unfoldable mutual
  unfolding names_field squashes

  pub declares : Str → GoType → Bool
  declares k basic = false
  declares k (struct fs) = declares_field k fs
  declares k (pointer (struct fs)) = declares_field k fs
  declares k (pointer basic) = false
  declares k (pointer (pointer t)) = false

  pub declares_field : Str → StructFields → Bool
  declares_field k end = false
  declares_field k (field tag t rest) =
      let inner = declares k t in
      let outer = declares_field k rest in
      not (str_eq tag (codes "-")) && (names_field k tag || squashes tag && inner) || outer

-- The same by the parts of a tag.
takes : Str → Str → Bool → Bool
takes k tag inner =
    let parts = split b',' tag in
    not (ignored tag)
    && (not (is_empty (tag_name parts)) && str_eq (tag_name parts) k || tag_squash parts && inner)

takes-declared :
    (k tag : Str) (inner : Bool)
    → takes k tag inner
      ≡ (not (str_eq tag (codes "-")) && (names_field k tag || squashes tag && inner))
unfolding takes split str_eq
takes-declared k [] inner = ground (arith, names_field-split k [], squashes-split [])
takes-declared k (c ∷ tag) inner =
    ground (arith, names_field-split k (c ∷ tag), squashes-split (c ∷ tag))

mutual
  unfolding collect_keys declares contains takes

  contains-collect_keys :
      (k : Str) (t : GoType) (keys : List Str)
      → contains k (collect_keys t keys) ≡ (declares k t || contains k keys)
  contains-collect_keys k basic keys = refl
  contains-collect_keys k (struct fs) keys = contains-collect_fields k fs keys
  contains-collect_keys k (pointer (struct fs)) keys = contains-collect_fields k fs keys
  contains-collect_keys k (pointer basic) keys = refl
  contains-collect_keys k (pointer (pointer t)) keys = refl

  contains-collect_fields :
      (k : Str) (fs : StructFields) (keys : List Str)
      → contains k (collect_fields fs keys) ≡ (declares_field k fs || contains k keys)
  contains-collect_fields k end keys = refl
  contains-collect_fields k (field tag t rest) keys = ground (
    arith,
    takes-declared k tag (declares k t),
    str_eq_sym k (tag_name (split b',' tag)),
    contains-collect_keys k t keys,
    contains-collect_keys k t (tag_name (split b',' tag) ∷ keys),
    contains-collect_fields k rest keys,
    contains-collect_fields k rest (collect_keys t keys),
    contains-collect_fields k rest (collect_keys t (tag_name (split b',' tag) ∷ keys)),
    contains-collect_fields k rest (tag_name (split b',' tag) ∷ keys),
  )

-- Fields whose tags are names alone, and their names.
is_plain : StructFields → Bool
is_plain end = true
is_plain (field tag t rest) =
    (not (has_comma tag) && (not (is_empty tag) && not (str_eq tag (codes "-")))) && is_plain rest

tags : StructFields → List Str
tags end = []
tags (field tag t rest) = tag ∷ tags rest

declares-plain :
    (k : Str) (fs : StructFields) → is_plain fs ≡ true → declares_field k fs ≡ contains k (tags fs)
unfolding declares contains is_plain tags
declares-plain k end h = refl
declares-plain k (field tag t rest) h =
    let (named, apart) = names_field_plain k tag (ground arith) (ground arith) in
    ground (arith, named, apart, str_eq_sym k tag, declares-plain k rest)

declares_own : (k : Str) → declares_field k own_fields ≡ contains k own_keys
unfolding is_plain tags str_eq
declares_own k = declares-plain k own_fields refl

-- An embedded struct.
declares-squashed :
    (k : Str) (a : GoType) (fs : StructFields)
    → declares_field k (field (codes ",squash") a fs) ≡ (declares k a || declares_field k fs)
unfolding declares
declares-squashed k a fs =
    let apart : str_eq (codes ",squash") (codes "-") ≡ false = unfold str_eq in refl in
    ground (arith, names_field-squash k, squashes-squash, apart)

either_of : (x y z : Bool) → ((x || (y || z)) || false) ≡ (x || y || z)
either_of x y z = ground arith

-- Two of them, and further fields.
declares-embedded :
    (k : Str) (a b : GoType) (fs : StructFields)
    → (declares k (struct (field (codes ",squash") a (field (codes ",squash") b fs)))
        || contains k [])
      ≡ (declares k a || declares k b || declares_field k fs)
unfolding declares contains
declares-embedded k a b fs =
    ap (λ x. x || false) (declares-squashed k a (field (codes ",squash") b fs))
    ∙ ap (λ x. (declares k a || x) || false) (declares-squashed k b fs)
    ∙ either_of (declares k a) (declares k b) (declares_field k fs)

module _ ⦃P : Platform⦄ where
  -- A key is known exactly when one of the two configurations of the SDK declares it, by its tags
  -- as they are written, or it is one of the plugin's own settings.
  pub contains-known_keys :
      (k : Str)
      → contains k known_keys
        ≡ (declares k P.packer_type || declares k P.comm_type || contains k own_keys)
  unfolding known_keys
  contains-known_keys k =
      contains-collect_keys k (config_type P.packer_type P.comm_type) []
      ∙ declares-embedded k P.packer_type P.comm_type own_fields
      ∙ ap (λ b. declares k P.packer_type || declares k P.comm_type || b) (declares_own k)
