-- ===== src/Config/Keys/Tags.antt =====
-- config.go `collectKeys`: what a `mapstructure` tag says, read off its text without taking it apart.
use packer_plugin_cloud_hype.Prelude.{
  ℕ, ◌≡◌, refl, ◌∙◌, sym, Bool, true, false, ◌&&◌, ◌||◌, not, List, [], ◌∷◌, ◌++◌, Str, codes,
  str_eq, is_empty, arith, Bool-cases, inl, inr, ◌==◌, if◌then◌else◌,
}
use packer_plugin_cloud_hype.Go.Strings.{split, prepend, has_prefix}
use packer_plugin_cloud_hype.Config.Keys.{tag_name, tag_squash}

-- A text begins with a word where it is that word, or goes on behind it with a comma.
unfoldable pub opens : Str → Str → Bool
opens word t = str_eq t word || has_prefix t (word ++ b',' ∷ [])

abbrev pub has_comma : Str → Bool
has_comma [] = false
has_comma (c ∷ s) = c == b',' || has_comma s

-- The text behind the first comma.
unfoldable pub behind_comma : Str → Str
behind_comma [] = []
behind_comma (c ∷ s) = if c == b',' then s else behind_comma s

-- A field's own name: any text but the empty one, without a comma, that the tag begins with.
unfoldable pub names_field : Str → Str → Bool
unfolding opens
names_field k tag = not (is_empty k) && (not (has_comma k) && opens k tag)

-- The option "squash" stands behind the first comma.
unfoldable pub squashes : Str → Bool
unfolding opens behind_comma
squashes tag = opens (codes "squash") (behind_comma tag)

tag_name-prepend : (c : ℕ) (ps : List Str) → tag_name (prepend c ps) ≡ c ∷ tag_name ps
tag_name-prepend c [] = refl
tag_name-prepend c (p ∷ ps) = refl

tag_squash-prepend : (c : ℕ) (ps : List Str) → tag_squash (prepend c ps) ≡ tag_squash ps
tag_squash-prepend c [] = refl
tag_squash-prepend c (p ∷ []) = refl
tag_squash-prepend c (p ∷ o ∷ ps) = refl

tag_squash-cons : (ps : List Str) → tag_squash ([] ∷ ps) ≡ str_eq (tag_name ps) (codes "squash")
unfolding str_eq
tag_squash-cons [] = refl
tag_squash-cons (o ∷ ps) = refl

-- The first part of a tag is a word without a comma exactly where the tag begins with that word.
tag_name-split : (k t : Str) → has_comma k ≡ false → str_eq (tag_name (split b',' t)) k ≡ opens k t
unfolding split str_eq has_prefix opens
tag_name-split [] [] h = refl
tag_name-split [] (c ∷ t) h = ground (arith, tag_name-prepend c (split b',' t))
tag_name-split (a ∷ k) [] h = refl
tag_name-split (a ∷ k) (c ∷ t) h =
    ground (arith, tag_name-prepend c (split b',' t), tag_name-split k t)

-- It has no comma.
comma-split : (k t : Str) → has_comma k ≡ true → str_eq (tag_name (split b',' t)) k ≡ false
unfolding split str_eq
comma-split [] t h = cc
comma-split (a ∷ k) [] h = refl
comma-split (a ∷ k) (c ∷ t) h = ground (arith, tag_name-prepend c (split b',' t), comma-split k t)

both_named : (n k : Str) → (not (is_empty n) && str_eq n k) ≡ (not (is_empty k) && str_eq n k)
unfolding str_eq
both_named [] [] = refl
both_named [] (b ∷ k) = refl
both_named (a ∷ n) [] = refl
both_named (a ∷ n) (b ∷ k) = refl

-- The name of a tag.
pub names_field-split :
    (k t : Str)
    → (not (is_empty (tag_name (split b',' t))) && str_eq (tag_name (split b',' t)) k)
      ≡ names_field k t
unfolding names_field
names_field-split k t = both_named (tag_name (split b',' t)) k ∙ elim (Bool-cases (has_comma k)) [
  | inl comma ↦ ground (arith, comma-split k t comma)
  | inr plain ↦ ground (arith, tag_name-split k t plain)
]

-- The option of a tag.
pub squashes-split : (t : Str) → tag_squash (split b',' t) ≡ squashes t
unfolding split squashes opens behind_comma str_eq has_prefix
squashes-split [] = refl
squashes-split (c ∷ t) = elim (Bool-cases (c == b',')) [
  | inl comma ↦
      let parts = split b',' t in
      ground (arith, tag_squash-cons parts, tag_name-split (codes "squash") t refl)
  | inr plain ↦ ground (arith, tag_squash-prepend c (split b',' t), squashes-split t)
]

split-plain : (t : Str) → has_comma t ≡ false → split b',' t ≡ t ∷ []
unfolding split
split-plain [] h = refl
split-plain (c ∷ t) h = ground (arith, split-plain t)

-- A tag without a comma is a name alone.
pub names_field_plain :
    (k t : Str)
    → has_comma t ≡ false
    → is_empty t ≡ false
    → (names_field k t ≡ str_eq t k) × (squashes t ≡ false)
names_field_plain k t plain full =
    let parts = split-plain t plain in
    (sym (names_field-split k t) ∙ rw parts (ground arith), sym (squashes-split t) ∙ rw parts refl)

-- An option alone names nothing.
pub names_field-squash : (k : Str) → names_field k (codes ",squash") ≡ false
unfolding split
names_field-squash k = sym (names_field-split k (codes ",squash"))

pub squashes-squash : squashes (codes ",squash") ≡ true
unfolding squashes behind_comma opens str_eq
squashes-squash = refl
