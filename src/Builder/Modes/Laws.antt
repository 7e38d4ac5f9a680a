-- ===== src/Builder/Modes/Laws.antt =====
-- builder.go: the names of image types and of console modes are in their final form after one pass.
use packer_plugin_cloud_hype.Prelude.{
  Among, List, All, sym, ℕ, ◌≡◌, refl, ◌∙◌, true, ◌⊎◌, inl, inr, [], ◌∷◌, Str, map, codes, str_eq,
  arith, ltb,
}
use packer_plugin_cloud_hype.Go.Strings.{is_ascii, lower_byte, upper_byte, to_lower, to_upper_one}
use packer_plugin_cloud_hype.Runtime.{Platform}
use packer_plugin_cloud_hype.Builder.Modes.{
  pascal_case, image_type_for, console_mode_for, normalize_image_type, normalize_console_mode,
}
use mathlib.Core.Path.{subst}

lower_byte-upper_byte : (c : ℕ) → lower_byte (upper_byte c) ≡ lower_byte c
unfolding lower_byte upper_byte
lower_byte-upper_byte c = ground arith

upper_byte_idem : (c : ℕ) → upper_byte (upper_byte c) ≡ upper_byte c
unfolding upper_byte
upper_byte_idem c = ground arith

upper_byte-ascii : (c : ℕ) → ltb c 128 ≡ true → ltb (upper_byte c) 128 ≡ true
unfolding upper_byte
upper_byte-ascii c h = ground arith

pascal_case-ascii : (t : Str) → is_ascii t ≡ true → is_ascii (pascal_case t) ≡ true
unfolding pascal_case to_upper_one
pascal_case-ascii [] h = refl
pascal_case-ascii (c ∷ t) h = ground (arith, upper_byte-ascii c)

lower-pascal_case :
    (t : Str) → is_ascii t ≡ true → map lower_byte (pascal_case t) ≡ map lower_byte t
unfolding pascal_case to_upper_one
lower-pascal_case [] h = refl
lower-pascal_case (c ∷ t) h = ground (arith, lower_byte-upper_byte c)

pascal_case_idem : (t : Str) → is_ascii t ≡ true → pascal_case (pascal_case t) ≡ pascal_case t
unfolding pascal_case to_upper_one
pascal_case_idem [] h = refl
pascal_case_idem (c ∷ t) h = ground (arith, upper_byte_idem c, upper_byte-ascii c)

-- A `switch` gives one of the names, or goes back to the text as it was, and then for any text.
abbrev Picks : List Str → (Str → Str → Str) → Type 0
Picks names pick =
    (low t : Str)
    → Among (pick low t) names
      ⊎ ((pick low t ≡ pascal_case t) × ((u : Str) → pick low u ≡ pascal_case u))

abbrev once : (Str → Str → Str) → Str → Str
once pick t = pick (map lower_byte t) t

All-Among : (Q : Str → Type 0) (x : Str) (xs : List Str) → Among x xs → All Q xs → Q x
All-Among Q x [] h all_q = elim h [ ]
All-Among Q x (y ∷ ys) (inl e) all_q = subst Q (sym e) all_q.0
All-Among Q x (y ∷ ys) (inr h) all_q = All-Among Q x ys h all_q.1

once-ascii :
    (names : List Str) (pick : Str → Str → Str) (t : Str)
    → Picks names pick
    → All (λ n. is_ascii n ≡ true) names
    → is_ascii t ≡ true
    → is_ascii (once pick t) ≡ true
once-ascii names pick t picks plain h = elim (picks (map lower_byte t) t) [
  | inl named ↦ All-Among (λ n. is_ascii n ≡ true) (once pick t) names named plain
  | inr (e, x) ↦ rw e (pascal_case-ascii t h)
]

-- A `switch` whose names stand is done after one pass.
once_idem :
    (names : List Str) (pick : Str → Str → Str) (t : Str)
    → Picks names pick
    → All (λ n. once pick n ≡ n) names
    → is_ascii t ≡ true
    → once pick (once pick t) ≡ once pick t
once_idem names pick t picks stand h = elim (picks (map lower_byte t) t) [
  | inl named ↦ All-Among (λ n. once pick n ≡ n) (once pick t) names named stand
  | inr (e, all) ↦ rw e (
      (λ i. pick (lower-pascal_case t h i) (pascal_case t))
      ∙ all (pascal_case t)
      ∙ pascal_case_idem t h)
]

abbrev pub image_types : List Str
image_types = codes "Raw" ∷ codes "Qcow2" ∷ codes "FixedVhd" ∷ codes "Vhdx" ∷ [] ∷ []

abbrev pub console_modes : List Str
console_modes =
    codes "Off" ∷ codes "Pty" ∷ codes "Tty" ∷ codes "File" ∷ codes "Socket" ∷ codes "Null" ∷ [] ∷ []

image_type_for-Picks : Picks image_types image_type_for
unfolding image_type_for
image_type_for-Picks low t = ground arith

console_mode_for-Picks : Picks console_modes console_mode_for
unfolding console_mode_for
console_mode_for-Picks low t = ground arith

image_types_stand : All (λ n. once image_type_for n ≡ n) image_types
unfolding image_type_for lower_byte str_eq
image_types_stand = (refl, (refl, (refl, (refl, (refl, tt)))))

console_modes_stand : All (λ n. once console_mode_for n ≡ n) console_modes
unfolding console_mode_for lower_byte str_eq
console_modes_stand = (refl, (refl, (refl, (refl, (refl, (refl, (refl, tt)))))))

module _ ⦃P : Platform⦄ where
  pub image-of_ascii :
      (t : Str) → is_ascii t ≡ true → normalize_image_type t ≡ once image_type_for t
  unfolding normalize_image_type to_lower
  image-of_ascii t h = rw h refl

  pub console-of_ascii :
      (t : Str) → is_ascii t ≡ true → normalize_console_mode t ≡ once console_mode_for t
  unfolding normalize_console_mode to_lower
  console-of_ascii t h = rw h refl

  pub normalize_image_type_idem :
      (t : Str)
      → is_ascii t ≡ true
      → normalize_image_type (normalize_image_type t) ≡ normalize_image_type t
  normalize_image_type_idem t h =
      let plain =
        once-ascii image_types image_type_for t image_type_for-Picks
          (refl, (refl, (refl, (refl, (refl, tt))))) h in
      rw (image-of_ascii t h) (
        image-of_ascii (once image_type_for t) plain
        ∙ once_idem image_types image_type_for t image_type_for-Picks image_types_stand h)

  pub normalize_console_mode_idem :
      (t : Str)
      → is_ascii t ≡ true
      → normalize_console_mode (normalize_console_mode t) ≡ normalize_console_mode t
  normalize_console_mode_idem t h =
      let plain =
        once-ascii console_modes console_mode_for t console_mode_for-Picks
          (refl, (refl, (refl, (refl, (refl, (refl, (refl, tt))))))) h in
      rw (console-of_ascii t h) (
        console-of_ascii (once console_mode_for t) plain
        ∙ once_idem console_modes console_mode_for t console_mode_for-Picks console_modes_stand h)
