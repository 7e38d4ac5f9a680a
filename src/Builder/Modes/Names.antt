-- ===== src/Builder/Modes/Names.antt =====
-- builder.go: which name each image type and each console mode is given.
use mathlib.Core.Path.{subst}
use packer_plugin_cloud_hype.Prelude.{
  ◌≡◌, refl, sym, ◌∙◌, ◌-◌, ◌&&◌, leb, true, false, Bool-cases, inl, inr, List, [], ◌∷◌, Str, All,
  map, codes, str_eq, str_eq-eq, is_empty, if◌then◌else◌, arith,
}
use packer_plugin_cloud_hype.Go.Strings.{is_ascii, lower_byte, upper_byte, to_upper_one}
use packer_plugin_cloud_hype.Runtime.{Platform}
use packer_plugin_cloud_hype.Builder.Modes.{
  pascal_case, image_type_for, console_mode_for, normalize_image_type, normalize_console_mode,
}
use packer_plugin_cloud_hype.Builder.Modes.Laws.{
  image_types, console_modes, image-of_ascii, console-of_ascii, normalize_image_type_idem,
  normalize_console_mode_idem,
}

-- A text whose first byte is a capital letter, where it was a small one.
abbrev pub capitalised : Str → Str
capitalised [] = []
capitalised (c ∷ s) = (if leb b'a' c && leb c b'z' then c - 32 else c) ∷ s

-- A text that differs from a name in the case of its ASCII letters at most.
abbrev pub FoldsTo : Str → Str → Type 0
FoldsTo n t = map lower_byte t ≡ map lower_byte n

-- One of the names, in any case of its letters, is given as it stands; any other text has its first
-- byte capitalised and stays otherwise; and a second pass changes nothing.
abbrev pub IsNormal : List Str → (Str → Str) → Str → Type 0
IsNormal names f t =
    All (λ n. FoldsTo n t → f t ≡ n) names
    × (All (λ n. ¬ FoldsTo n t) names → f t ≡ capitalised t)
    × (f (f t) ≡ f t)

pascal_case-of_ascii : (t : Str) → is_ascii t ≡ true → pascal_case t ≡ capitalised t
unfolding pascal_case to_upper_one upper_byte
pascal_case-of_ascii [] h = refl
pascal_case-of_ascii (c ∷ t) h = ground arith

differ : (low n : Str) → ¬ (low ≡ n) → str_eq low n ≡ false
differ low n apart = elim (Bool-cases (str_eq low n)) [
  | inl same ↦ absurd (apart (str_eq-eq low n same))
  | inr h ↦ h
]

is_empty-of_differ : (s : Str) → ¬ (s ≡ []) → is_empty s ≡ false
is_empty-of_differ [] apart = absurd (apart refl)
is_empty-of_differ (c ∷ s) apart = refl

image_type_for-names :
    (t : Str) → All (λ n. FoldsTo n t → image_type_for (map lower_byte t) t ≡ n) image_types
unfolding image_type_for lower_byte str_eq
image_type_for-names t =
    (λ e. rw e refl, (λ e. rw e refl, (λ e. rw e refl, (λ e. rw e refl, (λ e. rw e refl, tt)))))

console_mode_for-names :
    (t : Str) → All (λ n. FoldsTo n t → console_mode_for (map lower_byte t) t ≡ n) console_modes
unfolding console_mode_for lower_byte str_eq
console_mode_for-names t = (
  λ e. rw e refl,
  (
    λ e. rw e refl,
    (λ e. rw e refl, (λ e. rw e refl, (λ e. rw e refl, (λ e. rw e refl, (λ e. rw e refl, tt))))),
  ),
)

image_type_for-other :
    (low t : Str)
    → ¬ (low ≡ codes "raw")
    → ¬ (low ≡ codes "qcow2")
    → ¬ (low ≡ codes "fixedvhd")
    → ¬ (low ≡ codes "vhdx")
    → ¬ (low ≡ [])
    → image_type_for low t ≡ pascal_case t
unfolding image_type_for
image_type_for-other low t raw qcow2 fixed_vhd vhdx full =
    rw
      (
        differ low (codes "raw") raw,
        differ low (codes "qcow2") qcow2,
        differ low (codes "fixedvhd") fixed_vhd,
        differ low (codes "vhdx") vhdx,
        is_empty-of_differ low full,
      )
      refl

console_mode_for-other :
    (low t : Str)
    → ¬ (low ≡ codes "off")
    → ¬ (low ≡ codes "pty")
    → ¬ (low ≡ codes "tty")
    → ¬ (low ≡ codes "file")
    → ¬ (low ≡ codes "socket")
    → ¬ (low ≡ codes "null")
    → ¬ (low ≡ [])
    → console_mode_for low t ≡ pascal_case t
unfolding console_mode_for
console_mode_for-other low t off pty tty file socket null full =
    rw
      (
        differ low (codes "off") off,
        differ low (codes "pty") pty,
        differ low (codes "tty") tty,
        differ low (codes "file") file,
        differ low (codes "socket") socket,
        differ low (codes "null") null,
        is_empty-of_differ low full,
      )
      refl

module _ ⦃P : Platform⦄ where
  normalize_image_type-IsNormal :
      (t : Str) → is_ascii t ≡ true → IsNormal image_types normalize_image_type t
  unfolding lower_byte
  normalize_image_type-IsNormal t h =
      let same = image-of_ascii t h in
      (
        subst (λ (u : Str). All (λ n. FoldsTo n t → u ≡ n) image_types) (sym same)
            (image_type_for-names t),
        λ (raw, (qcow2, (fixed_vhd, (vhdx, (full, x))))).
            same
            ∙ image_type_for-other (map lower_byte t) t raw qcow2 fixed_vhd vhdx full
            ∙ pascal_case-of_ascii t h,
        normalize_image_type_idem t h,
      )

  normalize_console_mode-IsNormal :
      (t : Str) → is_ascii t ≡ true → IsNormal console_modes normalize_console_mode t
  unfolding lower_byte
  normalize_console_mode-IsNormal t h =
      let same = console-of_ascii t h in
      (
        subst (λ (u : Str). All (λ n. FoldsTo n t → u ≡ n) console_modes) (sym same)
            (console_mode_for-names t),
        λ (off, (pty, (tty, (file, (socket, (null, (full, x))))))).
            same
            ∙ console_mode_for-other (map lower_byte t) t off pty tty file socket null full
            ∙ pascal_case-of_ascii t h,
        normalize_console_mode_idem t h,
      )

  -- An ASCII text that is the name of an image type, or of a console mode, in any case of its
  -- letters, is normalised to that name; any other has its first byte capitalised and stays
  -- otherwise. A second pass changes nothing.
  pub normalize_modes-IsNormal :
      (t : Str)
      → is_ascii t ≡ true
      → IsNormal image_types normalize_image_type t
        × IsNormal console_modes normalize_console_mode t
  normalize_modes-IsNormal t h =
      (normalize_image_type-IsNormal t h, normalize_console_mode-IsNormal t h)
