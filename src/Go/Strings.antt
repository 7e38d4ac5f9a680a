-- ===== src/Go/Strings.antt =====
-- Go's `strings` on bytes: case, prefixes, splitting and trimming.
use packer_plugin_cloud_hype.Prelude.{
  ℕ, zero, suc, ◌+◌, ◌-◌, Bool, true, false, ◌&&◌, ◌||◌, Option, none, some, List, [], ◌∷◌, Str,
  map, ltb, leb, ◌==◌, if◌then◌else◌, length,
}
use mathlib.Core.List.{reverse}

abbrev pub is_ascii : Str → Bool
is_ascii [] = true
is_ascii (c ∷ s) = ltb c 128 && is_ascii s

unfoldable pub lower_byte : ℕ → ℕ
lower_byte c = if leb b'A' c && leb c b'Z' then c + 32 else c

unfoldable pub upper_byte : ℕ → ℕ
upper_byte c = if leb b'a' c && leb c b'z' then c - 32 else c

-- `strings.ToLower`. Outside ASCII it goes by Unicode's tables, which are `unicode_lower`.
unfoldable pub to_lower : (Str → Str) → Str → Str
unfolding lower_byte
to_lower unicode_lower s = if is_ascii s then map lower_byte s else unicode_lower s

-- U+FFFD, which stands for a byte that is no character.
abbrev pub replacement : Str
replacement = 239 ∷ 191 ∷ 189 ∷ []

-- `strings.ToUpper` of a text of one byte: a byte that is not ASCII is no character.
unfoldable pub to_upper_one : ℕ → Str
unfolding upper_byte
to_upper_one c = if ltb c 128 then upper_byte c ∷ [] else replacement

-- `strings.HasPrefix`
unfoldable pub has_prefix : Str → Str → Bool
has_prefix s [] = true
has_prefix [] (p ∷ ps) = false
has_prefix (c ∷ s) (p ∷ ps) = c == p && has_prefix s ps

abbrev pub prepend : ℕ → List Str → List Str
prepend c [] = (c ∷ []) ∷ []
prepend c (part ∷ parts) = (c ∷ part) ∷ parts

-- `strings.Split` at one byte.
unfoldable pub split : ℕ → Str → List Str
split sep [] = [] ∷ []
split sep (c ∷ s) = let parts = split sep s in if c == sep then [] ∷ parts else prepend c parts

-- The rest behind one white-space character: ASCII's, U+0085 and U+00A0, and the ones of three bytes.
abbrev after_two : ℕ → Str → Option Str
after_two c s = if c == 133 || c == 160 then some s else none

abbrev space_three : ℕ → ℕ → ℕ → Bool
space_three a b c =
    (a == 225 && b == 154 && c == 128)
    || (a == 226 && b == 128 && (leb 128 c && leb c 138 || c == 168 || c == 169 || c == 175))
    || (a == 226 && b == 129 && c == 159)
    || (a == 227 && b == 128 && c == 128)

abbrev is_space : ℕ → Bool
is_space c = leb 9 c && leb c 13 || c == 32

unfoldable pub after_space : Str → Option Str
after_space [] = none
after_space (a ∷ []) = if is_space a then some [] else none
after_space (a ∷ b ∷ []) =
    if is_space a then some (b ∷ []) else if a == 194 then after_two b [] else none
after_space (a ∷ b ∷ c ∷ s) =
    if is_space a
    then some (b ∷ c ∷ s)
    else if a == 194
    then after_two b (c ∷ s)
    else if space_three a b c
    then some s
    else none

-- The same on a text that is read from its end.
unfoldable pub before_space : Str → Option Str
before_space [] = none
before_space (a ∷ []) = if is_space a then some [] else none
before_space (b ∷ a ∷ []) =
    if is_space b then some (a ∷ []) else if a == 194 then after_two b [] else none
before_space (c ∷ b ∷ a ∷ s) =
    if is_space c
    then some (b ∷ a ∷ s)
    else if b == 194
    then after_two c (a ∷ s)
    else if space_three a b c
    then some s
    else none

-- Each round takes at least a byte, so as many rounds as bytes are enough.
unfoldable pub strip : (Str → Option Str) → ℕ → Str → Str
strip next zero s = s
strip next (suc n) s = elim (next s) [ none ↦ s | some rest ↦ strip next n rest ]

-- `strings.TrimSpace`
unfoldable pub trim_space : Str → Str
unfolding strip after_space before_space
trim_space s =
    let t = strip after_space (length s) s in reverse (strip before_space (length t) (reverse t))
