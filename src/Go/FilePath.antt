-- ===== src/Go/FilePath.antt =====
-- Go's `path/filepath` on a Unix system: `Base`, `Clean` and `Join`.
use packer_plugin_cloud_hype.Prelude.{
  Bool, true, false, List, [], ◌∷◌, ◌++◌, Str, codes, str_eq, is_empty, ◌==◌, if◌then◌else◌,
}
use packer_plugin_cloud_hype.Go.Strings.{split}
use mathlib.Core.List.{reverse}

abbrev pub keep_part : Str → List Str → List Str
keep_part [] parts = parts
keep_part (c ∷ s) parts = (c ∷ s) ∷ parts

abbrev pub nonempty : List Str → List Str
nonempty [] = []
nonempty (s ∷ parts) = keep_part s (nonempty parts)

-- The names between the slashes.
unfoldable pub names : Str → List Str
unfolding split
names p = nonempty (split b'/' p)

abbrev pub last_or : Str → List Str → Str
last_or d [] = d
last_or d (s ∷ parts) = last_or s parts

-- `filepath.Base`
unfoldable pub base : Str → Str
unfolding names
base p = if is_empty p then codes "." else last_or (codes "/") (names p)

abbrev rooted : Str → Bool
rooted [] = false
rooted (c ∷ s) = c == b'/'

-- `..` takes the name before it away; at the root, or behind another `..`, there is none.
abbrev up : Bool → List Str → List Str
up true [] = []
up false [] = codes ".." ∷ []
up r (s ∷ stack) = if str_eq s (codes "..") then codes ".." ∷ s ∷ stack else stack

unfoldable pub walk : Bool → List Str → List Str → List Str
walk r stack [] = stack
walk r stack (s ∷ parts) =
    walk r
      (if str_eq s (codes ".")
        then stack
        else if str_eq s (codes "..")
        then up r stack
        else s ∷ stack)
      parts

unfoldable pub with_slashes : List Str → Str
with_slashes [] = []
with_slashes (s ∷ []) = s
with_slashes (s ∷ t ∷ parts) = s ++ (b'/' ∷ with_slashes (t ∷ parts))

abbrev or_dot : Str → Str
or_dot [] = codes "."
or_dot (c ∷ s) = c ∷ s

-- `filepath.Clean`
unfoldable pub clean : Str → Str
unfolding walk with_slashes names
clean p =
    let inner = with_slashes (reverse (walk (rooted p) [] (names p))) in
    if rooted p then b'/' ∷ inner else or_dot inner

-- `filepath.Join` of two elements.
unfoldable pub join : Str → Str → Str
unfolding clean
join [] [] = []
join [] (c ∷ name) = clean (c ∷ name)
join (c ∷ dir) name = clean ((c ∷ dir) ++ (b'/' ∷ name))
