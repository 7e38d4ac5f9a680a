-- ===== src/Runtime/FileCalls.antt =====
-- The calls of Go's `os` and `io` that the plugin makes on files. A file is named by its path text.
use Prim.Native.Nat.{ℕ, suc, zero}
use packer_plugin_cloud_hype.Prelude.{
  Bool, true, false, ◌||◌, ◌&&◌, ◌++◌, Option, none, some, List, [], ◌∷◌, Str, str_eq,
  if◌then◌else◌,
}
use packer_plugin_cloud_hype.Go.Strings.{has_prefix}
use packer_plugin_cloud_hype.Runtime.Errors.{Error, not_exist, new, Result, ok, err}
use packer_plugin_cloud_hype.Runtime.Host.{Platform, Syscall}
use packer_plugin_cloud_hype.Runtime.Effects.{
  Node, file, dir, removed, M, pure, ◌>>=◌, ◌>>◌, emit, ask, fault,
}

abbrev pub Files : Type 0
Files = Str → Option Node

abbrev pub write : Str → Node → Files → Files
write p n fs q = if str_eq q p then some n else fs q

abbrev pub unlink : Str → Files → Files
unlink p fs q = if str_eq q p then none else fs q

pub take : ℕ → List ℕ → List ℕ
take zero xs = []
take (suc n) [] = []
take (suc n) (x ∷ xs) = x ∷ take n xs

-- A path, or one below it.
abbrev pub is_under : Str → Str → Bool
is_under p q = str_eq q p || has_prefix q (p ++ b'/' ∷ [])

-- What `os.Stat` tells: whether the path is a directory.
abbrev is_dir : Option Node → Result Bool
is_dir none = err not_exist
is_dir (some dir) = ok true
is_dir (some (file bytes)) = ok false

abbrev content : Option Node → Result (List ℕ)
content none = err not_exist
content (some dir) = err (new "is a directory")
content (some (file bytes)) = ok bytes

module _ ⦃P : Platform⦄ where
  abbrev look : Str → M (Option Node)
  look p w = (w.files p, w)

  abbrev change : (Files → Files) → M (Unit {0})
  change f w = (tt, record w { files = f w.files })

  unfoldable pub os_stat : Str → M (Result Bool)
  os_stat p = do
    refused ← fault (Syscall.stat p)
    found ← look p
    elim refused [ some e ↦ pure (err e) | none ↦ pure (is_dir found) ]

  abbrev opened : Option Node → Option Error
  opened none = some not_exist
  opened (some n) = none

  -- `os.Open`
  unfoldable pub os_open : Str → M (Option Error)
  os_open p = do
    refused ← fault (Syscall.open_file p)
    found ← look p
    elim refused [ some e ↦ pure (some e) | none ↦ pure (opened found) ]

  abbrev truncate : Str → Option Node → M (Option Error)
  truncate p (some dir) = pure (some (new "is a directory"))
  truncate p (some (file bytes)) = do change (write p (file [])); pure none
  truncate p none = do change (write p (file [])); pure none

  -- `os.Create`: the file is empty afterwards.
  unfoldable pub os_create : Str → M (Option Error)
  os_create p = do
    refused ← fault (Syscall.create p)
    found ← look p
    elim refused [ some e ↦ pure (some e) | none ↦ truncate p found ]

  -- `os.CreateTemp` makes an empty file of a fresh name.
  unfoldable pub os_create_temp : M (Result Str)
  os_create_temp = do
    refused ← fault Syscall.create_temp
    elim refused [
      | some e ↦ pure (err e)
      | none ↦ do p ← ask P.temp_name; change (write p (file [])); pure (ok p)
    ]

  abbrev transfer : Str → Option Error → Result (List ℕ) → M (Option Error)
  transfer dst refused (err e) = pure (some e)
  transfer dst none (ok bytes) = do change (write dst (file bytes)); pure none
  transfer dst (some e) (ok bytes) = do
    k ← ask P.written
    change (write dst (file (take k bytes)))
    pure (some e)

  -- `io.Copy` between two open files. What it reads is what the source holds now; a copy that
  -- fails has written a part.
  unfoldable pub io_copy : Str → Str → M (Option Error)
  io_copy src dst = do
    refused ← fault (Syscall.copy dst)
    found ← look src
    transfer dst refused (content found)

  abbrev made : Str → Option Node → M (Option Error)
  made p none = do change (write p dir); pure none
  made p (some dir) = pure none
  made p (some (file bytes)) = pure (some (new "not a directory"))

  -- `os.MkdirAll`; the parents are not recorded.
  unfoldable pub os_mkdir_all : Str → M (Option Error)
  os_mkdir_all p = do
    refused ← fault (Syscall.make_dir p)
    found ← look p
    elim refused [ some e ↦ pure (some e) | none ↦ made p found ]

  abbrev unlinked : Str → Option Node → M (Option Error)
  unlinked p none = pure (some not_exist)
  unlinked p (some n) = do change (unlink p); pure none

  -- `os.Remove`
  unfoldable pub os_remove : Str → M (Option Error)
  os_remove p = do
    emit (removed p)
    refused ← fault (Syscall.remove p)
    found ← look p
    elim refused [ some e ↦ pure (some e) | none ↦ unlinked p found ]

  -- `os.RemoveAll` of a path that is not empty: what lies at it and under it goes. A removal that
  -- fails has removed a part.
  abbrev clear : Str → (Str → Bool) → Files → Files
  clear p lost fs q = if is_under p q && lost q then none else fs q

  abbrev cleared_tree : Str → Option Error → M (Option Error)
  cleared_tree p none = do change (clear p (λ q. true)); pure none
  cleared_tree p (some e) = do part ← ask P.lost; change (clear p part); pure (some e)

  unfoldable pub os_remove_all : Str → M (Option Error)
  os_remove_all [] = pure none
  os_remove_all (c ∷ p) = do
    refused ← fault (Syscall.remove_all (c ∷ p))
    cleared_tree (c ∷ p) refused
