-- ===== src/Runtime/Errors.antt =====
-- Go errors as data: one constructor for each way that the source formats one.
use packer_plugin_cloud_hype.Prelude.{ℕ, String, Str, ◌≡◌, refl, ◌⊎◌, inl, inr}

pub data Error : Type 0 where
  -- An error of the system or of a library, of which only the identity counts.
  sys : ℕ → Error
  -- What `os.IsNotExist` recognises.
  not_exist : Error
  -- `errors.New(text)`
  new : String → Error
  -- `fmt.Errorf("text: %w", err)`
  wrap : String → Error → Error
  -- `fmt.Errorf("%s %s: %w", method, path, err)`, and with "reading response: " before the cause
  call : String → String → Error → Error
  reading : String → String → Error → Error
  -- `fmt.Errorf("HTTP %d: %s", status, detail)`
  http : ℕ → Str → Error
  -- `fmt.Errorf("text path: %w", err)`, and with two paths
  on_path : String → Str → Error → Error
  on_paths : String → Str → Str → Error → Error

pub data Result (A : Type 0) : Type 0 where
  ok : A → Result A
  err : Error → Result A

pub Result-cases :
    {A : Type 0} (r : Result A) → ((a : A) × (r ≡ ok a)) ⊎ ((e : Error) × (r ≡ err e))
Result-cases (ok a) = inl (a, refl)
Result-cases (err e) = inr (e, refl)
