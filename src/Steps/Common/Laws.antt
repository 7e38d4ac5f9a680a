-- ===== src/Steps/Common/Laws.antt =====
-- The keys of the state bag that an action leaves as they are.
use text.Mathlib.Text.{◌==◌}
use packer_plugin_cloud_hype.Prelude.{String, ◌≡◌, refl, ◌∙◌, ◌⊎◌, inl, inr, false}
use packer_plugin_cloud_hype.Runtime.{
  StepAction, continue, halt, Value, Platform, IsBag, M, Machine,
}

module _ ⦃P : Platform⦄ where
  abbrev pub Keeps : {A : Type 0} → String → M A → Type 0
  Keeps k m = (w : Machine) → P.get_ok k (m w).1.bag ≡ P.get_ok k w.bag

  pub get_ok-put_ne :
      IsBag P
      → (k j : String) → (k == j) ≡ false
      → (v : Value) (b : P.Bag) → P.get_ok k (P.put j v b) ≡ P.get_ok k b
  get_ok-put_ne laws k j other v b = laws.get_ok-put k j v b ∙ rw other

-- A split on what a step returns.
pub StepAction-cases : (a : StepAction) → (a ≡ continue) ⊎ (a ≡ halt)
StepAction-cases continue = inl refl
StepAction-cases halt = inr refl
