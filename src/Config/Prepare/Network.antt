-- ===== src/Config/Prepare/Network.antt =====
-- config.go `Prepare`: the communicator that a template asks for, and the network that it needs.
use mathlib.Core.Path.{subst}
use packer_plugin_cloud_hype.Prelude.{
  ◌∷◌, none, some, refl, inl, inr, codes, Option-cases, ◌≡◌, sym, ◌↔◌, ◌⊎◌, false, List, [], Str,
  str_eq-eq, str_eq_iff, is_empty, arith,
}
use packer_plugin_cloud_hype.Config.Types.{NetworkInterface}
use packer_plugin_cloud_hype.Config.Keys.{Raw, mapping, other, text, opaque, lookup}
use packer_plugin_cloud_hype.Config.Prepare.{explicit_comm, network_problems}

-- The template asks for a communicator: the first argument that is a map with the key
-- "communicator" has the text there.
abbrev pub IsAsked : Str → List Raw → Type 0
IsAsked s [] = ⊥
IsAsked s (other n ∷ raws) = IsAsked s raws
IsAsked s (mapping m ∷ raws) =
    (lookup (codes "communicator") m ≡ some (text s))
    ⊎ ((lookup (codes "communicator") m ≡ none) × IsAsked s raws)

-- A communicator that was asked for, other than "none" and the empty text, has an interface.
abbrev pub HasNetwork : List Raw → List NetworkInterface → Type 0
HasNetwork raws ifaces =
    (comm : Str)
    → IsAsked comm raws
    → (comm ≡ []) ⊎ ((comm ≡ codes "none") ⊎ (is_empty ifaces ≡ false))

explicit_comm-of_IsAsked : (s : Str) (raws : List Raw) → IsAsked s raws → explicit_comm raws ≡ s
unfolding explicit_comm
explicit_comm-of_IsAsked s [] h = elim h [ ]
explicit_comm-of_IsAsked s (other n ∷ raws) h = explicit_comm-of_IsAsked s raws h
explicit_comm-of_IsAsked s (mapping m ∷ raws) (inl e) = rw (e, explicit_comm) refl
explicit_comm-of_IsAsked s (mapping m ∷ raws) (inr (e, h)) =
    rw (e, explicit_comm) (explicit_comm-of_IsAsked s raws h)

IsAsked-explicit_comm :
    (raws : List Raw) → (explicit_comm raws ≡ []) ⊎ IsAsked (explicit_comm raws) raws
unfolding explicit_comm
IsAsked-explicit_comm [] = inl refl
IsAsked-explicit_comm (other n ∷ raws) = IsAsked-explicit_comm raws
IsAsked-explicit_comm (mapping m ∷ raws) = elim (Option-cases (lookup (codes "communicator") m)) [
  | inl lacks ↦ elim (IsAsked-explicit_comm raws) [
    | inl e ↦ inl (rw (lacks, explicit_comm) e)
    | inr h ↦
        let same : explicit_comm (mapping m ∷ raws) ≡ explicit_comm raws =
          rw (lacks, explicit_comm) refl in
        inr (inr (lacks, subst (λ s. IsAsked s raws) (sym same) h))
  ]
  | inr (text s, e) ↦ inr (inl (rw (e, explicit_comm) refl))
  | inr (opaque n, e) ↦ inl (rw (e, explicit_comm) refl)
]

network_problems-eq-nil :
    (comm : Str) (ifaces : List NetworkInterface)
    → (network_problems comm ifaces ≡ [])
      ↔ ((comm ≡ []) ⊎ ((comm ≡ codes "none") ⊎ (is_empty ifaces ≡ false)))
unfolding network_problems
network_problems-eq-nil [] ifaces = (λ h. inl refl, λ h. refl)
network_problems-eq-nil (b ∷ s) ifaces = (
  λ h. inr (ground (arith, str_eq-eq (b ∷ s) (codes "none"))),
  λ h. elim h [
    | inl e ↦ cc
    | inr (inl e) ↦ ground (arith, (str_eq_iff (b ∷ s) (codes "none")).1 e)
    | inr (inr e) ↦ ground arith
  ],
)

pub network_problems-eq-nil_iff :
    (raws : List Raw) (ifaces : List NetworkInterface)
    → (network_problems (explicit_comm raws) ifaces ≡ []) ↔ HasNetwork raws ifaces
network_problems-eq-nil_iff raws ifaces = (
  λ h comm asked.
      (network_problems-eq-nil comm ifaces).0
        (subst (λ s. network_problems s ifaces ≡ []) (explicit_comm-of_IsAsked comm raws asked) h),
  λ h. elim (IsAsked-explicit_comm raws) [
    | inl e ↦ (network_problems-eq-nil (explicit_comm raws) ifaces).1 (inl e)
    | inr asked ↦
        (network_problems-eq-nil (explicit_comm raws) ifaces).1 (h (explicit_comm raws) asked)
  ],
)
