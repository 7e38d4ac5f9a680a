-- ===== src/Ssh/Laws.antt =====
-- ssh.go: the first interface with an address decides, and a prefix length behind an IPv4 address
-- is taken off.
use packer_plugin_cloud_hype.Prelude.{
  ℕ, ◌≤◌, ◌<◌, ◌≡◌, refl, sym, ◌∙◌, ap, true, false, Option, some, List, [], ◌∷◌, ◌++◌, Str,
  is_empty, arith, All, ltb, length, ◌==◌, Bool-cases, inl, inr,
}
use packer_plugin_cloud_hype.Go.Strings.{trim_space}
use packer_plugin_cloud_hype.Go.Cidr.{cut, dtoi, fields, decimal, ip_text, parse_cidr, v4, family}
use mathlib.Core.List.{append-nil}
use mathlib.Core.Path.{subst}
use packer_plugin_cloud_hype.Runtime.{Platform}
use packer_plugin_cloud_hype.Config.{NetworkInterface}
use packer_plugin_cloud_hype.Ssh.{strip_cidr, comm_host}

-- An interface without an address.
abbrev pub IsBlank : NetworkInterface → Type 0
IsBlank i = is_empty (trim_space i.ip) ≡ true

module _ ⦃P : Platform⦄ where
  -- Behind interfaces whose address is blank, the host is the address of the next interface whose
  -- address is not, trimmed and without its prefix length.
  pub comm_host-append :
      (blanks : List NetworkInterface) (i : NetworkInterface) (rest : List NetworkInterface)
      → All IsBlank blanks
      → is_empty (trim_space i.ip) ≡ false
      → comm_host (blanks ++ i ∷ rest) ≡ strip_cidr (trim_space i.ip)
  unfolding comm_host
  comm_host-append [] i rest h e = rw (e, comm_host) refl
  comm_host-append (b ∷ blanks) i rest h e =
      rw (h.0, comm_host) (comm_host-append blanks i rest h.1 e)

-- The digits of an octet are read back.
fields-decimal :
    (done : List ℕ) (n : ℕ) (s : Str)
    → n ≤ 255
    → fields done 0 0 (decimal n ++ s) ≡ fields done n (length (decimal n)) s
unfolding fields decimal
fields-decimal done n s h = elim (Bool-cases (ltb n 10)) [
  | inl one ↦ ground arith
  | inr more ↦ elim (Bool-cases (ltb n 100)) [ inl two ↦ ground arith | inr three ↦ ground arith ]
]

fields_dot :
    (done : List ℕ) (n : ℕ) (s : Str)
    → length done < 3
    → fields done n (length (decimal n)) (b'.' ∷ s) ≡ fields (n ∷ done) 0 0 s
unfolding fields decimal
fields_dot done n s h = ground arith

fields_end :
    (done : List ℕ) (n : ℕ)
    → length done ≡ 3
    → fields done n (length (decimal n)) [] ≡ some (n ∷ done)
unfolding fields decimal
fields_end done n h = ground arith

-- Four octets in their usual form.
abbrev pub quad : ℕ → ℕ → ℕ → ℕ → Str
quad a b c d = decimal a ++ b'.' ∷ (decimal b ++ b'.' ∷ (decimal c ++ b'.' ∷ decimal d))

fields-quad :
    (a b c d : ℕ)
    → a ≤ 255
    → b ≤ 255
    → c ≤ 255
    → d ≤ 255
    → fields [] 0 0 (quad a b c d) ≡ some (d ∷ c ∷ b ∷ a ∷ [])
fields-quad a b c d ha hb hc hd =
    fields-decimal [] a _ ha
    ∙ fields_dot [] a _ (omega arith)
    ∙ fields-decimal (a ∷ []) b _ hb
    ∙ fields_dot (a ∷ []) b _ (omega arith)
    ∙ fields-decimal (b ∷ a ∷ []) c _ hc
    ∙ fields_dot (b ∷ a ∷ []) c _ (omega arith)
    ∙ ap (fields (c ∷ b ∷ a ∷ []) 0 0) (sym (append-nil (decimal d)))
    ∙ fields-decimal (c ∷ b ∷ a ∷ []) d [] hd
    ∙ fields_end (c ∷ b ∷ a ∷ []) d (omega arith)

dtoi-decimal : (n : ℕ) → n ≤ 255 → dtoi 0 (decimal n) ≡ some n
unfolding dtoi decimal
dtoi-decimal n h = elim (Bool-cases (ltb n 10)) [
  | inl one ↦ ground arith
  | inr more ↦ elim (Bool-cases (ltb n 100)) [ inl two ↦ ground arith | inr three ↦ ground arith ]
]

-- A text before the slash.
abbrev HasNoSlash : Str → Type 0
HasNoSlash s = All (λ c. (c == b'/') ≡ false) s

cut-append : (s m : Str) → HasNoSlash s → cut (s ++ b'/' ∷ m) ≡ some (s, m)
unfolding cut
cut-append [] m h = refl
cut-append (c ∷ s) m h = ground (arith, cut-append s m h.1)

decimal-HasNoSlash : (n : ℕ) (s : Str) → n ≤ 255 → HasNoSlash s → HasNoSlash (decimal n ++ s)
unfolding decimal
decimal-HasNoSlash n s b h = ground arith

family-quad : (a : ℕ) (s : Str) → a ≤ 255 → family (decimal a ++ b'.' ∷ s) ≡ v4
unfolding decimal
family-quad a s h = ground arith

decimal_full : (n : ℕ) → is_empty (decimal n) ≡ false
unfolding decimal
decimal_full n = ground arith

quad-HasNoSlash : (a b c d : ℕ) → a ≤ 255 → b ≤ 255 → c ≤ 255 → d ≤ 255 → HasNoSlash (quad a b c d)
quad-HasNoSlash a b c d ha hb hc hd = decimal-HasNoSlash a _ ha (
  refl,
  decimal-HasNoSlash b _ hb (
    refl,
    decimal-HasNoSlash c _ hc
        (refl, subst HasNoSlash (append-nil (decimal d)) (decimal-HasNoSlash d [] hd tt)),
  ),
)

parse_cidr-v4 :
    (parse_v6 : Str → Option Str) (s addr mask : Str) (n : ℕ) (octets : List ℕ)
    → cut s ≡ some (addr, mask)
    → is_empty mask ≡ false
    → dtoi 0 mask ≡ some n
    → family addr ≡ v4
    → fields [] 0 0 addr ≡ some octets
    → n ≤ 32
    → parse_cidr parse_v6 s ≡ some (ip_text octets)
unfolding parse_cidr
parse_cidr-v4 parse_v6 s addr mask n octets parts full number is_v4 read small = ground arith

module _ ⦃P : Platform⦄ where
  -- An IPv4 address in its usual form with a prefix length of at most 32 behind it loses that and
  -- nothing else.
  pub strip_cidr-quad :
      (a b c d n : ℕ)
      → a ≤ 255
      → b ≤ 255
      → c ≤ 255
      → d ≤ 255
      → n ≤ 32
      → strip_cidr (quad a b c d ++ b'/' ∷ decimal n) ≡ quad a b c d
  unfolding strip_cidr ip_text
  strip_cidr-quad a b c d n ha hb hc hd hn =
      rw
        (
          parse_cidr-v4 P.parse_v6 (quad a b c d ++ b'/' ∷ decimal n) (quad a b c d) (decimal n) n _
              (cut-append (quad a b c d) (decimal n) (quad-HasNoSlash a b c d ha hb hc hd))
              (decimal_full n) (dtoi-decimal n (omega arith)) (family-quad a _ ha)
              (fields-quad a b c d ha hb hc hd) hn,
          strip_cidr,
        )
        refl
