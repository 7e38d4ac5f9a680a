-- ===== src/Go/Cidr.antt =====
-- Go's `net.ParseCIDR` and `IP.String` for IPv4. An IPv6 address is read by a parameter, which
-- gives the text of the address.
use packer_plugin_cloud_hype.Prelude.{
  ℕ, ◌+◌, ◌-◌, ◌*◌, ◌/◌, ◌%◌, Bool, false, ◌&&◌, Option, none, some, List, [], ◌∷◌, ◌++◌, Str, ltb,
  leb, ◌==◌, if◌then◌else◌, is_empty, length,
}

abbrev pub is_digit : ℕ → Bool
is_digit c = leb b'0' c && leb c b'9'

-- The text before the first slash and behind it.
unfoldable pub cut : Str → Option (Str × Str)
cut [] = none
cut (c ∷ s) =
    let rest = cut s in
    if c == b'/' then some ([], s) else elim rest [ none ↦ none | some (a, b) ↦ some (c ∷ a, b) ]

-- `dtoi`: a decimal number that ends the text and is below 2^24 - 1.
unfoldable pub dtoi : ℕ → Str → Option ℕ
dtoi n [] = some n
dtoi n (c ∷ s) =
    let n' = n * 10 + (c - b'0') in
    let rest = dtoi n' s in if is_digit c then (if leb 0xffffff n' then none else rest) else none

-- `parseIPv4Fields`: `done` are the octets read, newest first, `val` the one at hand, of `len` digits.
unfoldable pub fields : List ℕ → ℕ → ℕ → Str → Option (List ℕ)
fields done val len [] =
    if len == 0 then none else if length done == 3 then some (val ∷ done) else none
fields done val len (c ∷ s) =
    let val' = val * 10 + (c - b'0') in
    let digit = fields done val' (len + 1) s in
    let dot = fields (val ∷ done) 0 0 s in
    if is_digit c
    then (if len == 1 && val == 0 then none else if ltb 255 val' then none else digit)
    else if c == b'.'
    then (if len == 0 then none else if length done == 3 then none else dot)
    else none

-- One octet in decimal.
unfoldable pub decimal : ℕ → Str
decimal n =
    if ltb n 10
    then (n + b'0') ∷ []
    else if ltb n 100
    then (n / 10 + b'0') ∷ (n % 10 + b'0') ∷ []
    else (n / 100 + b'0') ∷ (n / 10 % 10 + b'0') ∷ (n % 10 + b'0') ∷ []

abbrev dotted : Str → List ℕ → Str
dotted text [] = text
dotted text (n ∷ more) = dotted (decimal n ++ (b'.' ∷ text)) more

-- The text of an address, from its octets, newest first.
unfoldable pub ip_text : List ℕ → Str
unfolding decimal
ip_text [] = []
ip_text (n ∷ more) = dotted (decimal n) more

pub data Family : Type 0 where
  v4 v6 neither : Family

-- `netip.ParseAddr` goes by the first of `.`, `:` and `%`.
abbrev pub family : Str → Family
family [] = neither
family (c ∷ s) =
    if c == b'.' then v4 else if c == b':' then v6 else if c == b'%' then neither else family s

abbrev in_range : ℕ → Option ℕ → Bool
in_range bits none = false
in_range bits (some n) = leb n bits

-- `net.ParseCIDR`, and `String` of its address.
unfoldable pub parse_cidr : (Str → Option Str) → Str → Option Str
unfolding cut dtoi fields ip_text
parse_cidr parse_v6 s = elim (cut s) [
  | none ↦ none
  | some (addr, mask) ↦
      let n = if is_empty mask then none else dtoi 0 mask in
      elim (family addr) [
        | neither ↦ none
        | v4 ↦ elim (fields [] 0 0 addr) [
          | none ↦ none
          | some octets ↦ if in_range 32 n then some (ip_text octets) else none
        ]
        | v6 ↦ elim (parse_v6 addr) [
          | none ↦ none
          | some host ↦ if in_range 128 n then some host else none
        ]
      ]
]
