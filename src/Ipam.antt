-- ===== src/Ipam.antt =====
-- Addresses of a network: `next_available_ip` of qarax/src/model/networks.rs and `compute_dhcp_range`
-- of qarax/src/handlers/network/handler.rs. An address is a 32-bit number. The shifts are those of a
-- release build: `32 - prefix_len` wraps, and a shift uses the low five bits of its distance.
pub mod Available
pub mod Lowest
use qarax.Base.{
  ℕ, zero, suc, ◌+◌, ◌-◌, ◌*◌, ◌/◌, ◌%◌, ◌^◌, Bool, true, false, ◌||◌, Option, none, some, List, [],
  ◌∷◌, ◌++◌, any, if◌then◌else◌, Text, codes, ◌==◌, nat_ord, text_ord, to_string, parse_unsigned,
}
use qarax.Schedule.{elem, if_some}

-- `split_once(c)` and `split(c)`
unfoldable pub split_once : ℕ → Text → Option (Text × Text)
split_once c [] = none
split_once c (x ∷ xs) =
    let rest = split_once c xs in
    if x == c then some ([], xs) else elim rest [ none ↦ none | some r ↦ some (x ∷ r.0, r.1) ]

abbrev pub add_to_first : ℕ → List Text → List Text
add_to_first c [] = (c ∷ []) ∷ []
add_to_first c (p ∷ parts) = (c ∷ p) ∷ parts

unfoldable pub split : ℕ → Text → List Text
split c [] = [] ∷ []
split c (x ∷ xs) = let rest = split c xs in if x == c then [] ∷ rest else add_to_first x rest

-- `filter_map(|o| o.parse::<u8>().ok())`
unfoldable pub octets_of : List Text → List ℕ
octets_of [] = []
octets_of (p ∷ parts) = elim (parse_unsigned 256 p) [
  | none ↦ octets_of parts
  | some o ↦ o ∷ octets_of parts
]

unfoldable pub address_of : List ℕ → Option ℕ
address_of (a ∷ b ∷ c ∷ d ∷ []) = some (a * 2 ^ 24 + b * 2 ^ 16 + c * 2 ^ 8 + d)
address_of _ = none

abbrev pub unwrap_or {ℓ} : {A : Type ℓ} → Option A → A → A
unwrap_or none a = a
unwrap_or (some a) _ = a

abbrev pub parse_address : Text → Option ℕ
parse_address s = address_of (octets_of (split 46 s))

-- The address and the length of the prefix.
unfoldable pub parse_subnet : Text → Option (ℕ × ℕ)
parse_subnet subnet = elim (split_once 47 subnet) [
  | none ↦ none
  | some s ↦ elim (parse_address s.0) [
    | none ↦ none
    | some base ↦ some (base, unwrap_or (parse_unsigned (2 ^ 32) s.1) 24)
  ]
]

abbrev pub host_bits : ℕ → ℕ
host_bits prefix_len = (2 ^ 32 + 32 - prefix_len) % 32

unfoldable pub network_addr : ℕ → ℕ → ℕ
network_addr base prefix_len = base / 2 ^ host_bits prefix_len * 2 ^ host_bits prefix_len

unfoldable pub broadcast_addr : ℕ → ℕ → ℕ
broadcast_addr base prefix_len = network_addr base prefix_len + (2 ^ host_bits prefix_len - 1)

abbrev pub gateway_u32 : Option Text → Option ℕ
gateway_u32 none = none
gateway_u32 (some gateway) = parse_address gateway

unfoldable pub format_ip : ℕ → Text
format_ip addr =
    to_string (addr / 2 ^ 24 % 256)
    ++ (codes "."
        ++ (to_string (addr / 2 ^ 16 % 256)
            ++ (codes "."
                ++ (to_string (addr / 2 ^ 8 % 256) ++ (codes "." ++ to_string (addr % 256))))))

-- The set of allocated addresses, with or without the suffix of PostgreSQL's INET.
abbrev pub is_allocated : List Text → Text → Bool
is_allocated allocated ip = elem ip allocated || elem (ip ++ codes "/32") allocated

abbrev pub is_gateway : Option Text → ℕ → Bool
is_gateway gateway addr = if_some (λ g. addr == g) (gateway_u32 gateway)

unfoldable pub unusable : Option Text → List Text → ℕ → Bool
unusable gateway allocated addr = is_gateway gateway addr || is_allocated allocated (format_ip addr)

-- The loop over `count` addresses from `addr` on.
unfoldable pub first_usable : (ℕ → Bool) → ℕ → ℕ → Option ℕ
first_usable skip zero addr = none
first_usable skip (suc count) addr =
    let rest = first_usable skip count (addr + 1) in if skip addr then rest else some addr

abbrev pub first_addr : ℕ → ℕ → ℕ
first_addr base prefix_len = (network_addr base prefix_len + 1) % 2 ^ 32

unfoldable pub next_available : Text → Option Text → List Text → Option ℕ
next_available subnet gateway allocated = elim (parse_subnet subnet) [
  | none ↦ none
  | some s ↦
      first_usable (unusable gateway allocated) (broadcast_addr s.0 s.1 - first_addr s.0 s.1)
        (first_addr s.0 s.1)
]

abbrev pub formatted : Option ℕ → Option Text
formatted none = none
formatted (some addr) = some (format_ip addr)

unfoldable pub next_available_ip : Text → Option Text → List Text → Option Text
next_available_ip subnet gateway allocated = formatted (next_available subnet gateway allocated)

-- The start and the end of the range.
unfoldable pub dhcp_bounds : Text → Option Text → Option (ℕ × ℕ)
dhcp_bounds subnet gateway = elim (parse_subnet subnet) [
  | none ↦ none
  | some s ↦
      let start = first_addr s.0 s.1 in
      some (
        (if is_gateway gateway start then (start + 1) % 2 ^ 32 else start),
        (broadcast_addr s.0 s.1 + 2 ^ 32 - 1) % 2 ^ 32,
      )
]

-- A malformed subnet has a fixed range.
abbrev pub dhcp_range : Option (ℕ × ℕ) → Text × Text
dhcp_range none = (codes "10.0.0.10", codes "10.0.0.254")
dhcp_range (some bounds) = (format_ip bounds.0, format_ip bounds.1)

unfoldable pub compute_dhcp_range : Text → Option Text → Text × Text
compute_dhcp_range subnet gateway = dhcp_range (dhcp_bounds subnet gateway)
