-- ===== src/Examples/Ipam.antt =====
-- Addresses of a small subnet.
use qarax.Base.{
  ℕ, ◌+◌, ◌<◌, ◌≡◌, refl, Option, some, [], ◌∷◌, Text, codes, arith, parse_unsigned, parse_digits,
}
use qarax.Ipam.{
  parse_subnet, split_once, split, octets_of, address_of, first_addr, broadcast_addr, network_addr,
  next_available_ip, format_ip, formatted, compute_dhcp_range,
}
use qarax.Ipam.Available.{compute_dhcp_range-next_available}
use qarax.Ipam.Lowest.{FindsLowest, next_available_ip-FindsLowest}

abbrev subnet : Text
subnet = codes "10.0.0.0/24"

abbrev base : ℕ
base = 167772160

parsed : parse_subnet subnet ≡ some (base, 24)
unfolding parse_subnet split_once split octets_of address_of parse_unsigned parse_digits
parsed = refl

next_available_ip-FindsLowest_example :
    (r : Option ℕ) × (next_available_ip subnet (some (codes "10.0.0.1")) (codes "10.0.0.2/32" ∷ [])
      ≡ formatted r)
    × FindsLowest (some (codes "10.0.0.1")) (codes "10.0.0.2/32" ∷ []) base 24 r
next_available_ip-FindsLowest_example =
    next_available_ip-FindsLowest (some (codes "10.0.0.1")) (codes "10.0.0.2/32" ∷ []) base 24
      (omega arith) (omega arith) (omega arith) subnet parsed

room : first_addr base 24 + 1 < broadcast_addr base 24
unfolding broadcast_addr network_addr
room = omega arith

bound : broadcast_addr base 24 < 4294967296
unfolding broadcast_addr network_addr
bound = omega arith

compute_dhcp_range-next_available_example :
    (start end : ℕ) × (compute_dhcp_range subnet (some (codes "10.0.0.1"))
      ≡ (format_ip start, format_ip end))
    × (next_available_ip subnet (some (codes "10.0.0.1")) [] ≡ some (format_ip start))
    × (end + 1 ≡ broadcast_addr base 24)
compute_dhcp_range-next_available_example =
    compute_dhcp_range-next_available subnet (some (codes "10.0.0.1")) base 24 parsed room bound
