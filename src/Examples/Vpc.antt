-- ===== src/Examples/Vpc.antt =====
-- Three hosts: the first two share the VPC "v", the third has a network in "w".
use qarax.Base.{
  ℕ, ◌+◌, ◌<◌, ◌^◌, ◌≡◌, refl, ◌⊎◌, ◌↔◌, some, List, [], ◌∷◌, Memᴰ, Text, codes, nat_ord, IsStrict,
  ok, arith, to_string, collect, insert,
}
use qarax.Vpc.{
  Network, AttachedNetwork, attached_networks_for_host, blocked_subnets_for_network,
  nat_exempt_subnets_for_network, affected_host_ids_for_vpc,
}
use qarax.Vpc.Isolation.{Foreign, blocked_subnets_iff}
use qarax.Vpc.Exempt.{
  Peer, nat_exempt_iff, exempt_not_blocked, isolation_mutual, affected_host_ids_iff,
}
use qarax.Vpc.Overlay.{
  World, v4, v6, VpcOverlayConfig, overlay_for, overlay_ip, overlay_vni, vpc_participants, in_vpc,
  sorted_host_ids, position, resolve_underlay_ip, overlay_ip_cidr, overlay_octets,
  overlay_interface_name, add_peers, add_routes,
}
use qarax.Vpc.Overlay.Index.{host_overlay_ip, host_overlay_ip_unique, overlay_vni_bounds}
use qarax.Vpc.Overlay.Config.{Joins, overlay_for-Joins}

abbrev net : ℕ → Text → Text → Network
net id subnet vpc = record {
  id = id;
  subnet = subnet;
  vpc_name = some vpc;
  network_type = some (codes "isolated");
}

abbrev attach : ℕ → Network → AttachedNetwork
attach host n = record {
  network = n;
  host_id = host;
  bridge_name = codes "br0";
  host_address = host ∷ [];
  host_port = 50051;
}

abbrev first : AttachedNetwork
first = attach 1 (net 10 (codes "a") (codes "v"))

abbrev second : AttachedNetwork
second = attach 2 (net 11 (codes "b") (codes "v"))

abbrev third : AttachedNetwork
third = attach 3 (net 12 (codes "c") (codes "w"))

abbrev cluster : List AttachedNetwork
cluster = first ∷ second ∷ third ∷ []

blocked_subnets_iff_example :
    Memᴰ
      (codes "c")
      (blocked_subnets_for_network first.network 1 (attached_networks_for_host cluster 1) cluster)
    ↔ Foreign first.network (codes "v") cluster (codes "c")
blocked_subnets_iff_example =
    blocked_subnets_iff first.network 1 cluster (codes "v") refl (codes "c")

nat_exempt_iff_example :
    Memᴰ (codes "b") (nat_exempt_subnets_for_network first.network cluster)
    ↔ Peer first.network (codes "v") cluster (codes "b")
nat_exempt_iff_example = nat_exempt_iff first.network cluster (codes "v") refl refl (codes "b")

abbrev pair : List AttachedNetwork
pair = second ∷ []

unique :
    (a b : AttachedNetwork)
    → Memᴰ a pair
    → Memᴰ b pair
    → a.network.subnet ≡ b.network.subnet
    → a.network ≡ b.network
unique a b (Memᴰ.head p) (Memᴰ.head q) e = cc
unique a b (Memᴰ.head p) (Memᴰ.tail n) e = elim n [ ]
unique a b (Memᴰ.tail n) _ e = elim n [ ]

second_exempt : Memᴰ (codes "b") (nat_exempt_subnets_for_network first.network pair)
second_exempt = (nat_exempt_iff first.network pair (codes "v") refl refl (codes "b")).1 (record {
  attachment = second;
  attached = Memᴰ.head refl;
  other = λ e. ground (arith, e);
  inside = refl;
  is_subnet = refl;
})

exempt_not_blocked_example :
    ¬ Memᴰ
      (codes "b")
      (blocked_subnets_for_network first.network 1 (attached_networks_for_host pair 1) pair)
exempt_not_blocked_example =
    exempt_not_blocked first.network pair (codes "v") refl refl unique 1 (codes "b") second_exempt

isolation_mutual_example :
    let blocked = λ (n : AttachedNetwork).
      blocked_subnets_for_network n.network n.host_id
        (attached_networks_for_host cluster n.host_id)
        cluster in
    Memᴰ third.network.subnet (blocked first) × Memᴰ first.network.subnet (blocked third)
isolation_mutual_example =
    isolation_mutual cluster first third (codes "v") (codes "w") (Memᴰ.head refl)
      (Memᴰ.tail (Memᴰ.tail (Memᴰ.head refl))) refl refl (λ e. ground (arith, e))
      (λ e. ground (arith, e))

affected_host_ids_iff_example :
    IsStrict (affected_host_ids_for_vpc cluster (codes "v") (9 ∷ []))
    × ((host : ℕ)
        → Memᴰ host (affected_host_ids_for_vpc cluster (codes "v") (9 ∷ [])) ↔ (
            Memᴰ host (9 ∷ [])
            ⊎ ((a : AttachedNetwork) × Memᴰ a cluster
                × (a.network.vpc_name ≡ some (codes "v"))
                × (a.host_id ≡ host))))
affected_host_ids_iff_example = affected_host_ids_iff cluster (codes "v") (9 ∷ [])

-- Every address resolves to itself, and the seed is constant.
abbrev world : World
world = record {
  overlay_seed = λ name k. k + 1;
  seed_prefix = λ name. codes "01020304";
  lookup_host = λ address port. some (v6 address ∷ v4 address ∷ []);
}

-- A seed of zeros.
abbrev small_world : World
small_world = record world { overlay_seed = λ name k. 0 }

overlay_vni_bounds_example :
    (0 < overlay_vni small_world (codes "v")) × (overlay_vni small_world (codes "v") < 2 ^ 24)
overlay_vni_bounds_example = overlay_vni_bounds small_world (codes "v") (λ k. omega arith)

-- The first host of "v" is given 100.68.5.1, and reaches the other's subnet over 100.68.5.2.
abbrev sent : VpcOverlayConfig
sent = record {
  vpc_name = codes "v";
  interface_name = codes "qvx01020304";
  vni = 66051;
  local_underlay_ip = 1 ∷ [];
  local_overlay_cidr = codes "100.68.5.1/24";
  peer_underlay_ips = (2 ∷ []) ∷ [];
  routes = (codes "b", codes "100.68.5.2") ∷ [];
}

first_overlay :
    overlay_for world cluster 1 (1 ∷ []) 50051 (codes "v") []
    ≡ ok (some sent, (2 ∷ [], 2 ∷ []) ∷ (1 ∷ [], 1 ∷ []) ∷ [])
unfolding overlay_for vpc_participants in_vpc sorted_host_ids position resolve_underlay_ip
    overlay_ip_cidr overlay_ip overlay_octets overlay_interface_name overlay_vni add_peers
    add_routes to_string collect insert
first_overlay = refl

overlay_for-Joins_example : Joins world cluster 1 (codes "v") sent
overlay_for-Joins_example =
    overlay_for-Joins world cluster 1 (codes "v") (1 ∷ []) 50051 [] first_overlay

first_address : host_overlay_ip world cluster (codes "v") 1 ≡ ok (codes "100.68.5.1")
unfolding host_overlay_ip vpc_participants in_vpc sorted_host_ids position overlay_ip overlay_octets
    to_string collect insert
first_address = refl

host_overlay_ip_unique_example : ◌≡◌ {A = ℕ} 1 1
host_overlay_ip_unique_example =
    host_overlay_ip_unique world (codes "v") cluster 1 1 first_address first_address
