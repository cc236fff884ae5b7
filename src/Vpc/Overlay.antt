-- ===== src/Vpc/Overlay.antt =====
-- `sync_host_vpc_overlays_for_host`: the VXLAN overlays that a host is sent. Only the names of the
-- host's own VPCs are used, so `local_vpcs` is their set; sending the result is left out.
pub mod Index
pub mod Routes
pub mod Config
use qarax.Base.{
  ◌^◌, ℕ, zero, suc, ◌+◌, ◌*◌, ◌%◌, ◌≡◌, Bool, true, false, ◌&&◌, not, Option, none, some, List, [],
  ◌∷◌, ◌++◌, if◌then◌else◌, filter, map, length, Text, codes, leb, ltb, ◌==◌, nat_ord, text_ord,
  pair_ord, collect, insert, Error, unprocessable_entity, Result, ok, err, ◌>>=◌, ◌>>◌, guard,
  to_string, Ord, nat_beq,
}
use qarax.Vpc.{Network, AttachedNetwork, is_some_eq}

pub data IpAddr : Type 0 where
  v4 : Text → IpAddr
  v6 : Text → IpAddr

-- What the code takes from elsewhere: the bytes of the version 5 UUID of a VPC's name, the first
-- eight digits of its hexadecimal text, and name resolution, where `none` is a failed lookup.
pub record World : Type 0 where
  pub overlay_seed : Text → ℕ → ℕ
  pub seed_prefix : Text → Text
  pub lookup_host : Text → ℕ → Option (List IpAddr)

pub record VpcOverlayConfig : Type 0 where
  pub vpc_name : Text
  pub interface_name : Text
  pub vni : ℕ
  pub local_underlay_ip : Text
  pub local_overlay_cidr : Text
  pub peer_underlay_ips : List Text
  pub routes : List (Text × Text)

unfoldable pub in_vpc : Text → AttachedNetwork → Bool
in_vpc vpc_name a = is_some_eq a.network.vpc_name vpc_name

-- A VPC's hosts in order, each with its attachments.
abbrev pub Participants : Type 0
Participants = List (ℕ × List AttachedNetwork)

unfoldable pub vpc_participants : List AttachedNetwork → Text → Participants
vpc_participants attached vpc_name =
    map (λ host. (host, filter (λ a. in_vpc vpc_name a && (a.host_id == host)) attached))
      (collect (map (λ a. a.host_id) (filter (in_vpc vpc_name) attached)))

unfoldable pub sorted_host_ids : Participants → List ℕ
sorted_host_ids participants = collect (map (λ p. p.0) participants)

-- `iter().position(|id| *id == host)`
unfoldable pub position : ℕ → List ℕ → Option ℕ
position host [] = none
position host (x ∷ xs) =
    if x == host then some 0 else elim (position host xs) [ none ↦ none | some i ↦ some (suc i) ]

abbrev pub ok_or {ℓ} : {A : Type ℓ} → Option A → Error → Result A
ok_or none e = err e
ok_or (some a) e = ok a

unfoldable pub host_limit : Text → Error
host_limit vpc_name = unprocessable_entity (
    codes "VPC "
    ++ (vpc_name ++ codes " exceeds the first-cut VXLAN host limit of 254 participants"))

-- The messages leave out the UUID of the host and the system's reason.
unfoldable pub missing_host : Text → Error
missing_host vpc_name = unprocessable_entity (codes "Host is missing from VPC " ++ vpc_name)

abbrev pub Cache : Type 0
Cache = List (Text × Text)

cached : Text → Cache → Option Text
cached address [] = none
cached address ((k, ip) ∷ rest) = if k == address then some ip else cached address rest

first_v4 : List IpAddr → Option Text
first_v4 [] = none
first_v4 (v4 ip ∷ rest) = some ip
first_v4 (v6 ip ∷ rest) = first_v4 rest

unresolved : Text → Error
unresolved address =
    unprocessable_entity
      (codes "Failed to resolve host address " ++ (address ++ codes " for VXLAN overlay"))

no_ipv4 : Text → Error
no_ipv4 address = unprocessable_entity (
    codes "Host address "
    ++ (address ++ codes " did not resolve to an IPv4 address for VXLAN overlay"))

-- The peers and the routes gathered so far, as sets, with the cache of resolved addresses.
pub record Peers : Type 0 where
  pub cache : Cache
  pub underlay_ips : List Text
  pub routes : List (Text × Text)

unfoldable pub add_routes : Text → List AttachedNetwork → List (Text × Text) → List (Text × Text)
add_routes via_ip [] routes = routes
add_routes via_ip (a ∷ rest) routes =
    add_routes via_ip rest (insert (a.network.subnet, via_ip) routes)

abbrev pub push : Option VpcOverlayConfig → List VpcOverlayConfig → List VpcOverlayConfig
push none overlays = overlays
push (some overlay) overlays = overlay ∷ overlays

abbrev own_vpcs : ℕ → List AttachedNetwork → List Text
own_vpcs host [] = []
own_vpcs host (a ∷ rest) =
    if a.host_id == host
    then elim a.network.vpc_name [
      | none ↦ own_vpcs host rest
      | some vpc_name ↦ vpc_name ∷ own_vpcs host rest
    ]
    else own_vpcs host rest

module _ (w : World) where
  unfoldable pub overlay_interface_name : Text → Text
  overlay_interface_name vpc_name = codes "qvx" ++ w.seed_prefix vpc_name

  -- `b0 << 16 | b1 << 8 | b2`, whose parts do not overlap.
  unfoldable pub overlay_vni : Text → ℕ
  overlay_vni vpc_name =
      let byte = w.overlay_seed vpc_name in
      let vni = byte 0 * 65536 + byte 1 * 256 + byte 2 in if nat_beq vni 0 then 1 else vni

  unfoldable pub overlay_octets : Text → ℕ × ℕ
  overlay_octets vpc_name = let byte = w.overlay_seed vpc_name in (64 + byte 3 % 64, byte 4)

  unfoldable pub overlay_ip : Text → ℕ → Result Text
  overlay_ip vpc_name host_index =
      let (octet2, octet3) = overlay_octets vpc_name in
      if leb 254 host_index
      then err (host_limit vpc_name)
      else ok (
          codes "100."
          ++ (to_string octet2
              ++ (codes "." ++ (to_string octet3 ++ (codes "." ++ to_string (host_index + 1))))))

  unfoldable pub overlay_ip_cidr : Text → ℕ → Result Text
  overlay_ip_cidr vpc_name host_index = do
    ip ← overlay_ip vpc_name host_index
    ok (ip ++ codes "/24")

  unfoldable pub resolve_underlay_ip : Cache → Text → ℕ → Result (Text × Cache)
  unfolding cached first_v4 unresolved no_ipv4
  resolve_underlay_ip cache address port = elim (cached address cache) [
    | some ip ↦ ok (ip, cache)
    | none ↦ do
      addresses ← ok_or (w.lookup_host address port) (unresolved address)
      resolved ← ok_or (first_v4 addresses) (no_ipv4 address)
      ok (resolved, (address, resolved) ∷ cache)
  ]

  add_peer : Text → List ℕ → ℕ → List AttachedNetwork → Peers → Result Peers
  add_peer vpc_name host_order remote_host_id [] peers = err (missing_host vpc_name)
  add_peer vpc_name host_order remote_host_id (first ∷ rest) peers = do
    (ip, cache) ← resolve_underlay_ip peers.cache first.host_address (first.host_port % 2 ^ 16)
    remote_index ← ok_or (position remote_host_id host_order) (missing_host vpc_name)
    remote_overlay_ip ← overlay_ip vpc_name remote_index
    ok (record {
      cache = cache;
      underlay_ips = insert ip peers.underlay_ips;
      routes = add_routes remote_overlay_ip (first ∷ rest) peers.routes;
    })

  -- The loop over the participants other than the host itself.
  unfoldable pub add_peers : Text → ℕ → List ℕ → Participants → Peers → Result Peers
  unfolding add_peer
  add_peers vpc_name host host_order [] peers = ok peers
  add_peers vpc_name host host_order ((remote, attachments) ∷ rest) peers = elim (remote == host) [
    | true ↦ add_peers vpc_name host host_order rest peers
    | false ↦ do
      peers' ← add_peer vpc_name host_order remote attachments peers
      add_peers vpc_name host host_order rest peers'
  ]

  -- A VPC with one participant has no overlay.
  unfoldable pub overlay_for :
      List AttachedNetwork → ℕ → Text → ℕ → Text → Cache → Result (Option VpcOverlayConfig × Cache)
  overlay_for attached host address port vpc_name cache =
      let participants = vpc_participants attached vpc_name in
      let host_order = sorted_host_ids participants in
      elim (leb (length participants) 1) [
        | true ↦ ok (none, cache)
        | false ↦ do
          guard (not (leb 255 (length host_order))) (host_limit vpc_name)
          local_host_index ← ok_or (position host host_order) (missing_host vpc_name)
          (local_underlay_ip, cache') ← resolve_underlay_ip cache address (port % 2 ^ 16)
          local_overlay_cidr ← overlay_ip_cidr vpc_name local_host_index
          peers ←
              add_peers vpc_name host host_order participants
                (record { cache = cache'; underlay_ips = []; routes = [] })
          ok (
            some (record {
              vpc_name = vpc_name;
              interface_name = overlay_interface_name vpc_name;
              vni = overlay_vni vpc_name;
              local_underlay_ip = local_underlay_ip;
              local_overlay_cidr = local_overlay_cidr;
              peer_underlay_ips = peers.underlay_ips;
              routes = peers.routes;
            }),
            peers.cache,
          )
      ]

  overlays_for :
      List AttachedNetwork → ℕ → Text → ℕ → List Text → Cache → Result (List VpcOverlayConfig)
  overlays_for attached host address port [] cache = ok []
  overlays_for attached host address port (vpc_name ∷ rest) cache = do
    (overlay, cache') ← overlay_for attached host address port vpc_name cache
    overlays ← overlays_for attached host address port rest cache'
    ok (push overlay overlays)

  unfoldable pub sync_host_vpc_overlays_for_host :
      ℕ → Text → ℕ → List AttachedNetwork → Result (List VpcOverlayConfig)
  unfolding overlays_for
  sync_host_vpc_overlays_for_host host address port attached =
      overlays_for attached host address port (collect (own_vpcs host attached)) []
