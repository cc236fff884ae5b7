-- ===== src/Vpc/Exempt.antt =====
-- NAT exemptions, their relation to the blocked subnets, and the hosts that a change reaches.
use mathlib.Core.List.Memᴰ
use qarax.Base.{
  ℕ, ◌≡◌, refl, sym, subst, ◌∙◌, ◌≢◌, ◌⊎◌, inl, inr, ◌↔◌, Bool, ◌&&◌, not, some, List, Memᴰ, filter,
  map, Text, codes, ◌==◌, nat_ord, text_ord, ==_iff, collect, mem-collect, of_mem-collect, and_true,
  IsStrict, collect-IsStrict,
}
use qarax.Schedule.Tests.{if_some_eq_iff, false_iff, not-true_iff}
use qarax.Vpc.{
  Network, AttachedNetwork, is_some_eq, attached_networks_for_host, blocked_subnets_for_network,
  nat_exempt_subnets_for_network, affected_host_ids_for_vpc,
}
use qarax.Vpc.Isolation.{mem_map-filter, blocked_subnets_iff}

-- Another network of the same VPC.
pub record Peer (network : Network) (vpc : Text) (cluster : List AttachedNetwork) (subnet : Text)
    : Type 0 where
  pub attachment : AttachedNetwork
  pub attached : Memᴰ attachment cluster
  pub other : attachment.network.id ≢ network.id
  pub inside : attachment.network.vpc_name ≡ some vpc
  pub is_subnet : attachment.network.subnet ≡ subnet

module _ (network : Network) (cluster : List AttachedNetwork) (vpc : Text)
    (in_vpc : network.vpc_name ≡ some vpc) where
  abbrev is_peer : AttachedNetwork → Bool
  is_peer other = not (other.network.id == network.id) && is_some_eq other.network.vpc_name vpc

  abbrev peer_subnets : List Text
  peer_subnets = map (λ other. other.network.subnet) (filter is_peer cluster)

  exempt-collect :
      network.network_type ≡ some (codes "isolated")
      → nat_exempt_subnets_for_network network cluster ≡ collect peer_subnets
  unfolding nat_exempt_subnets_for_network
  exempt-collect isolated = rw (
    in_vpc,
    nat_exempt_subnets_for_network,
    (if_some_eq_iff network.network_type (codes "isolated")).1 isolated,
  )

  -- An isolated network of a VPC exempts exactly the subnets of the other networks of its VPC.
  pub nat_exempt_iff :
      network.network_type ≡ some (codes "isolated")
      → (subnet : Text)
      → Memᴰ subnet (nat_exempt_subnets_for_network network cluster)
        ↔ Peer network vpc cluster subnet
  nat_exempt_iff isolated subnet = (
    λ m.
        let (a, attached, peer, is) =
          (mem_map-filter (λ (other : AttachedNetwork). other.network.subnet) is_peer subnet
              cluster).0
            (of_mem-collect _ (rw (exempt-collect isolated) at m)) in
        let t =
          (and_true (not (a.network.id == network.id)) (is_some_eq a.network.vpc_name vpc)).0
            peer in
        record {
          attachment = a;
          attached = attached;
          other = (false_iff _ (==_iff a.network.id network.id)).0 ((not-true_iff _).0 t.0);
          inside = (if_some_eq_iff a.network.vpc_name vpc).0 t.1;
          is_subnet = is;
        },
    λ p. rw (exempt-collect isolated) (
        mem-collect (
          (mem_map-filter (λ (other : AttachedNetwork). other.network.subnet) is_peer subnet
              cluster).1
            (
              p.attachment,
              p.attached,
              (and_true _ _).1 (
                (not-true_iff _).1
                    ((false_iff _ (==_iff p.attachment.network.id network.id)).1 p.other),
                (if_some_eq_iff p.attachment.network.vpc_name vpc).1 p.inside,
              ),
              p.is_subnet,
            ))),
  )

  -- Where attached networks with one subnet are one network, no subnet is both exempt from NAT and
  -- blocked.
  pub exempt_not_blocked :
      network.network_type ≡ some (codes "isolated")
      → ((a b : AttachedNetwork)
          → Memᴰ a cluster
          → Memᴰ b cluster
          → a.network.subnet ≡ b.network.subnet
          → a.network ≡ b.network)
      → (host : ℕ) (subnet : Text) → Memᴰ subnet (nat_exempt_subnets_for_network network cluster)
      → ¬ Memᴰ subnet (
          blocked_subnets_for_network network host
            (attached_networks_for_host cluster host)
            cluster)
  exempt_not_blocked isolated unique host subnet m b =
      let p = (nat_exempt_iff isolated subnet).0 m in
      let f = (blocked_subnets_iff network host cluster vpc in_vpc subnet).0 b in
      let same =
        unique p.attachment f.attachment p.attached f.attached (p.is_subnet ∙ sym f.is_subnet) in
      f.outside (subst (λ (n : Network). n.vpc_name ≡ some vpc) same p.inside)

-- Isolation is mutual: of two attached networks with different identifiers in different VPCs, each
-- is blocked on the host of the other.
pub isolation_mutual :
    (cluster : List AttachedNetwork) (a b : AttachedNetwork) (v w : Text)
    → Memᴰ a cluster
    → Memᴰ b cluster
    → a.network.vpc_name ≡ some v
    → b.network.vpc_name ≡ some w
    → a.network.id ≢ b.network.id
    → v ≢ w
    → let blocked = λ (n : AttachedNetwork).
      blocked_subnets_for_network n.network n.host_id
        (attached_networks_for_host cluster n.host_id)
        cluster in
      Memᴰ b.network.subnet (blocked a) × Memᴰ a.network.subnet (blocked b)
isolation_mutual cluster a b v w ma mb va vb distinct ne = (
  (blocked_subnets_iff a.network a.host_id cluster v va b.network.subnet).1 (record {
    attachment = b;
    attached = mb;
    other = λ e. distinct (sym e);
    outside = λ e. ne (cc (vb, e));
    is_subnet = refl;
  }),
  (blocked_subnets_iff b.network b.host_id cluster w vb a.network.subnet).1 (record {
    attachment = a;
    attached = ma;
    other = λ e. distinct e;
    outside = λ e. ne (cc (va, e));
    is_subnet = refl;
  }),
)

-- The hosts whose state is synchronised for a VPC, each once and in order: those with a network of
-- the VPC, and the extra ones.
pub affected_host_ids_iff :
    (cluster : List AttachedNetwork) (vpc : Text) (extra : List ℕ)
    → IsStrict (affected_host_ids_for_vpc cluster vpc extra)
      × ((host : ℕ)
          → Memᴰ host (affected_host_ids_for_vpc cluster vpc extra) ↔ (
              Memᴰ host extra
              ⊎ ((a : AttachedNetwork) × Memᴰ a cluster
                  × (a.network.vpc_name ≡ some vpc)
                  × (a.host_id ≡ host))))
unfolding affected_host_ids_for_vpc
affected_host_ids_iff cluster vpc extra = (
  collect-IsStrict _,
  λ host. (
    λ m. elim (Memᴰ.append_cases extra (of_mem-collect _ m)) [
      | inl e ↦ inl e
      | inr r ↦
          let (a, attached, inside, is) =
            (mem_map-filter (λ (a : AttachedNetwork). a.host_id)
                (λ (a : AttachedNetwork). is_some_eq a.network.vpc_name vpc) host cluster).0
              r in
          inr (a, attached, (if_some_eq_iff a.network.vpc_name vpc).0 inside, is)
    ],
    λ t. mem-collect (elim t [
      | inl e ↦ Memᴰ.append_left _ e
      | inr (a, attached, inside, is) ↦ Memᴰ.append_right extra (
          (mem_map-filter (λ (a : AttachedNetwork). a.host_id)
              (λ (a : AttachedNetwork). is_some_eq a.network.vpc_name vpc) host cluster).1
            (a, attached, (if_some_eq_iff a.network.vpc_name vpc).1 inside, is))
    ]),
  ),
)
