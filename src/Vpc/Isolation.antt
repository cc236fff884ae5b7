-- ===== src/Vpc/Isolation.antt =====
-- What a host blocks for a network, and what it exempts from NAT.
use mathlib.Core.List.Memᴰ
use qarax.Base.{
  ℕ, ◌≡◌, refl, sym, subst, ap, ◌∙◌, ◌≢◌, inl, inr, ◌↔◌, Bool, true, ◌&&◌, not, some, List, ◌++◌,
  Memᴰ, filter, map, Text, ◌==◌, nat_ord, text_ord, ==_iff, collect, mem-collect, of_mem-collect,
  mem-filter_of, of_mem-filter, and_true, Bool-cases,
}
use qarax.Schedule.Tests.{if_some_eq_iff, false_iff, not-true_iff}
use qarax.Vpc.{
  Network, AttachedNetwork, is_some_eq, attached_networks_for_host, is_foreign,
  blocked_subnets_for_network,
}

-- Membership in the image of a filtered list.
pub mem_map-filter {ℓ κ} :
    {A : Type ℓ} {B : Type κ} (f : A → B) (p : A → Bool) (b : B) (xs : List A)
    → Memᴰ b (map f (filter p xs)) ↔ ((a : A) × Memᴰ a xs × (p a ≡ true) × (f a ≡ b))
mem_map-filter f p b xs = (
  λ m.
      let r = Memᴰ.of_map f (filter p xs) m in
      let s = of_mem-filter p xs r.1 in (r.0, s.0, s.1, r.2),
  λ r. Memᴰ.cast (sym r.3) (Memᴰ.map f (mem-filter_of p r.1 r.2)),
)

is_foreign_iff :
    (network : Network) (vpc : Text) (other : Network)
    → (is_foreign network vpc other ≡ true)
      ↔ ((other.id ≢ network.id) × (other.vpc_name ≢ some vpc))
is_foreign_iff network vpc other = (
  λ h.
      let t = (and_true (not (other.id == network.id)) (not (is_some_eq other.vpc_name vpc))).0 h in
      (
        (false_iff _ (==_iff other.id network.id)).0 ((not-true_iff _).0 t.0),
        (false_iff _ (if_some_eq_iff other.vpc_name vpc)).0 ((not-true_iff _).0 t.1),
      ),
  λ t. (and_true _ _).1 (
    (not-true_iff _).1 ((false_iff _ (==_iff other.id network.id)).1 t.0),
    (not-true_iff _).1 ((false_iff _ (if_some_eq_iff other.vpc_name vpc)).1 t.1),
  ),
)

-- A network of the cluster that is neither the given one nor in its VPC.
pub record Foreign (network : Network) (vpc : Text) (cluster : List AttachedNetwork) (subnet : Text)
    : Type 0 where
  pub attachment : AttachedNetwork
  pub attached : Memᴰ attachment cluster
  pub other : attachment.network.id ≢ network.id
  pub outside : attachment.network.vpc_name ≢ some vpc
  pub is_subnet : attachment.network.subnet ≡ subnet

mem-attached_networks :
    (cluster : List AttachedNetwork) (host : ℕ) (e : Network × Text)
    → Memᴰ e (attached_networks_for_host cluster host)
    → (a : AttachedNetwork) × Memᴰ a cluster × (a.network ≡ e.0)
unfolding attached_networks_for_host
mem-attached_networks cluster host e m =
    let r =
      (mem_map-filter (λ (a : AttachedNetwork). (a.network, a.bridge_name)) (λ a. a.host_id == host)
          e cluster).0
        m in
    (r.0, r.1, ap (λ (p : Network × Text). p.0) r.3)

module _ (network : Network) (host : ℕ) (cluster : List AttachedNetwork) (vpc : Text)
    (in_vpc : network.vpc_name ≡ some vpc) where
  abbrev blocked : List Text
  blocked =
      blocked_subnets_for_network network host (attached_networks_for_host cluster host) cluster

  abbrev local_subnets : List Text
  local_subnets =
      map (λ other. other.0.subnet)
        (filter (λ other. is_foreign network vpc other.0) (attached_networks_for_host cluster host))

  abbrev is_remote : AttachedNetwork → Bool
  is_remote other = not (other.host_id == host) && is_foreign network vpc other.network

  abbrev remote_subnets : List Text
  remote_subnets = map (λ other. other.network.subnet) (filter is_remote cluster)

  blocked-collect : blocked ≡ collect (local_subnets ++ remote_subnets)
  unfolding blocked_subnets_for_network
  blocked-collect = rw (in_vpc, blocked_subnets_for_network)

  Foreign-of_local :
      (subnet : Text) → Memᴰ subnet local_subnets → Foreign network vpc cluster subnet
  Foreign-of_local subnet m =
      let (e, in_host, foreign, is) =
        (mem_map-filter (λ (other : Network × Text). other.0.subnet)
            (λ (other : Network × Text). is_foreign network vpc other.0) subnet
            (attached_networks_for_host cluster host)).0
          m in
      let (a, attached, same) = mem-attached_networks cluster host e in_host in
      let f = (is_foreign_iff network vpc e.0).0 foreign in
      record {
        attachment = a;
        attached = attached;
        other = subst (λ (n : Network). n.id ≢ network.id) (sym same) f.0;
        outside = subst (λ (n : Network). n.vpc_name ≢ some vpc) (sym same) f.1;
        is_subnet = ap (λ (n : Network). n.subnet) same ∙ is;
      }

  Foreign-of_remote :
      (subnet : Text) → Memᴰ subnet remote_subnets → Foreign network vpc cluster subnet
  Foreign-of_remote subnet m =
      let (a, attached, remote, is) =
        (mem_map-filter (λ (other : AttachedNetwork). other.network.subnet) is_remote subnet
            cluster).0
          m in
      let f =
        (is_foreign_iff network vpc a.network).0
          ((and_true (not (a.host_id == host)) (is_foreign network vpc a.network)).0 remote).1 in
      record { attachment = a; attached = attached; other = f.0; outside = f.1; is_subnet = is }

  mem_local :
      (a : AttachedNetwork)
      → Memᴰ a cluster
      → is_foreign network vpc a.network ≡ true
      → (a.host_id == host) ≡ true
      → Memᴰ a.network.subnet local_subnets
  unfolding attached_networks_for_host
  mem_local a m foreign here =
      (mem_map-filter (λ (other : Network × Text). other.0.subnet)
          (λ (other : Network × Text). is_foreign network vpc other.0) a.network.subnet
          (attached_networks_for_host cluster host)).1
        (
          (a.network, a.bridge_name),
          Memᴰ.map (λ (a : AttachedNetwork). (a.network, a.bridge_name))
              (mem-filter_of (λ (a : AttachedNetwork). a.host_id == host) m here),
          foreign,
          refl,
        )

  mem_blocked : (subnet : Text) → Foreign network vpc cluster subnet → Memᴰ subnet blocked
  mem_blocked subnet f =
      let a = f.attachment in
      let foreign = (is_foreign_iff network vpc a.network).1 (f.other, f.outside) in
      rw (blocked-collect, ← f.is_subnet)
        (mem-collect (elim (Bool-cases (a.host_id == host)) [
          | inl here ↦ Memᴰ.append_left remote_subnets (mem_local a f.attached foreign here)
          | inr away ↦ Memᴰ.append_right local_subnets (
              (mem_map-filter (λ (other : AttachedNetwork). other.network.subnet) is_remote
                  a.network.subnet cluster).1
                (a, f.attached, (and_true _ _).1 ((not-true_iff _).1 away, foreign), refl))
        ]))

  -- For a network of a VPC and the host that the attachments are filtered by: the blocked subnets
  -- are exactly those of the attached networks, on this host or another, that are neither this
  -- network nor in its VPC.
  pub blocked_subnets_iff :
      (subnet : Text)
      → Memᴰ subnet (
          blocked_subnets_for_network network host
            (attached_networks_for_host cluster host)
            cluster)
        ↔ Foreign network vpc cluster subnet
  blocked_subnets_iff subnet = (
    λ m. elim (Memᴰ.append_cases local_subnets (of_mem-collect _ (rw blocked-collect at m))) [
      | inl local ↦ Foreign-of_local subnet local
      | inr remote ↦ Foreign-of_remote subnet remote
    ],
    mem_blocked subnet,
  )
