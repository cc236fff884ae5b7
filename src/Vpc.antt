-- ===== src/Vpc.antt =====
-- The network policy of a cluster (qarax/src/network_policy.rs): which subnets a host blocks and
-- exempts from NAT, and the VXLAN overlays that join the hosts of a VPC.
pub mod Isolation
pub mod Exempt
pub mod Overlay
use qarax.Base.{
  ℕ, Bool, true, false, ◌&&◌, not, Option, none, some, List, [], ◌∷◌, ◌++◌, if◌then◌else◌, filter,
  map, Text, codes, ◌==◌, nat_ord, text_ord, collect,
}
use qarax.Schedule.{if_some}

pub record Network : Type 0 where
  pub id : ℕ
  pub subnet : Text
  pub vpc_name : Option Text
  pub network_type : Option Text

pub record AttachedNetwork : Type 0 where
  pub network : Network
  pub host_id : ℕ
  pub bridge_name : Text
  pub host_address : Text
  -- Not negative.
  pub host_port : ℕ

-- `as_deref() == Some(text)`
abbrev pub is_some_eq : Option Text → Text → Bool
is_some_eq o text = if_some (λ t. t == text) o

unfoldable pub attached_networks_for_host : List AttachedNetwork → ℕ → List (Network × Text)
attached_networks_for_host attached_cluster host_id =
    map (λ a. (a.network, a.bridge_name)) (filter (λ a. a.host_id == host_id) attached_cluster)

-- Another network that is not in the VPC.
abbrev pub is_foreign : Network → Text → Network → Bool
is_foreign network vpc_name other =
    not (other.id == network.id) && not (is_some_eq other.vpc_name vpc_name)

unfoldable pub blocked_subnets_for_network :
    Network → ℕ → List (Network × Text) → List AttachedNetwork → List Text
blocked_subnets_for_network network host_id attached_host_networks attached_cluster =
    elim network.vpc_name [
      | none ↦ []
      | some vpc_name ↦ collect (
          map (λ other. other.0.subnet)
            (filter (λ other. is_foreign network vpc_name other.0) attached_host_networks)
          ++ map (λ other. other.network.subnet)
              (filter
                (λ other.
                  not (other.host_id == host_id) && is_foreign network vpc_name other.network)
                attached_cluster))
    ]

unfoldable pub nat_exempt_subnets_for_network : Network → List AttachedNetwork → List Text
nat_exempt_subnets_for_network network attached_cluster = elim network.vpc_name [
  | none ↦ []
  | some vpc_name ↦
      if is_some_eq network.network_type (codes "isolated")
      then collect (
          map (λ other. other.network.subnet)
            (filter
              (λ other.
                not (other.network.id == network.id) && is_some_eq other.network.vpc_name vpc_name)
              attached_cluster))
      else []
]

unfoldable pub affected_host_ids_for_vpc : List AttachedNetwork → Text → List ℕ → List ℕ
affected_host_ids_for_vpc attached_cluster vpc_name extra_host_ids = collect (
    extra_host_ids
    ++ map (λ attachment. attachment.host_id)
        (filter (λ attachment. is_some_eq attachment.network.vpc_name vpc_name) attached_cluster))
