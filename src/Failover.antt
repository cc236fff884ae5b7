-- ===== src/Failover.antt =====
-- What the HA monitor (qarax/src/ha_monitor.rs) asks of a host that takes over a VM: the pools of
-- the VM's disks, its GPUs, and the search for the host.
pub mod Attempt
pub mod Quiet
pub mod Target
pub mod Changes
pub mod Touches
pub mod Cycle
pub mod Residents
pub mod Spared
pub mod Handled
pub mod Ticked
pub mod Retried
pub mod Ends
pub mod Outcome
use qarax.Base.{
  ℕ, zero, suc, Bool, true, false, Option, none, some, List, [], ◌∷◌, ◌++◌, filter, map, length,
  if◌then◌else◌, leb, any, ◌&&◌, collect, Text, codes, ◌==◌, nat_ord, Error, unprocessable_entity,
  internal_server_error, sqlx, Result, ok, err,
}
use qarax.VmConfig.{Json, UuidText}
use qarax.Db.{Vm, Host, HostGpu, Db}
use qarax.Schedule.{
  Double, GpuRequest, PlacementPolicy, SchedulingRequest, SchedulingSettings, elem,
}
use qarax.Relocate.{Round, evacuation_scheduling_request, pick_failover_host, quote}
use qarax.Control.{Store, World, M, pure, lift, ◌>>=◌, ◌>>◌, query, tick}
use qarax.Lifecycle.{persisted_vm_architecture}
use qarax.Lifecycle.Commit.{StoragePool, StoragePoolType}
use qarax.Gpus.{list_by_vm}

-- model/vm_disks.rs, model/storage_objects.rs and model/network_interfaces.rs
pub record VmDisk : Type 0 where
  pub vm_id : ℕ
  pub storage_object_id : Option ℕ
  pub upper_storage_object_id : Option ℕ

pub record StorageObject : Type 0 where
  pub id : ℕ
  pub storage_pool_id : ℕ

pub record NetworkInterface : Type 0 where
  pub vm_id : ℕ
  pub network_id : Option ℕ

-- The tables and settings that the monitor only reads; the decoder of a placement policy, which is
-- derived; and what is not the monitor's: the rows that others lock, how a round of a search that
-- begins at a call ends, and whether a host answers a probe.
pub record Inventory (F : Type 0) : Type 0 where
  pub vm_disks : List VmDisk
  pub storage_objects : List StorageObject
  pub storage_pools : List StoragePool
  pub host_storage_pools : List (ℕ × ℕ)
  pub host_networks : List (ℕ × ℕ)
  pub network_interfaces : List NetworkInterface
  pub scheduling : SchedulingSettings F
  pub uuid : UuidText
  pub policy_from_value : Json → Option PlacementPolicy
  pub locked_hosts : ℕ → ℕ → ℕ → Bool
  pub locked_gpus : ℕ → ℕ → Bool
  pub round_answers : ℕ → ℕ → Bool
  pub pool_answers : ℕ → ℕ → ℕ → ℕ → Bool
  pub is_reachable : ℕ → ℕ → Bool
  -- the call at which the planning of a round begins
  pub planning_calls : ℕ → ℕ → ℕ
  -- the monotonic clock, in nanoseconds
  pub instant : ℕ → ℕ

-- Options in the order of the list.
unfoldable pub filter_map {ℓ κ} : {A : Type ℓ} {B : Type κ} → (A → Option B) → List A → List B
filter_map f [] = []
filter_map f (x ∷ xs) = elim (f x) [ none ↦ filter_map f xs | some y ↦ y ∷ filter_map f xs ]

abbrev pub first {ℓ} : {A : Type ℓ} → List A → Option A
first [] = none
first (x ∷ xs) = some x

-- `iter().min()`
unfoldable pub smallest : List ℕ → Option ℕ
smallest [] = none
smallest (x ∷ xs) = elim (smallest xs) [ none ↦ some x | some y ↦ some (if leb x y then x else y) ]

unfoldable pub is_shared : StoragePoolType → Bool
is_shared StoragePoolType.local = false
is_shared StoragePoolType.nfs = true
is_shared StoragePoolType.overlay_bd = true
is_shared StoragePoolType.block = true

unfoldable pub debug_pool_type : StoragePoolType → Text
debug_pool_type StoragePoolType.local = codes "Local"
debug_pool_type StoragePoolType.nfs = codes "Nfs"
debug_pool_type StoragePoolType.overlay_bd = codes "OverlayBd"
debug_pool_type StoragePoolType.block = codes "Block"

unfoldable pub ensure_shared : List StoragePool → Result (Unit {0})
ensure_shared [] = ok tt
ensure_shared (pool ∷ pools) = elim (is_shared pool.pool_type) [
  | true ↦ ensure_shared pools
  | false ↦ err (
      unprocessable_entity (
        codes "disk on pool "
        ++ (quote pool.name
            ++ (codes " ("
                ++ (debug_pool_type pool.pool_type
                    ++ codes ") is not on shared storage; cannot fail over")))))
]

unfoldable pub request_for : List HostGpu → Option GpuRequest
request_for [] = none
request_for (g ∷ gpus) = some (record {
  count = length (g ∷ gpus);
  vendor = first (filter_map (λ (g : HostGpu). g.vendor) (g ∷ gpus));
  model = first (filter_map (λ (g : HostGpu). g.model) (g ∷ gpus));
  min_vram_bytes = smallest (filter_map (λ (g : HostGpu). g.vram_bytes) (g ∷ gpus));
})

module _ {F : Type 0} (w : World) (inv : Inventory F) where
  -- The identifiers are collected in a hash set, whose order is not specified; here they are sorted.
  unfoldable pub pools_of_objects : List ℕ → M F (List ℕ)
  pools_of_objects [] = pure []
  pools_of_objects (id ∷ ids) = do
    objects ←
        query w (λ s. filter (λ (o : StorageObject). elem o.id (id ∷ ids)) inv.storage_objects)
    let pool_ids = collect (map (λ (o : StorageObject). o.storage_pool_id) objects)
    pools ← query w (λ s. filter (λ (p : StoragePool). elem p.id pool_ids) inv.storage_pools)
    lift (ensure_shared pools)
    pure pool_ids

  unfoldable pub shared_disk_pool_ids : Vm → M F (List ℕ)
  shared_disk_pool_ids vm = do
    disks ← query w (λ s. filter (λ (d : VmDisk). d.vm_id == vm.id) inv.vm_disks)
    pools_of_objects (
        collect (
          filter_map (λ (d : VmDisk). d.storage_object_id) disks
          ++ filter_map (λ (d : VmDisk). d.upper_storage_object_id) disks))

  unfoldable pub gpu_request_for_vm : Vm → M F (Option GpuRequest)
  gpu_request_for_vm vm = do
    allocated ← query w (λ s. list_by_vm vm.id s.host_gpus)
    pure (request_for allocated)

-- A search that used its fuel up, which does not happen.
abbrev pub ended {ℓ} : {A : Type ℓ} → Option (Result A) → Result A
ended none = err internal_server_error
ended (some r) = r

module _ (d : Double) (inv : Inventory d.F) where
  open d use {F}

  -- A round of the search that begins in this state.
  abbrev pub round_at : Store F → ℕ → Result (Round F)
  round_at s n =
      if inv.round_answers s.calls n
      then ok (record {
        db = record {
          hosts = s.hosts;
          vms = s.vms;
          host_gpus = s.host_gpus;
          host_storage_pools = inv.host_storage_pools;
          host_networks = inv.host_networks;
        };
        locked = inv.locked_hosts s.calls n;
      })
      else err sqlx

  -- `storage_pools::host_has_pool`
  abbrev pub host_has_pool : Store F → ℕ → ℕ → ℕ → Result Bool
  host_has_pool s n host_id pool_id =
      if inv.pool_answers s.calls n host_id pool_id
      then ok (any (λ r. (r.0 == host_id) && (r.1 == pool_id)) inv.host_storage_pools)
      else err sqlx

  -- One round more than there are hosts.
  unfoldable pub search : SchedulingRequest → Text → List ℕ → Store F → Option (Result (Host F))
  search request name required s =
      pick_failover_host d (round_at s) inv.scheduling (host_has_pool s) request name required
        (suc (length s.hosts))

  module _ (w : World) where
    unfoldable pub request_of : Vm → ℕ → Option GpuRequest → M F SchedulingRequest
    request_of vm source gpu = do
      networks ← query w (λ s.
          filter_map (λ (i : NetworkInterface). i.network_id)
            (filter (λ (i : NetworkInterface). i.vm_id == vm.id) inv.network_interfaces))
      pure (
          evacuation_scheduling_request vm (collect networks) (persisted_vm_architecture vm)
            (inv.policy_from_value vm.config) source gpu)

    unfoldable pub find_target : Vm → ℕ → List ℕ → Option GpuRequest → M F (Host F)
    find_target vm dead_host_id required gpu = do
      request ← request_of vm dead_host_id gpu
      (λ s. (ended (search request vm.name required s), tick s))
