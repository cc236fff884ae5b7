-- ===== src/Gpus.antt =====
-- The GPUs of the hosts: `list_by_vm`, `allocate_gpus` and `deallocate_by_vm_tx` of
-- qarax/src/model/host_gpus.rs, and the move of a VM's GPUs to another host in one transaction, which
-- is `reallocate_vm_gpus` of qarax/src/ha_monitor.rs.
pub mod Allocation
pub mod Transfer
use qarax.Base.{
  ℕ, Bool, ◌&&◌, not, Option, none, some, List, [], ◌∷◌, ◌++◌, filter, length, take, sort_by,
  cmp_text, Ordering, leb, codes, ◌==◌, nat_ord, text_ord, to_string, update_where, guard,
  unprocessable_entity, Error,
}
use qarax.Db.{HostGpu}
use qarax.Schedule.{GpuRequest, is_unset, null_or, if_some}
use qarax.Rows.{is_chosen}
use qarax.Control.{World, M, lift, ◌>>=◌, ◌>>◌, query, execute}
use qarax.Lifecycle.Task.{is_held_by}

abbrev pub gpu_id : HostGpu → ℕ
gpu_id g = g.id

-- In the order of the bytes, where PostgreSQL follows the collation of the database.
abbrev pub by_pci_address : HostGpu → HostGpu → Ordering
by_pci_address a b = cmp_text a.pci_address b.pci_address

abbrev pub holds : ℕ → HostGpu → Bool
holds vm_id g = is_held_by vm_id g.vm_id

unfoldable pub list_by_vm : ℕ → List HostGpu → List HostGpu
list_by_vm vm_id gpus = sort_by by_pci_address (filter (holds vm_id) gpus)

-- The WHERE clause of the subquery.
unfoldable pub allocatable : ℕ → GpuRequest → HostGpu → Bool
allocatable host_id request g =
    (g.host_id == host_id)
    && (is_unset g.vm_id
        && (null_or (λ vendor. if_some (λ v. v == vendor) g.vendor) request.vendor
            && (null_or (λ model. if_some (λ m. m == model) g.model) request.model
                && null_or (λ min. if_some (λ bytes. leb min bytes) g.vram_bytes)
                    request.min_vram_bytes)))

abbrev pub give_to : ℕ → HostGpu → HostGpu
give_to vm_id g = record g { vm_id = some vm_id }

abbrev pub release : HostGpu → HostGpu
release g = record g { vm_id = none }

-- The rows of the subquery; `locked` are those that FOR UPDATE SKIP LOCKED passes over.
unfoldable pub picked_gpus : (ℕ → Bool) → ℕ → GpuRequest → List HostGpu → List HostGpu
picked_gpus locked host_id request gpus =
    take request.count (
      sort_by by_pci_address
        (filter (λ g. not (locked g.id) && allocatable host_id request g) gpus))

-- The table after the update, and the rows that it returns.
unfoldable pub allocate_gpus :
    (ℕ → Bool) → ℕ → ℕ → GpuRequest → List HostGpu → List HostGpu × List HostGpu
allocate_gpus locked host_id vm_id request gpus =
    let rows = picked_gpus locked host_id request gpus in
    let updated = update_where (is_chosen gpu_id rows) (give_to vm_id) gpus in
    (updated, filter (is_chosen gpu_id rows) updated)

unfoldable pub deallocate_by_vm_tx : ℕ → List HostGpu → List HostGpu
deallocate_by_vm_tx vm_id = update_where (holds vm_id) release

unfoldable pub too_few_gpus : ℕ → ℕ → Error
too_few_gpus wanted found = unprocessable_entity (
    codes "requested "
    ++ (to_string wanted
        ++ (codes " GPUs for failover but only "
            ++ (to_string found ++ codes " available on target host"))))

module _ {F : Type 0} (w : World) where
  -- The writes take effect with the commit. `locked` are the rows that other transactions hold at
  -- the call with that number.
  unfoldable pub reallocate_vm_gpus : (ℕ → ℕ → Bool) → ℕ → ℕ → GpuRequest → M F (Unit {0})
  reallocate_vm_gpus locked vm_id target_host_id request = do
    begun ← query w (λ s. tt)
    released ← query w (λ s. deallocate_by_vm_tx vm_id s.host_gpus)
    (gpus, allocated) ←
        query w (λ s. allocate_gpus (locked s.calls) target_host_id vm_id request released)
    lift (
        guard (leb request.count (length allocated))
          (too_few_gpus request.count (length allocated)))
    execute w (λ s. record s { host_gpus = gpus })
