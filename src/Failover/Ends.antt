-- ===== src/Failover/Ends.antt =====
-- What an attempt to fail a VM over may leave.
use qarax.Base.{
  ℕ, ◌≡◌, ◌≢◌, true, some, List, [], ◌∷◌, ◌++◌, Memᴰ, Error, Result, ok, err, nat_ord, update_where,
}
use qarax.VmConfig.{set_failed_over_from}
use qarax.Db.{Vm, VmStatus, Host, is_up}
use qarax.Control.{Store, World, StartTask}
use qarax.Lifecycle.{is_vm}
use qarax.Lifecycle.Frame.{Lost}
use qarax.Lifecycle.Commit.{StoragePool}
use qarax.Failover.{Inventory, VmDisk, StorageObject, is_shared}
use qarax.Failover.Target.{Backs}
use qarax.Failover.Changes.{Touched}

-- The pools of the disk's objects are shared, and attached to the target.
abbrev Reachable : {F : Type 0} → Inventory F → Host F → VmDisk → Type 0
Reachable inv target disk =
    (o : StorageObject)
    → Memᴰ o inv.storage_objects
    → Backs disk o
    → ((r : ℕ × ℕ) × Memᴰ r inv.host_storage_pools × (r.0 ≡ target.id) × (r.1 ≡ o.storage_pool_id))
      × ((p : StoragePool)
          → Memᴰ p inv.storage_pools
          → p.id ≡ o.storage_pool_id
          → is_shared p.pool_type ≡ true)

-- A host that may take the VM over.
pub record IsTarget {F : Type 0} (inv : Inventory F) (hosts : List (Host F)) (vm : Vm)
    (dead_host : Host F) (target : Host F) : Type 0 where
  pub known : Memᴰ target hosts
  pub up : is_up target.status ≡ true
  pub elsewhere : target.id ≢ dead_host.id
  pub disks :
      (disk : VmDisk) → Memᴰ disk inv.vm_disks → disk.vm_id ≡ vm.id → Reachable inv target disk

-- The row between the two hosts, and after the start has been accepted.
abbrev pub created_on : {F : Type 0} → Inventory F → Vm → ℕ → ℕ → Vm → Vm
created_on inv vm dead_host_id target_id x = record x {
  config = set_failed_over_from inv.uuid vm.config (some dead_host_id);
  host_id = some target_id;
  status = VmStatus.created;
}

abbrev pub starting_on : {F : Type 0} → Inventory F → Vm → ℕ → ℕ → Vm → Vm
starting_on inv vm dead_host_id target_id x = record x {
  config = set_failed_over_from inv.uuid vm.config (some dead_host_id);
  host_id = some target_id;
  status = VmStatus.pending;
}

-- How the attempt ends. `s` is the state before it.
pub data FailsOver {F : Type 0} (inv : Inventory F) (w : World) (vm : Vm) (dead_host : Host F)
    (s : Store F) : Result ℕ × Store F → Type 0 where
  restored :
      {e : Error} {t : Store F}
      → t.vms ≡ s.vms
      → t.tasks ≡ s.tasks
      → FailsOver inv w vm dead_host s (err e, t)
  torn :
      {e : Error} {t : Store F}
      → Touched vm dead_host.id s.vms t.vms
      → t.tasks ≡ s.tasks
      → Lost w s t
      → FailsOver inv w vm dead_host s (err e, t)
  moved :
      {job : ℕ} {t : Store F} (target : Host F) (task : StartTask)
      → IsTarget inv s.hosts vm dead_host target
      → t.vms ≡ update_where (is_vm vm.id) (starting_on inv vm dead_host.id target.id) s.vms
      → t.tasks ≡ s.tasks ++ task ∷ []
      → task.job_id ≡ job
      → task.vm_id ≡ vm.id
      → task.host_id ≡ target.id
      → task.creates ≡ true
      → FailsOver inv w vm dead_host s (ok job, t)
