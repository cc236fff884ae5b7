-- ===== src/Migration.antt =====
-- Live migration of a VM: `plan_vm_migration`, `execute_planned_vm_migration` and `migrate` of
-- qarax/src/handlers/vm/handler.rs. The request that the target host is sent is not looked at, only
-- whether it can be built; an address of the receiver is part of the answer of the target.
pub mod Checks
pub mod Plan
pub mod Execute
pub mod Task
use qarax.Base.{
  ℕ, Bool, true, false, ◌&&◌, Option, none, some, List, [], ◌∷◌, ◌++◌, filter, map, any, collect,
  Text, codes, ◌==◌, nat_ord, Error, unprocessable_entity, not_found, Result, ok, err, guard, not,
}
use qarax.Db.{Vm, VmStatus, Hypervisor, Host, HostGpu}
use qarax.Schedule.{elem}
use qarax.Relocate.{quote}
use qarax.Control.{
  World, M, pure, throw, lift, attempt, ◌>>=◌, ◌>>◌, query, call_node, tick, get_vm, host_for_vm,
  find_host, some_or, create_job, mark_running, mark_completed, mark_failed, update_progress,
  JobType, Rpc, Answer,
}
use qarax.Lifecycle.{
  persisted_vm_architecture, ensure_host_matches_architecture, update_status, status_name,
}
use qarax.Lifecycle.Commit.{StoragePool}
use qarax.Gpus.{list_by_vm}
use qarax.Failover.{Inventory, VmDisk, StorageObject, filter_map, is_shared, debug_pool_type}
use qarax.Failover.Attempt.{update_host_id}

pub record PlannedVmMigration (F : Type 0) : Type 0 where
  pub vm_id : ℕ
  pub vm_name : Text
  pub source_host : Host F
  pub target_host : Host F
  pub original_status : VmStatus

pub record MigrationTask (F : Type 0) : Type 0 where
  pub job_id : ℕ
  pub plan : PlannedVmMigration F

unfoldable pub is_migratable : VmStatus → Bool
is_migratable VmStatus.running = true
is_migratable VmStatus.paused = true
is_migratable _ = false

unfoldable pub is_cloud_hv : Hypervisor → Bool
is_cloud_hv Hypervisor.cloud_hv = true
is_cloud_hv Hypervisor.firecracker = false

abbrev pub is_nil {ℓ} : {A : Type ℓ} → List A → Bool
is_nil [] = true
is_nil (x ∷ xs) = false

abbrev pub not_migratable : VmStatus → Error
not_migratable status = unprocessable_entity (
    codes "VM must be running or paused to migrate (current status: "
    ++ (status_name status ++ codes ")"))

abbrev pub not_live : StoragePool → Error
not_live pool = unprocessable_entity (
    codes "live migration is not supported for pool "
    ++ (quote pool.name ++ (codes " (type: " ++ (debug_pool_type pool.pool_type ++ codes ")"))))

abbrev pub local_upper : StoragePool → Error
local_upper pool = unprocessable_entity (
    codes "live migration is not supported: persistent upper layer is on local pool "
    ++ quote pool.name)

-- `to_text` is the printer of identifiers.
abbrev pub no_pool : (ℕ → Text) → ℕ → StoragePool → Error
no_pool to_text host_id pool = unprocessable_entity (
    codes "destination host "
    ++ (to_text host_id
        ++ (codes " does not have pool "
            ++ (quote pool.name
                ++ (codes " (" ++ (debug_pool_type pool.pool_type ++ codes ") attached"))))))

abbrev pub no_upper_pool : (ℕ → Text) → ℕ → StoragePool → Error
no_upper_pool to_text host_id pool = unprocessable_entity (
    codes "destination host "
    ++ (to_text host_id
        ++ (codes " does not have upper layer pool " ++ (quote pool.name ++ codes " attached"))))

module _ {F : Type 0} (w : World) (inv : Inventory F) where
  unfoldable pub require_by_id : ℕ → M F (Host F)
  require_by_id host_id = do
    found ← query w (λ s. find_host host_id s.hosts)
    some_or found not_found

  -- The loop over the pools, with the error for a local pool and for one that is not attached.
  unfoldable pub check_pools :
      ℕ → (StoragePool → Error) → (StoragePool → Error) → List StoragePool → M F (Unit {0})
  check_pools host_id unsupported missing [] = pure tt
  check_pools host_id unsupported missing (pool ∷ pools) = do
    lift (guard (is_shared pool.pool_type) (unsupported pool))
    has_pool ← query w (λ s. any (λ r. (r.0 == host_id) && (r.1 == pool.id)) inv.host_storage_pools)
    lift (guard has_pool (missing pool))
    check_pools host_id unsupported missing pools

  unfoldable pub check_objects :
      ℕ → (StoragePool → Error) → (StoragePool → Error) → List ℕ → M F (Unit {0})
  check_objects host_id unsupported missing [] = pure tt
  check_objects host_id unsupported missing (id ∷ ids) = do
    objects ←
        query w (λ s. filter (λ (o : StorageObject). elem o.id (id ∷ ids)) inv.storage_objects)
    let pool_ids = collect (map (λ (o : StorageObject). o.storage_pool_id) objects)
    pools ← query w (λ s. filter (λ (p : StoragePool). elem p.id pool_ids) inv.storage_pools)
    check_pools host_id unsupported missing pools

  -- The disks' base objects, and then their upper layers.
  unfoldable pub check_disks : ℕ → ℕ → M F (Unit {0})
  check_disks vm_id host_id = do
    disks ← query w (λ s. filter (λ (d : VmDisk). d.vm_id == vm_id) inv.vm_disks)
    check_objects host_id not_live (no_pool inv.uuid.to_string host_id)
        (filter_map (λ (d : VmDisk). d.storage_object_id) disks)
    check_objects host_id local_upper (no_upper_pool inv.uuid.to_string host_id)
        (filter_map (λ (d : VmDisk). d.upper_storage_object_id) disks)

  unfoldable pub check_no_gpus : ℕ → M F (Unit {0})
  check_no_gpus vm_id = do
    gpus ← query w (λ s. list_by_vm vm_id s.host_gpus)
    lift (
        guard (is_nil gpus) (
          unprocessable_entity
            (codes "live migration is not supported for VMs with attached GPUs")))

  -- What is asked of the two hosts.
  unfoldable pub check_move : ℕ → Vm → Host F → Host F → M F (Unit {0})
  check_move vm_id vm source_host target_host = do
    lift (
        guard (not (source_host.id == target_host.id))
          (unprocessable_entity (codes "Source and destination hosts are the same")))
    lift (ensure_host_matches_architecture target_host (persisted_vm_architecture vm))
    check_no_gpus vm_id
    check_disks vm_id target_host.id
    (λ s. (w.can_build_request s.calls, tick s))

  unfoldable pub migratable_vm : ℕ → M F Vm
  migratable_vm vm_id = do
    vm ← get_vm w vm_id
    lift (guard (is_migratable vm.status) (not_migratable vm.status))
    lift (
        guard (is_cloud_hv vm.hypervisor) (
          unprocessable_entity
            (codes "live migration is currently only supported for cloud_hv VMs")))
    pure vm

  unfoldable pub plan_vm_migration : ℕ → ℕ → M F (PlannedVmMigration F)
  plan_vm_migration vm_id target_host_id = do
    vm ← migratable_vm vm_id
    source_host ← host_for_vm w vm_id
    target_host ← require_by_id target_host_id
    check_move vm_id vm source_host target_host
    pure (record {
      vm_id = vm_id;
      vm_name = vm.name;
      source_host = source_host;
      target_host = target_host;
      original_status = vm.status;
    })

module _ {F : Type 0} (w : World) where
  -- The progress is written where there is a job.
  unfoldable pub progress_of : Option ℕ → ℕ → M F (Unit {0})
  progress_of none progress = pure tt
  progress_of (some job_id) progress = do
    written ← attempt (update_progress w job_id progress)
    pure tt

  unfoldable pub hand_over : PlannedVmMigration F → M F (Unit {0})
  hand_over plan = do
    host ← attempt (update_host_id w plan.vm_id plan.target_host.id)
    status ← attempt (update_status w plan.vm_id plan.original_status)
    deleted ← call_node w plan.source_host.id (Rpc.delete_vm plan.vm_id)
    pure tt

  -- The message of the failure, if the migration failed.
  unfoldable pub sent : PlannedVmMigration F → Option ℕ → Answer → M F (Option Text)
  sent plan job (Answer.failure message) = pure (some (codes "send_migration failed: " ++ message))
  sent plan job Answer.absent = pure (some (codes "send_migration failed: not found"))
  sent plan job Answer.done = do progress_of job 75; hand_over plan; pure none

  unfoldable pub received : PlannedVmMigration F → Option ℕ → Answer → M F (Option Text)
  received plan job (Answer.failure message) =
      pure (some (codes "receive_migration failed: " ++ message))
  received plan job Answer.absent = pure (some (codes "receive_migration failed: not found"))
  received plan job Answer.done = do
    progress_of job 25
    answer ← call_node w plan.source_host.id (Rpc.send_migration plan.vm_id)
    sent plan job answer

  unfoldable pub execute_planned_vm_migration : PlannedVmMigration F → Option ℕ → M F (Option Text)
  execute_planned_vm_migration plan job = do
    answer ← call_node w plan.target_host.id (Rpc.receive_migration plan.vm_id)
    received plan job answer

  unfoldable pub migrate : Inventory F → ℕ → ℕ → M F (MigrationTask F)
  migrate inv vm_id target_host_id = do
    plan ← plan_vm_migration w inv vm_id target_host_id
    update_status w vm_id VmStatus.migrating
    job_id ← create_job w JobType.vm_migrate vm_id
    pure (record { job_id = job_id; plan = plan })

  unfoldable pub conclude_migration : MigrationTask F → Option Text → M F (Unit {0})
  conclude_migration task none = do completed ← attempt (mark_completed w task.job_id); pure tt
  conclude_migration task (some message) = do
    failed ← attempt (mark_failed w task.job_id message)
    reverted ← attempt (update_status w task.plan.vm_id task.plan.original_status)
    pure tt

  -- The task that `migrate` spawns.
  unfoldable pub run_migration : MigrationTask F → M F (Unit {0})
  run_migration task = do
    mark_running w task.job_id
    message ← execute_planned_vm_migration task.plan (some task.job_id)
    conclude_migration task message
