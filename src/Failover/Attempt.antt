-- ===== src/Failover/Attempt.antt =====
-- One attempt to fail a VM over: `failover_vm` of qarax/src/ha_monitor.rs. The calls of the dead host
-- are made with a time limit; their outcome is not read.
use qarax.Base.{ℕ, Option, none, some, nat_ord, update_where, Result, ok, err}
use qarax.VmConfig.{Json, set_failed_over_from}
use qarax.Db.{Vm, VmStatus, Host}
use qarax.Schedule.{Double, GpuRequest}
use qarax.Control.{
  World, M, pure, throw, attempt, ◌>>=◌, ◌>>◌, execute, call_node, Rpc, JobType, create_job,
  mark_running, mark_completed, mark_failed,
}
use qarax.Lifecycle.{update_status, start_vm_internal, is_vm}
use qarax.Lifecycle.Task.{error_text}
use qarax.Gpus.{reallocate_vm_gpus}
use qarax.Failover.{Inventory, shared_disk_pool_ids, gpu_request_for_vm, find_target}

abbrev pub with_config : Json → Vm → Vm
with_config config vm = record vm { config = config }

abbrev pub with_host : ℕ → Vm → Vm
with_host host_id vm = record vm { host_id = some host_id }

module _ {F : Type 0} (w : World) where
  unfoldable pub update_config : ℕ → Json → M F (Unit {0})
  update_config vm_id config =
      execute w (λ s. record s { vms = update_where (is_vm vm_id) (with_config config) s.vms })

  unfoldable pub update_host_id : ℕ → ℕ → M F (Unit {0})
  update_host_id vm_id host_id =
      execute w (λ s. record s { vms = update_where (is_vm vm_id) (with_host host_id) s.vms })

  unfoldable pub revert_failover_state : Vm → ℕ → M F (Unit {0})
  revert_failover_state vm dead_host_id = do
    host ← attempt (update_host_id vm.id dead_host_id)
    status ← attempt (update_status w vm.id vm.status)
    config ← attempt (update_config vm.id vm.config)
    pure tt

module _ (d : Double) (inv : Inventory d.F) (w : World) where
  open d use {F}

  -- The GPUs move where the VM has some.
  unfoldable pub move_gpus : Vm → ℕ → Option GpuRequest → M F (Unit {0})
  move_gpus vm target none = pure tt
  move_gpus vm target (some request) = reallocate_vm_gpus w inv.locked_gpus vm.id target request

  unfoldable pub after_gpus : Vm → Host F → Result (Unit {0}) → M F (Unit {0})
  after_gpus vm dead_host (ok moved) = pure tt
  after_gpus vm dead_host (err e) = do revert_failover_state w vm dead_host.id; throw e

  unfoldable pub after_start : Vm → Host F → Option GpuRequest → Result ℕ → M F ℕ
  after_start vm dead_host gpu (ok start_job_id) = pure start_job_id
  after_start vm dead_host gpu (err e) = do
    revert_failover_state w vm dead_host.id
    back ← attempt (move_gpus vm dead_host.id gpu)
    throw e

  -- From the choice of the target on.
  unfoldable pub move_to : Vm → Host F → Option GpuRequest → Host F → M F ℕ
  move_to vm dead_host gpu target = do
    stopped ← call_node w dead_host.id (Rpc.force_stop_vm vm.id)
    deleted ← call_node w dead_host.id (Rpc.delete_vm vm.id)
    update_config w vm.id (set_failed_over_from inv.uuid vm.config (some dead_host.id))
    update_host_id w vm.id target.id
    update_status w vm.id VmStatus.created
    moved ← attempt (move_gpus vm target.id gpu)
    after_gpus vm dead_host moved
    started ← attempt (start_vm_internal w vm.id)
    after_start vm dead_host gpu started

  unfoldable pub execute_failover : Vm → Host F → M F ℕ
  execute_failover vm dead_host = do
    required ← shared_disk_pool_ids w inv vm
    gpu ← gpu_request_for_vm w inv vm
    target ← find_target d inv w vm dead_host.id required gpu
    move_to vm dead_host gpu target

  unfoldable pub conclude_failover : ℕ → Result ℕ → M F (Unit {0})
  conclude_failover job_id (ok start_job_id) = mark_completed w job_id
  conclude_failover job_id (err e) = mark_failed w job_id (error_text e)

  unfoldable pub with_job : Vm → Host F → Result ℕ → M F (Unit {0})
  with_job vm dead_host (err e) = pure tt
  with_job vm dead_host (ok job_id) = do
    marked ← attempt (mark_running w job_id)
    result ← attempt (execute_failover vm dead_host)
    concluded ← attempt (conclude_failover job_id result)
    pure tt

  unfoldable pub failover_vm : Vm → Host F → M F (Unit {0})
  failover_vm vm dead_host = do
    job ← attempt (create_job w JobType.vm_failover vm.id)
    with_job vm dead_host job
