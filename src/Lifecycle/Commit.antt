-- ===== src/Lifecycle/Commit.antt =====
-- The commit of a VM's image to a disk: `try_set_committing` of qarax/src/model/vms.rs, and `commit`
-- and `run_vm_commit` of qarax/src/handlers/vm/handler.rs. The lookup of the image's disk and the work
-- of `run_vm_commit_inner` are parameters, numbered by the call at which they begin.
use qarax.Base.{
  ℕ, Bool, true, false, ◌&&◌, Option, none, some, List, [], ◌∷◌, any, if◌then◌else◌, codes, ◌++◌,
  ◌==◌, nat_ord, update_where, Text, Error, internal_server_error, unprocessable_entity, not_found,
  sqlx, Result, ok, err,
}
use qarax.Db.{Vm, VmStatus, Host}
use qarax.Control.{
  Store, World, M, pure, throw, attempt, ◌>>=◌, ◌>>◌, query, tick, get_vm, host_for_vm, create_job,
  some_or, mark_running, mark_completed, mark_failed, JobType,
}
use qarax.Lifecycle.{update_status, is_vm, with_vm_status}
use qarax.Lifecycle.Task.{error_text}

-- storage_pools.rs
pub data StoragePoolType : Type 0 where
  local nfs overlay_bd block : StoragePoolType

pub data StoragePoolStatus : Type 0 where
  active inactive error : StoragePoolStatus

pub record StoragePool : Type 0 where
  pub id : ℕ
  pub name : Text
  pub pool_type : StoragePoolType
  pub status : StoragePoolStatus

-- The tables of the pools and of the hosts that they are attached to, which a commit only reads.
pub record Pools : Type 0 where
  pub pools : List StoragePool
  pub host_storage_pools : List (ℕ × ℕ)
  pub find_oci_disk : ℕ → Result (Unit {0})
  pub commit_inner : ℕ → Result (Unit {0})

pub record CommitTask : Type 0 where
  pub vm_id : ℕ
  pub job_id : ℕ
  pub host_id : ℕ
  pub previous_status : VmStatus

unfoldable pub find_pool : ℕ → List StoragePool → Option StoragePool
find_pool id [] = none
find_pool id (p ∷ pools) = if p.id == id then some p else find_pool id pools

unfoldable pub committable : VmStatus → Bool
committable VmStatus.created = true
committable VmStatus.shutdown = true
committable _ = false

abbrev pub can_commit : ℕ → Vm → Bool
can_commit vm_id vm = is_vm vm_id vm && committable vm.status

abbrev pub set_committing : ℕ → List Vm → List Vm
set_committing vm_id = update_where (can_commit vm_id) (with_vm_status VmStatus.committing)

abbrev pub is_some {ℓ} : {A : Type ℓ} → Option A → Bool
is_some none = false
is_some (some a) = true

unfoldable pub ensure_target_type : StoragePoolType → Bool
ensure_target_type StoragePoolType.local = true
ensure_target_type StoragePoolType.nfs = true
ensure_target_type _ = false

unfoldable pub is_active_pool : StoragePoolStatus → Bool
is_active_pool StoragePoolStatus.active = true
is_active_pool _ = false

unfoldable pub require : {F : Type 0} → Bool → Error → M F (Unit {0})
require true e = pure tt
require false e = throw e

-- Its bytes.
abbrev em_dash : Text
em_dash = 226 ∷ 128 ∷ 148 ∷ []

-- `.map_err(…)`
abbrev pub internal : {F A : Type 0} → Result A × Store F → Result A × Store F
internal (ok a, t) = (ok a, t)
internal (err e, t) = (err internal_server_error, t)

abbrev pub or_internal : {F A : Type 0} → M F A → M F A
or_internal m s = internal (m s)

module _ {F : Type 0} (w : World) (db : Pools) where
  -- `UPDATE … WHERE id = $1 AND status IN ('CREATED', 'SHUTDOWN')`, and whether it changed a row.
  unfoldable pub try_set_committing : ℕ → M F Bool
  try_set_committing vm_id s =
      if w.db_answers s.calls
      then (ok (any (can_commit vm_id) s.vms), tick (record s { vms = set_committing vm_id s.vms }))
      else (err sqlx, tick s)

  -- The checks after the status has been set.
  unfoldable pub validate : ℕ → ℕ → M F (Host F)
  validate vm_id storage_pool_id = do
    host ← host_for_vm w vm_id
    (λ s. (db.find_oci_disk s.calls, tick s))
    found ← or_internal (query w (λ s. find_pool storage_pool_id db.pools))
    pool ← some_or found not_found
    require (ensure_target_type pool.pool_type)
        (unprocessable_entity (codes "target storage pool must be Local or NFS"))
    require (is_active_pool pool.status)
        (unprocessable_entity (codes "target storage pool is not active"))
    attached ←
        or_internal
          (query w (λ s. any (λ r. (r.0 == host.id) && (r.1 == pool.id)) db.host_storage_pools))
    require attached (
        unprocessable_entity (
          codes "target storage pool "
          ++ (w.uuid_text storage_pool_id ++ codes " is not attached to the VM's host")))
    pure host

  unfoldable pub accept : Vm → ℕ → ℕ → M F CommitTask
  accept vm vm_id storage_pool_id = do
    host ← validate vm_id storage_pool_id
    job_id ← create_job w JobType.vm_commit vm_id
    pure (record { vm_id = vm_id; job_id = job_id; host_id = host.id; previous_status = vm.status })

  unfoldable pub commit : ℕ → ℕ → M F CommitTask
  commit vm_id storage_pool_id = do
    vm ← get_vm w vm_id
    require (is_some vm.image_ref) (
        unprocessable_entity (
          codes "VM has no image_ref "
          ++ (em_dash ++ codes " only OCI image-based VMs can be committed")))
    transitioned ← try_set_committing vm_id
    require transitioned
        (unprocessable_entity (codes "VM must be stopped (Created or Shutdown) to commit"))
    accept vm vm_id storage_pool_id

  unfoldable pub conclude : CommitTask → Result (Unit {0}) → M F (Unit {0})
  conclude task (ok produced) = mark_completed w task.job_id
  conclude task (err e) = mark_failed w task.job_id (error_text e)

  unfoldable pub work : CommitTask → Result (Unit {0}) → M F (Unit {0})
  work task (err e) = pure tt
  work task (ok marked) = do
    result ← attempt (λ s. (db.commit_inner s.calls, tick s))
    concluded ← attempt (conclude task result)
    pure tt

  -- `previous_status` is restored in the end, and where the task cannot begin.
  unfoldable pub run_vm_commit : CommitTask → M F (Unit {0})
  run_vm_commit task = do
    marked ← attempt (mark_running w task.job_id)
    work task marked
    restored ← attempt (update_status w task.vm_id task.previous_status)
    pure tt
