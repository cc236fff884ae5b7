-- ===== src/Evacuation.antt =====
-- The evacuation of a host: `evacuate`, its task and `fail_host_evacuation` of
-- qarax/src/handlers/host/handler.rs. The names in the job's result are not kept.
pub mod Steps
pub mod Single
pub mod Course
pub mod Outcome
use qarax.Base.{
  ℕ, zero, suc, ◌+◌, ◌*◌, ◌/◌, Bool, true, false, not, Option, none, some, List, [], ◌∷◌, ◌++◌,
  filter, map, length, Text, codes, ◌==◌, nat_ord, to_string, update_where, guard, Error,
  unprocessable_entity, Result, ok, err,
}
use qarax.Db.{Vm, VmStatus, Host, HostStatus}
use qarax.Schedule.{Double, SchedulingRequest}
use qarax.Relocate.{pick_evacuation_plan, quote}
use qarax.Control.{
  Store, World, M, pure, lift, attempt, ◌>>=◌, ◌>>◌, query, execute, tick, get_vm, create_job,
  mark_running, mark_completed, mark_failed, update_progress, JobType,
}
use qarax.Lifecycle.{update_status, status_name}
use qarax.Lifecycle.Task.{error_text}
use qarax.Failover.{Inventory, round_at, ended, request_of}
use qarax.Failover.Cycle.{list_by_host}
use qarax.Migration.{
  PlannedVmMigration, plan_vm_migration, execute_planned_vm_migration, require_by_id, is_migratable,
  is_nil,
}

unfoldable pub host_status_name : HostStatus → Text
host_status_name HostStatus.unknown = codes "unknown"
host_status_name HostStatus.down = codes "down"
host_status_name HostStatus.installing = codes "installing"
host_status_name HostStatus.installation_failed = codes "installation_failed"
host_status_name HostStatus.initializing = codes "initializing"
host_status_name HostStatus.maintenance = codes "maintenance"
host_status_name HostStatus.up = codes "up"

unfoldable pub can_evacuate : HostStatus → Bool
can_evacuate HostStatus.up = true
can_evacuate HostStatus.maintenance = true
can_evacuate _ = false

-- `join(", ")`
unfoldable pub join : Text → List Text → Text
join separator [] = []
join separator (part ∷ []) = part
join separator (part ∷ next ∷ parts) = part ++ (separator ++ join separator (next ∷ parts))

abbrev pub not_evacuatable : {F : Type 0} → Host F → Error
not_evacuatable host = unprocessable_entity (
    codes "host "
    ++ (host.name
        ++ (codes " must be up or maintenance to evacuate (current status: "
            ++ (host_status_name host.status ++ codes ")"))))

abbrev pub described : Vm → Text
described vm = vm.name ++ (codes " (" ++ (status_name vm.status ++ codes ")"))

abbrev pub unsupported : List Vm → List Vm
unsupported = filter (λ vm. not (is_migratable vm.status))

abbrev pub incompatible : List Vm → Error
incompatible residents = unprocessable_entity (
    codes "host evacuation currently supports only running or paused VMs; incompatible residents: "
    ++ join (codes ", ") (map described (unsupported residents)))

pub record EvacuationTask : Type 0 where
  pub job_id : ℕ
  pub host_id : ℕ
  pub original_host_status : HostStatus
  pub resident_vm_ids : List ℕ

abbrev pub with_host_status : {F : Type 0} → HostStatus → Host F → Host F
with_host_status status host = record host { status = status }

abbrev pub set_host_status : {F : Type 0} → ℕ → HostStatus → List (Host F) → List (Host F)
set_host_status id status = update_where (λ (h : Host _). h.id == id) (with_host_status status)

-- How one VM fares.
pub data Fate : Type 0 where
  evacuated : Text → Fate
  failed : Text → Fate

-- What is appended to the message.
unfoldable pub closing : World → EvacuationTask → Result (Unit {0}) → Text
closing w task (ok restored) =
    codes "; host status restored to " ++ host_status_name task.original_host_status
closing w task (err e) =
    codes "; failed to restore host status to "
    ++ (host_status_name task.original_host_status ++ (codes ": " ++ w.statement_text e))

module _ {F : Type 0} (w : World) where
  unfoldable pub update_host_status : ℕ → HostStatus → M F (Unit {0})
  update_host_status id status =
      execute w (λ s. record s { hosts = set_host_status id status s.hosts })

  unfoldable pub settle_host : EvacuationTask → List Text → M F Text
  settle_host task [] = do
    restored ← attempt (update_host_status task.host_id task.original_host_status)
    pure (closing w task restored)
  settle_host task (name ∷ names) = pure (
      codes "; host left in maintenance after evacuating "
      ++ (to_string (length (name ∷ names)) ++ codes " VM(s)"))

  unfoldable pub note_failure : EvacuationTask → Text → M F (Unit {0})
  note_failure task message = do
    remaining ← attempt (query w (λ s. list_by_host task.host_id s.vms))
    marked ← attempt (mark_failed w task.job_id message)
    pure tt

  unfoldable pub fail_host_evacuation : EvacuationTask → List Text → Text → M F (Unit {0})
  fail_host_evacuation task evacuated_vm_names error = do
    more ← settle_host task evacuated_vm_names
    note_failure task (error ++ more)

module _ (d : Double) (inv : Inventory d.F) (w : World) where
  open d use {F}

  -- The planning of a candidate begins at the call that the inventory names.
  unfoldable pub evacuation_search :
      SchedulingRequest → Vm → Store F → Option (Result (PlannedVmMigration F))
  evacuation_search request vm s =
      pick_evacuation_plan d (round_at d inv s) inv.scheduling
        (λ round host_id.
          (plan_vm_migration w inv vm.id host_id
            (record s { calls = inv.planning_calls s.calls round })).0)
        request vm.name (suc (length s.hosts))

  unfoldable pub plan_evacuation : Vm → ℕ → M F (PlannedVmMigration F)
  plan_evacuation vm source_host_id = do
    request ← request_of d inv w vm source_host_id none
    (λ s. (ended (evacuation_search request vm s), tick s))

  unfoldable pub plan_each : ℕ → List Vm → M F (Unit {0})
  plan_each host_id [] = pure tt
  plan_each host_id (vm ∷ vms) = do plan ← plan_evacuation vm host_id; plan_each host_id vms

  unfoldable pub evacuate : ℕ → M F EvacuationTask
  evacuate host_id = do
    host ← require_by_id w inv host_id
    lift (guard (can_evacuate host.status) (not_evacuatable host))
    residents ← query w (λ s. list_by_host host_id s.vms)
    lift (guard (is_nil (unsupported residents)) (incompatible residents))
    plan_each host_id residents
    update_host_status w host_id HostStatus.maintenance
    job_id ← create_job w JobType.host_evacuate host_id
    pure (record {
      job_id = job_id;
      host_id = host_id;
      original_host_status = host.status;
      resident_vm_ids = map (λ (vm : Vm). vm.id) residents;
    })

  unfoldable pub with_outcome : ℕ → Vm → PlannedVmMigration F → Option Text → M F Fate
  with_outcome vm_id vm plan none = pure (evacuated vm.name)
  with_outcome vm_id vm plan (some message) = do
    reverted ← attempt (update_status w vm_id plan.original_status)
    pure (failed message)

  unfoldable pub with_status : ℕ → Vm → PlannedVmMigration F → Result (Unit {0}) → M F Fate
  with_status vm_id vm plan (err e) = pure (
      failed (
        codes "failed to mark VM "
        ++ (quote vm.name ++ (codes " migrating: " ++ w.statement_text e))))
  with_status vm_id vm plan (ok set) = do
    outcome ← execute_planned_vm_migration w plan none
    with_outcome vm_id vm plan outcome

  unfoldable pub with_plan : ℕ → Vm → Result (PlannedVmMigration F) → M F Fate
  with_plan vm_id vm (err e) = pure (
      failed (
        codes "failed to plan evacuation for VM "
        ++ (quote vm.name ++ (codes ": " ++ error_text e))))
  with_plan vm_id vm (ok plan) = do
    set ← attempt (update_status w vm_id VmStatus.migrating)
    with_status vm_id vm plan set

  unfoldable pub with_vm : EvacuationTask → ℕ → Result Vm → M F Fate
  with_vm task vm_id (err e) = pure (
      failed (
        codes "failed to load resident VM "
        ++ (inv.uuid.to_string vm_id ++ (codes ": " ++ w.statement_text e))))
  with_vm task vm_id (ok vm) = do
    plan ← attempt (plan_evacuation vm task.host_id)
    with_plan vm_id vm plan

  unfoldable pub evacuate_vm : EvacuationTask → ℕ → M F Fate
  evacuate_vm task vm_id = do vm ← attempt (get_vm w vm_id); with_vm task vm_id vm

  -- `total` VMs, of which those with the names have been evacuated.
  unfoldable pub evacuate_each : EvacuationTask → ℕ → List Text → List ℕ → M F (Unit {0})
  evacuate_each task total names [] = do completed ← attempt (mark_completed w task.job_id); pure tt
  evacuate_each task total names (vm_id ∷ vm_ids) = do
    fate ← evacuate_vm task vm_id
    elim fate [
      | failed message ↦ fail_host_evacuation w task names message
      | evacuated name ↦ do
        progress ← attempt (update_progress w task.job_id (suc (length names) * 100 / total))
        evacuate_each task total (names ++ name ∷ []) vm_ids
    ]

  unfoldable pub at_least_one : ℕ → ℕ
  at_least_one zero = 1
  at_least_one (suc n) = suc n

  unfoldable pub begun : EvacuationTask → Result (Unit {0}) → M F (Unit {0})
  begun task (err e) =
      fail_host_evacuation w task []
        (codes "failed to start host evacuation job: " ++ w.statement_text e)
  begun task (ok marked) =
      evacuate_each task (at_least_one (length task.resident_vm_ids)) [] task.resident_vm_ids

  unfoldable pub run_evacuation : EvacuationTask → M F (Unit {0})
  run_evacuation task = do marked ← attempt (mark_running w task.job_id); begun task marked
