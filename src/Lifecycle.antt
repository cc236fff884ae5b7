-- ===== src/Lifecycle.antt =====
-- The status of a VM: `update_status` and `try_set_committing` of qarax/src/model/vms.rs, the
-- handlers that start, stop, pause and resume a VM (qarax/src/handlers/vm/handler.rs), and the
-- monitor that follows the nodes (qarax/src/vm_monitor.rs).
pub mod Task
pub mod Frame
pub mod Steps
pub mod Start
pub mod Ending
pub mod Outcome
pub mod Parts
pub mod Commit
pub mod Committed
pub mod Restored
pub mod Monitor
pub mod Reported
pub mod Stopping
use qarax.Base.{
  ℕ, ◌+◌, Bool, true, false, not, Option, none, some, List, [], ◌∷◌, ◌++◌, if◌then◌else◌, Text,
  codes, ◌==◌, nat_ord, text_ord, update_where, ◌||◌, ◌&&◌, leb, all, map, Error,
  internal_server_error, unprocessable_entity, not_found, sqlx, conflict, invalid_entity,
  unauthorized, Result, ok, err,
}
use qarax.VmConfig.{Json, get, as_str}
use qarax.Db.{Vm, VmStatus, Host, HostGpu}
use qarax.Hooks.{enqueue_matching, is_empty}
use qarax.Control.{
  Store, World, M, pure, throw, lift, attempt, ◌>>=◌, ◌>>◌, query, execute, call_node, Rpc, Answer,
  done, absent, failure, StartTask, JobType, SandboxStatus, Sandbox, VmStatusEvent, find_vm,
  find_sandbox, get_vm, host_for_vm, create_job, mark_running, mark_completed, mark_failed,
  update_progress, tick,
}

-- `strum`'s snake_case names
unfoldable pub status_name : VmStatus → Text
status_name VmStatus.unknown = codes "unknown"
status_name VmStatus.pending = codes "pending"
status_name VmStatus.created = codes "created"
status_name VmStatus.running = codes "running"
status_name VmStatus.paused = codes "paused"
status_name VmStatus.shutdown = codes "shutdown"
status_name VmStatus.migrating = codes "migrating"
status_name VmStatus.committing = codes "committing"

abbrev pub same_status : VmStatus → VmStatus → Bool
same_status a b = status_name a == status_name b

abbrev pub is_vm : ℕ → Vm → Bool
is_vm id vm = vm.id == id

abbrev pub with_vm_status : VmStatus → Vm → Vm
with_vm_status status vm = record vm { status = status }

abbrev pub set_status : ℕ → VmStatus → List Vm → List Vm
set_status id status = update_where (is_vm id) (with_vm_status status)

-- The match of `start_vm_internal` on the status.
unfoldable pub ensure_startable : VmStatus → Result (Unit {0})
ensure_startable VmStatus.running = err (unprocessable_entity (codes "VM is already running"))
ensure_startable VmStatus.paused =
    err (unprocessable_entity (codes "VM is paused; use POST /vms/{vm_id}/resume instead"))
ensure_startable VmStatus.pending =
    err (unprocessable_entity (codes "VM is pending job completion; wait for the job to finish"))
ensure_startable VmStatus.migrating =
    err (unprocessable_entity (codes "VM is being migrated; wait for migration to finish"))
ensure_startable VmStatus.committing =
    err (unprocessable_entity (codes "VM is being committed; wait for commit to finish"))
ensure_startable VmStatus.created = ok tt
ensure_startable VmStatus.shutdown = ok tt
ensure_startable VmStatus.unknown = ok tt

-- common/src/architecture.rs, on ASCII bytes
abbrev pub is_space : ℕ → Bool
is_space c = (c == 32) || (leb 9 c && leb c 13)

abbrev pub trim_start : Text → Text
trim_start [] = []
trim_start (c ∷ cs) = if is_space c then trim_start cs else c ∷ cs

abbrev pub trim_end : Text → Text
trim_end [] = []
trim_end (c ∷ cs) = if all is_space (c ∷ cs) then [] else c ∷ trim_end cs

abbrev pub to_ascii_lowercase : ℕ → ℕ
to_ascii_lowercase c = if leb 65 c && leb c 90 then c + 32 else c

abbrev pub canonical : Text → Text
canonical lower =
    if lower == codes "amd64"
    then codes "x86_64"
    else if lower == codes "arm64"
    then codes "aarch64"
    else lower

unfoldable pub normalize_architecture : Text → Option Text
normalize_architecture value =
    let trimmed = trim_end (trim_start value) in
    if is_empty trimmed then none else some (canonical (map to_ascii_lowercase trimmed))

abbrev pub and_then {ℓ κ} : {A : Type ℓ} {B : Type κ} → Option A → (A → Option B) → Option B
and_then none f = none
and_then (some a) f = f a

unfoldable pub persisted_vm_architecture : Vm → Option Text
persisted_vm_architecture vm =
    and_then (as_str (get vm.config (codes "architecture"))) normalize_architecture

-- The check that `start_vm_internal` makes where the VM has an architecture.
unfoldable pub ensure_host_matches_architecture :
    {F : Type 0} → Host F → Option Text → Result (Unit {0})
ensure_host_matches_architecture host none = ok tt
ensure_host_matches_architecture host (some architecture) = elim host.architecture [
  | none ↦ ok tt
  | some host_architecture ↦
      if host_architecture == architecture
      then ok tt
      else err (
          unprocessable_entity (
            codes "selected host architecture "
            ++ (host_architecture ++ (codes " does not match VM architecture " ++ architecture))))
]

module _ {F : Type 0} (w : World) where
  abbrev pub emit : Vm → VmStatus → Store F → Store F
  emit vm status s = record s {
    events =
        s.events
        ++ record {
          vm_id = vm.id;
          vm_name = vm.name;
          previous_status = status_name vm.status;
          new_status = status_name status;
          host_id = vm.host_id;
          tags = vm.tags;
        }
          ∷ [];
  }

  abbrev pub enqueue : Vm → VmStatus → Store F → Store F
  enqueue vm status s = record s {
    executions =
        enqueue_matching s.hooks (w.uuid_text vm.id) vm (status_name vm.status) (status_name status)
          (w.now s.calls) (λ n. w.random_id (s.calls + n)) s.executions;
  }

  -- The event and the hooks of a change, which never fail it.
  unfoldable pub report : Result Vm → VmStatus → M F (Unit {0})
  report (err e) status = pure tt
  report (ok vm) status =
      if same_status vm.status status
      then pure tt
      else (λ s. (attempt (execute w (enqueue vm status)) >>= λ r. pure tt) (emit vm status s))

  unfoldable pub update_status : ℕ → VmStatus → M F (Unit {0})
  update_status vm_id status = do
    vm ← attempt (get_vm w vm_id)
    execute w (λ s. record s { vms = set_status vm_id status s.vms })
    report vm status

  -- `Created` starts with a create request.
  unfoldable pub start_setup : ℕ → Vm → M F (Bool × ℕ)
  start_setup vm_id vm = elim (same_status vm.status VmStatus.created) [
    | true ↦ do
      (λ s. (w.can_build_request s.calls, tick s))
      job_id ← create_job w JobType.vm_start vm_id
      pure (true, job_id)
    | false ↦ do job_id ← create_job w JobType.vm_start vm_id; pure (false, job_id)
  ]

  abbrev pub spawn : StartTask → Store F → Store F
  spawn task s = record s { tasks = s.tasks ++ task ∷ [] }

  unfoldable pub finish_start : ℕ → Vm → Host F → Result (Bool × ℕ) → M F ℕ
  finish_start vm_id vm host (err e) = do
    reverted ← attempt (update_status vm_id vm.status)
    throw e
  finish_start vm_id vm host (ok (creates, job_id)) = λ s. (
    ok job_id,
    spawn
        (record {
          vm_id = vm_id;
          job_id = job_id;
          host_id = host.id;
          original_status = vm.status;
          creates = creates;
        })
        s,
  )

  unfoldable pub start_vm_internal : ℕ → M F ℕ
  start_vm_internal vm_id = do
    vm ← get_vm w vm_id
    lift (ensure_startable vm.status)
    host ← host_for_vm w vm_id
    lift (ensure_host_matches_architecture host (persisted_vm_architecture vm))
    (λ s. (w.disks_can_start s.calls, tick s))
    update_status vm_id VmStatus.pending
    setup ← attempt (start_setup vm_id vm)
    finish_start vm_id vm host setup
