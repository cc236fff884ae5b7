-- ===== src/Lifecycle/Task.antt =====
-- The task that `start_vm_internal` spawns, and the handlers `stop`, `force_stop`, `pause` and
-- `resume` of qarax/src/handlers/vm/handler.rs. A `return` from the task is an error that nobody
-- reads. An error's chain of causes is one text.
use qarax.Base.{
  ℕ, Bool, true, false, Option, none, some, ◌++◌, Text, codes, nat_ord, update_where, Error,
  internal_server_error, unprocessable_entity, not_found, sqlx, conflict, invalid_entity,
  unauthorized, Result, ok, err, ◌==◌,
}
use qarax.Db.{Vm, VmStatus, HostGpu}
use qarax.Control.{
  World, M, pure, throw, attempt, ◌>>=◌, ◌>>◌, query, execute, call_node, tick, Rpc, Answer, done,
  absent, failure, StartTask, SandboxStatus, Sandbox, find_sandbox, get_vm, host_for_vm,
  mark_running, mark_completed, mark_failed, update_progress,
}
use qarax.Lifecycle.{update_status}

-- errors.rs: the messages of `Display`
unfoldable pub error_text : Error → Text
error_text sqlx = codes "an internal database error occurred"
error_text invalid_entity = codes "validation error in request body"
error_text (unprocessable_entity message) = message
error_text (conflict message) = message
error_text internal_server_error = codes "internal server error"
error_text not_found = codes "not found"
error_text unauthorized = codes "missing or invalid API token"

-- The reason not to start, if there is one.
unfoldable pub vm_reason : World → Result Vm → Option Text
vm_reason w (ok vm) = none
vm_reason w (err not_found) = some (codes "VM was deleted before start")
vm_reason w (err e) = some (codes "failed to reload VM before start: " ++ w.statement_text e)

unfoldable pub sandbox_reason : World → Result (Option Sandbox) → Option Text
sandbox_reason w (err e) =
    some (codes "failed to reload sandbox before start: " ++ w.statement_text e)
sandbox_reason w (ok none) = none
sandbox_reason w (ok (some sandbox)) = elim sandbox.status [
  | SandboxStatus.destroying ↦
      some (codes "sandbox " ++ (w.uuid_text sandbox.id ++ codes " is being deleted"))
  | _ ↦ none
]

unfoldable pub disk_reason : Result (Unit {0}) → Option Text
disk_reason (ok checked) = none
disk_reason (err e) = some (error_text e)

abbrev stop_on : {F : Type 0} → Option Text → M F (Option Text) → M F (Option Text)
stop_on none next = next
stop_on (some reason) next = pure (some reason)

abbrev pub is_held_by : ℕ → Option ℕ → Bool
is_held_by vm_id none = false
is_held_by vm_id (some id) = id == vm_id

module _ {F : Type 0} (w : World) where
  unfoldable pub ensure_vm_start_allowed : ℕ → M F (Option Text)
  ensure_vm_start_allowed vm_id = do
    vm ← attempt (get_vm w vm_id)
    stop_on (vm_reason w vm) (do
      sandbox ← attempt (query w (λ s. find_sandbox vm_id s.sandboxes))
      stop_on (sandbox_reason w sandbox)
          (do disks ← attempt (λ s. (w.disks_can_start s.calls, tick s)); pure (disk_reason disks)))

  -- `mark_failed`, and the return.
  abbrev pub give_up : StartTask → Text → M F (Unit {0})
  give_up task message = do
    marked ← attempt (mark_failed w task.job_id message)
    throw internal_server_error

  -- The same, with the status put back.
  abbrev pub restore : StartTask → Text → M F (Unit {0})
  restore task message = do
    marked ← attempt (mark_failed w task.job_id message)
    reverted ← attempt (update_status w task.vm_id task.original_status)
    throw internal_server_error

  abbrev pub unless : Option Text → (Text → M F (Unit {0})) → M F (Unit {0})
  unless none otherwise = pure tt
  unless (some message) otherwise = otherwise message

  abbrev pub on_error : Answer → (Text → M F (Unit {0})) → M F (Unit {0})
  on_error done otherwise = pure tt
  on_error absent otherwise = otherwise (codes "not found")
  on_error (failure message) otherwise = otherwise message

  abbrev pub withdraw : StartTask → Text → M F (Unit {0})
  withdraw task message = do
    marked ← attempt (mark_failed w task.job_id message)
    deleted ← call_node w task.host_id (Rpc.delete_vm task.vm_id)
    reverted ← attempt (update_status w task.vm_id task.original_status)
    throw internal_server_error

  unfoldable pub create_on_node : Bool → StartTask → M F (Unit {0})
  create_on_node false task = pure tt
  create_on_node true task = do
    created ← call_node w task.host_id (Rpc.create_vm task.vm_id)
    on_error created (λ m. restore task (codes "create_vm failed: " ++ m))
    reason ← ensure_vm_start_allowed task.vm_id
    unless reason (withdraw task)
    progress ← attempt (update_progress w task.job_id 50)
    pure tt

  -- The firewall rules are withdrawn by stopping the VM.
  unfoldable pub sync_firewall : StartTask → M F (Unit {0})
  sync_firewall task = do
    synced ← call_node w task.host_id (Rpc.sync_firewall task.vm_id)
    on_error synced (λ m. do
      stopped ← call_node w task.host_id (Rpc.force_stop_vm task.vm_id)
      restore task (codes "sync_vm_firewall failed: " ++ m))

  unfoldable pub start_body : StartTask → M F (Unit {0})
  start_body task = do
    mark_running w task.job_id
    first ← ensure_vm_start_allowed task.vm_id
    unless first (give_up task)
    create_on_node task.creates task
    second ← ensure_vm_start_allowed task.vm_id
    unless second (restore task)
    started ← call_node w task.host_id (Rpc.start_vm task.vm_id)
    on_error started (λ m. restore task (codes "start_vm failed: " ++ m))
    sync_firewall task
    running ← attempt (update_status w task.vm_id VmStatus.running)
    completed ← attempt (mark_completed w task.job_id)
    pure tt

  -- host_gpus.rs
  unfoldable pub deallocate_by_vm : ℕ → M F (Unit {0})
  deallocate_by_vm vm_id = execute w (λ s. record s {
    host_gpus =
        update_where (λ g. is_held_by vm_id g.vm_id) (λ (g : HostGpu). record g { vm_id = none })
          s.host_gpus;
  })

  abbrev pub acknowledged : Answer → M F (Unit {0})
  acknowledged done = pure tt
  acknowledged absent = pure tt
  acknowledged (failure message) = throw internal_server_error

  abbrev worked : Answer → M F (Unit {0})
  worked done = pure tt
  worked absent = throw internal_server_error
  worked (failure message) = throw internal_server_error

  unfoldable pub shut_down : (ℕ → Rpc) → ℕ → M F (Unit {0})
  shut_down rpc vm_id = do
    host ← host_for_vm w vm_id
    answer ← call_node w host.id (rpc vm_id)
    acknowledged answer
    update_status w vm_id VmStatus.shutdown
    released ← attempt (deallocate_by_vm vm_id)
    pure tt

  unfoldable pub stop : ℕ → M F (Unit {0})
  stop = shut_down Rpc.stop_vm

  unfoldable pub force_stop : ℕ → M F (Unit {0})
  force_stop = shut_down Rpc.force_stop_vm

  unfoldable pub pause : ℕ → M F (Unit {0})
  pause vm_id = do
    host ← host_for_vm w vm_id
    answer ← call_node w host.id (Rpc.pause_vm vm_id)
    worked answer
    update_status w vm_id VmStatus.paused

  unfoldable pub resume : ℕ → M F (Unit {0})
  resume vm_id = do
    host ← host_for_vm w vm_id
    answer ← call_node w host.id (Rpc.resume_vm vm_id)
    worked answer
    update_status w vm_id VmStatus.running
