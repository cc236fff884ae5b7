-- ===== src/Control.antt =====
-- The control plane's handlers as programs over the database: each call of the database or of a node
-- is numbered, and the world says how the call with that number ends. A handler runs without another
-- handler's writes in between. The tables are those that the handlers of a VM's status write.
pub mod Rules
pub mod Reads
use qarax.Base.{
  ℕ, ◌+◌, Bool, Option, none, some, List, [], ◌∷◌, ◌++◌, if◌then◌else◌, Text, codes, ◌==◌, nat_ord,
  update_where, Error, sqlx, not_found, unprocessable_entity, Result, ok, err,
}
use qarax.Db.{Vm, VmStatus, Host, HostGpu}
use qarax.Hooks.{LifecycleHook, HookExecution}

pub data JobType : Type 0 where
  image_pull sandbox_claim vm_start vm_migrate vm_failover host_evacuate disk_create vm_commit :
      JobType

pub data JobStatus : Type 0 where
  pending running completed failed : JobStatus

pub record Job : Type 0 where
  pub id : ℕ
  pub job_type : JobType
  pub status : JobStatus
  pub resource_id : Option ℕ
  pub progress : Option ℕ
  pub error : Option Text

pub data SandboxStatus : Type 0 where
  provisioning ready error destroying : SandboxStatus

pub record Sandbox : Type 0 where
  pub id : ℕ
  pub vm_id : ℕ
  pub status : SandboxStatus

-- model/events.rs
pub record VmStatusEvent : Type 0 where
  pub vm_id : ℕ
  pub vm_name : Text
  pub previous_status : Text
  pub new_status : Text
  pub host_id : Option ℕ
  pub tags : List Text

-- The calls of qarax/src/grpc_client.rs that change a VM on a node.
pub data Rpc : Type 0 where
  create_vm start_vm stop_vm force_stop_vm delete_vm pause_vm resume_vm sync_firewall : ℕ → Rpc
  receive_migration send_migration : ℕ → Rpc

-- An error that is `Error::NotFound` stands apart.
pub data Answer : Type 0 where
  done absent : Answer
  failure : Text → Answer

-- The background task that `start_vm_internal` spawns.
pub record StartTask : Type 0 where
  pub vm_id : ℕ
  pub job_id : ℕ
  pub host_id : ℕ
  pub original_status : VmStatus
  pub creates : Bool

pub record Store (F : Type 0) : Type 0 where
  pub vms : List Vm
  pub hosts : List (Host F)
  pub host_gpus : List HostGpu
  pub sandboxes : List Sandbox
  pub jobs : List Job
  pub hooks : List LifecycleHook
  pub executions : List HookExecution
  pub events : List VmStatusEvent
  pub tasks : List StartTask
  pub calls : ℕ

-- How the n-th call ends, with the time and a random identifier; the checks of a VM's disks and the
-- building of a create request only read.
pub record World : Type 0 where
  pub db_answers : ℕ → Bool
  pub node : ℕ → ℕ → Rpc → Answer
  pub disks_can_start : ℕ → Result (Unit {0})
  pub can_build_request : ℕ → Result (Unit {0})
  pub now : ℕ → ℕ
  pub random_id : ℕ → ℕ
  pub uuid_text : ℕ → Text
  -- How `sqlx` prints the error of a statement.
  pub statement_text : Error → Text

abbrev pub M : Type 0 → Type 0 → Type 0
M F A = Store F → Result A × Store F

module _ {F A : Type 0} where
  abbrev pub pure : A → M F A
  pure a s = (ok a, s)

  abbrev pub throw : Error → M F A
  throw e s = (err e, s)

  abbrev pub lift : Result A → M F A
  lift r s = (r, s)

  -- `let _ = …` and `match … { Ok(…) => …, Err(…) => … }`
  abbrev pub attempt : M F A → M F (Result A)
  attempt m s = let (r, s') = m s in (ok r, s')

infixl 5 ◌>>=◌
infixl 5 ◌>>◌
abbrev pub after : {F A B : Type 0} → (A → M F B) → Result A × Store F → Result B × Store F
after next (ok a, s) = next a s
after next (err e, s) = (err e, s)

abbrev pub ◌>>=◌ : {F A B : Type 0} → M F A → (A → M F B) → M F B
◌>>=◌ m next s = after next (m s)

abbrev pub ◌>>◌ : {F B : Type 0} → M F (Unit {0}) → M F B → M F B
m >> next = m >>= λ ignored. next

abbrev pub tick : {F : Type 0} → Store F → Store F
tick s = record s { calls = s.calls + 1 }

module _ {F : Type 0} (w : World) where
  -- A statement that reads, and one that writes.
  unfoldable pub query : {A : Type 0} → (Store F → A) → M F A
  query read s = if w.db_answers s.calls then (ok (read s), tick s) else (err sqlx, tick s)

  unfoldable pub execute : (Store F → Store F) → M F (Unit {0})
  execute write s = if w.db_answers s.calls then (ok tt, tick (write s)) else (err sqlx, tick s)

  unfoldable pub call_node : ℕ → Rpc → M F Answer
  call_node host_id rpc s = (ok (w.node s.calls host_id rpc), tick s)

-- `fetch_one` and `fetch_optional` by identifier
unfoldable pub find_vm : ℕ → List Vm → Option Vm
find_vm id [] = none
find_vm id (vm ∷ vms) = if vm.id == id then some vm else find_vm id vms

unfoldable pub find_host : {F : Type 0} → ℕ → List (Host F) → Option (Host F)
find_host id [] = none
find_host id (h ∷ hosts) = if h.id == id then some h else find_host id hosts

unfoldable pub find_sandbox : ℕ → List Sandbox → Option Sandbox
find_sandbox vm_id [] = none
find_sandbox vm_id (b ∷ sandboxes) =
    if b.vm_id == vm_id then some b else find_sandbox vm_id sandboxes

abbrev pub some_or : {F A : Type 0} → Option A → Error → M F A
some_or (some a) e = pure a
some_or none e = throw e

-- model/jobs.rs
abbrev pub is_job : ℕ → Job → Bool
is_job id job = job.id == id

abbrev pub new_job : ℕ → JobType → ℕ → Job
new_job id job_type resource_id = record {
  id = id;
  job_type = job_type;
  status = JobStatus.pending;
  resource_id = some resource_id;
  progress = none;
  error = none;
}

module _ {F : Type 0} (w : World) where
  -- One transaction.
  unfoldable pub create_job : JobType → ℕ → M F ℕ
  create_job job_type resource_id s =
      let id = w.random_id s.calls in
      (execute w (λ s. record s { jobs = s.jobs ++ new_job id job_type resource_id ∷ [] })
          >> pure id)
        s

  unfoldable pub mark_running : ℕ → M F (Unit {0})
  mark_running id = execute w (λ s. record s {
    jobs = update_where (is_job id) (λ j. record j { status = JobStatus.running }) s.jobs;
  })

  unfoldable pub mark_completed : ℕ → M F (Unit {0})
  mark_completed id = execute w (λ s. record s {
    jobs =
        update_where (is_job id)
          (λ j. record j { status = JobStatus.completed; progress = some 100 }) s.jobs;
  })

  unfoldable pub mark_failed : ℕ → Text → M F (Unit {0})
  mark_failed id message = execute w (λ s. record s {
    jobs =
        update_where (is_job id) (λ j. record j { status = JobStatus.failed; error = some message })
          s.jobs;
  })

  unfoldable pub update_progress : ℕ → ℕ → M F (Unit {0})
  update_progress id progress = execute w (λ s. record s {
    jobs = update_where (is_job id) (λ j. record j { progress = some progress }) s.jobs;
  })

  -- `vms::get`, which answers `NotFound` for a missing row.
  unfoldable pub get_vm : ℕ → M F Vm
  get_vm id = do found ← query w (λ s. find_vm id s.vms); some_or found not_found

  unfoldable pub host_for_vm : ℕ → M F (Host F)
  host_for_vm vm_id = do
    vm ← get_vm vm_id
    host_id ← some_or vm.host_id (unprocessable_entity (codes "VM has no assigned host"))
    found ← query w (λ s. find_host host_id s.hosts)
    some_or found (unprocessable_entity (codes "assigned host not found"))
