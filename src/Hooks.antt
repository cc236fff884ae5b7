-- ===== src/Hooks.antt =====
-- qarax/src/model/lifecycle_hooks.rs: webhooks on a VM's status changes, and the queue of their
-- executions. The queue is the table `hook_executions`, whose defaults are those of
-- migrations/00000000000000_initial.sql. Times are numbers of seconds.
pub mod Executor
pub mod Matching
pub mod Claim
pub mod Delivery
pub mod Posts
pub mod Attempts
pub mod Backoff
use qarax.Base.{
  ℕ, ◌+◌, Bool, true, false, ◌&&◌, ◌||◌, not, Option, none, some, List, [], ◌∷◌, ◌++◌, map, filter,
  if◌then◌else◌, leb, compare, Ordering, Text, ◌==◌, nat_ord, text_ord, take, sort_by, update_where,
}
use qarax.Db.{Vm}
use qarax.Schedule.{elem, if_some}

pub data HookScope : Type 0 where
  global vm tag : HookScope

pub data HookExecutionStatus : Type 0 where
  pending processing delivered failed : HookExecutionStatus

pub record LifecycleHook : Type 0 where
  pub id : ℕ
  pub url : Text
  pub secret : Option Text
  pub scope : HookScope
  pub scope_value : Option Text
  pub events : List Text
  pub active : Bool

-- The JSON document of `build_payload`, whose "event" is always "vm.status_changed".
pub record Payload : Type 0 where
  pub timestamp : ℕ
  pub vm_id : ℕ
  pub vm_name : Text
  pub previous_status : Text
  pub new_status : Text
  pub host_id : Option ℕ
  pub tags : List Text

pub record HookExecution : Type 0 where
  pub id : ℕ
  pub hook_id : ℕ
  pub vm_id : ℕ
  pub previous_status : Text
  pub new_status : Text
  pub status : HookExecutionStatus
  pub attempt_count : ℕ
  pub max_attempts : ℕ
  pub next_retry_at : ℕ
  pub payload : Payload
  pub response_status : Option ℕ
  pub response_body : Option Text
  pub last_error : Option Text
  pub created_at : ℕ
  pub delivered_at : Option ℕ

unfoldable pub build_payload : Vm → Text → Text → ℕ → Payload
build_payload machine previous_status new_status now = record {
  timestamp = now;
  vm_id = machine.id;
  vm_name = machine.name;
  previous_status = previous_status;
  new_status = new_status;
  host_id = machine.host_id;
  tags = machine.tags;
}

abbrev pub is_empty {ℓ} : {A : Type ℓ} → List A → Bool
is_empty [] = true
is_empty (x ∷ xs) = false

-- The conditions of the query in `enqueue_matching`. `vm_id` is the identifier's text.
unfoldable pub scope_matches : Text → Vm → HookScope → Option Text → Bool
scope_matches vm_id machine HookScope.global scope_value = true
scope_matches vm_id machine HookScope.vm scope_value = if_some (λ v. v == vm_id) scope_value
scope_matches vm_id machine HookScope.tag scope_value =
    if_some (λ v. elem v machine.tags) scope_value

unfoldable pub hook_matches : Text → Vm → Text → LifecycleHook → Bool
hook_matches vm_id machine new_status hook =
    hook.active
    && (scope_matches vm_id machine hook.scope hook.scope_value
        && (is_empty hook.events || elem new_status hook.events))

-- A row with the table's defaults. `fresh` gives the random identifier of the n-th new row.
unfoldable pub new_execution : Vm → Text → Text → Payload → ℕ → ℕ → ℕ → HookExecution
new_execution machine previous_status new_status payload now id hook_id = record {
  id = id;
  hook_id = hook_id;
  vm_id = machine.id;
  previous_status = previous_status;
  new_status = new_status;
  status = HookExecutionStatus.pending;
  attempt_count = 0;
  max_attempts = 5;
  next_retry_at = now;
  payload = payload;
  response_status = none;
  response_body = none;
  last_error = none;
  created_at = now;
  delivered_at = none;
}

unfoldable pub new_rows :
    (ℕ → ℕ → HookExecution) → (ℕ → ℕ) → ℕ → List LifecycleHook → List HookExecution
new_rows row fresh n [] = []
new_rows row fresh n (hook ∷ hooks) = row (fresh n) hook.id ∷ new_rows row fresh (n + 1) hooks

unfoldable pub enqueue_matching :
    List LifecycleHook
    → Text
    → Vm
    → Text
    → Text
    → ℕ
    → (ℕ → ℕ)
    → List HookExecution
    → List HookExecution
enqueue_matching hooks vm_id machine previous_status new_status now fresh executions =
    let payload = build_payload machine previous_status new_status now in
    executions
    ++ new_rows (new_execution machine previous_status new_status payload now) fresh 0
        (filter (hook_matches vm_id machine new_status) hooks)

abbrev pub is_pending : HookExecutionStatus → Bool
is_pending HookExecutionStatus.pending = true
is_pending _ = false

abbrev pub is_processing : HookExecutionStatus → Bool
is_processing HookExecutionStatus.processing = true
is_processing _ = false

abbrev pub with_status : HookExecutionStatus → HookExecution → HookExecution
with_status status e = record e { status = status }

unfoldable pub claimable : ℕ → (ℕ → Bool) → HookExecution → Bool
claimable now locked e = is_pending e.status && (leb e.next_retry_at now && not (locked e.id))

abbrev pub by_retry : HookExecution → HookExecution → Ordering
by_retry a b = compare a.next_retry_at b.next_retry_at

-- The subselect: `ORDER BY next_retry_at LIMIT limit FOR UPDATE SKIP LOCKED`. Rows that are due at
-- the same time stand in the table's order.
unfoldable pub selected : ℕ → (ℕ → Bool) → ℕ → List HookExecution → List HookExecution
selected now locked limit executions =
    take limit (sort_by by_retry (filter (claimable now locked) executions))

abbrev pub has_id : ℕ → HookExecution → Bool
has_id id e = id == e.id

abbrev pub is_selected : List HookExecution → HookExecution → Bool
is_selected rows e = elem e.id (map (λ (r : HookExecution). r.id) rows)

-- The table after the update, and the rows that it returns.
unfoldable pub claim_pending_executions :
    ℕ → (ℕ → Bool) → ℕ → List HookExecution → List HookExecution × List HookExecution
claim_pending_executions now locked limit executions =
    let rows = selected now locked limit executions in
    let updated =
      update_where (is_selected rows) (with_status HookExecutionStatus.processing) executions in
    (updated, filter (is_selected rows) updated)

unfoldable pub reset_processing_to_pending : List HookExecution → List HookExecution
reset_processing_to_pending =
    update_where (λ e. is_processing e.status) (with_status HookExecutionStatus.pending)

abbrev pub delivered_row : ℕ → Option Text → ℕ → HookExecution → HookExecution
delivered_row response_status response_body now e = record e {
  status = HookExecutionStatus.delivered;
  attempt_count = e.attempt_count + 1;
  response_status = some response_status;
  response_body = response_body;
  delivered_at = some now;
}

abbrev pub retry_row : Text → ℕ → HookExecution → HookExecution
retry_row error next_retry_at e = record e {
  status = HookExecutionStatus.pending;
  attempt_count = e.attempt_count + 1;
  last_error = some error;
  next_retry_at = next_retry_at;
}

abbrev pub failed_row : Text → HookExecution → HookExecution
failed_row error e = record e {
  status = HookExecutionStatus.failed;
  last_error = some error;
  attempt_count = e.attempt_count + 1;
}

unfoldable pub mark_delivered : ℕ → ℕ → Option Text → ℕ → List HookExecution → List HookExecution
mark_delivered id response_status response_body now =
    update_where (has_id id) (delivered_row response_status response_body now)

unfoldable pub mark_retry : ℕ → Text → ℕ → List HookExecution → List HookExecution
mark_retry id error next_retry_at = update_where (has_id id) (retry_row error next_retry_at)

unfoldable pub mark_failed : ℕ → Text → List HookExecution → List HookExecution
mark_failed id error = update_where (has_id id) (failed_row error)
