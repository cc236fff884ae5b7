-- ===== src/Hooks/Delivery.antt =====
-- One executor process from its start on: the queue, the deliveries that it has spawned and not
-- finished, and the identifiers of the executions that it has posted. The database may refuse to
-- write an outcome.

use qarax.Base.{
  ℕ, ◌+◌, ◌≤◌, ◌<◌, ◌≡◌, refl, ◌⊎◌, inl, inr, Bool, true, false, List, ◌∷◌, ◌++◌, count_if, ◌==◌,
  nat_ord, arith, leb, update_where, Bool-cases, Text,
}
use qarax.Db.{Vm}
use qarax.Hooks.{
  LifecycleHook, HookExecution, HookExecutionStatus, has_id, claim_pending_executions,
  enqueue_matching, delivered_row, retry_row, failed_row, mark_delivered, mark_retry, mark_failed,
}
use qarax.Hooks.Executor.{
  Mark, Network, Response, http, request_error, handle_failure, answer, deliver_hook, apply_mark,
  is_success,
}
use qarax.Hooks.Claim.{HasKeys}

pub record Process : Type 0 where
  pub executions : List HookExecution
  pub in_flight : List HookExecution
  pub posts : List ℕ

abbrev pub count : ℕ → List ℕ → ℕ
count id posts = count_if (λ n. id == n) posts

-- A request is sent where the hook is found.
abbrev pub post : ℕ → Text ⊎ LifecycleHook → List ℕ → List ℕ
post id (inl e) posts = posts
post id (inr hook) posts = id ∷ posts

pub data Step (net : Network) : Process → Process → Type 0 where
  enqueue :
      (s : Process) (hooks : List LifecycleHook) (vm_id : Text) (machine : Vm)
      (previous_status new_status : Text) (now : ℕ) (fresh : ℕ → ℕ)
      → HasKeys
          (enqueue_matching hooks vm_id machine previous_status new_status now fresh s.executions)
      → Step net s (record s {
        executions =
            enqueue_matching hooks vm_id machine previous_status new_status now fresh s.executions;
      })
  claim :
      (s : Process) (now : ℕ) (locked : ℕ → Bool)
      → Step net s (record s {
        executions = (claim_pending_executions now locked 20 s.executions).0;
        in_flight = s.in_flight ++ (claim_pending_executions now locked 20 s.executions).1;
      })
  finish :
      (s : Process) (before after : List HookExecution) (e : HookExecution) (now : ℕ)
      (hook : Text ⊎ LifecycleHook)
      → s.in_flight ≡ before ++ e ∷ after
      → Step net s (record {
        executions = apply_mark now e.id (deliver_hook net now e hook) s.executions;
        in_flight = before ++ after;
        posts = post e.id hook s.posts;
      })
  unwritten :
      (s : Process) (before after : List HookExecution) (e : HookExecution)
      (hook : Text ⊎ LifecycleHook)
      → s.in_flight ≡ before ++ e ∷ after
      → Step net s (record {
        executions = s.executions;
        in_flight = before ++ after;
        posts = post e.id hook s.posts;
      })

pub data Reach (net : Network) (s : Process) : Process → Type 0 where
  here : Reach net s s
  next : {t u : Process} → Reach net s t → Step net t u → Reach net s u

abbrev pub is_open : HookExecutionStatus → Bool
is_open HookExecutionStatus.pending = true
is_open HookExecutionStatus.processing = true
is_open _ = false

-- An execution that is not finished has attempts left.
pub record HasBudget (e : HookExecution) : Type 0 where
  pub within : e.attempt_count ≤ e.max_attempts
  pub left : is_open e.status ≡ true → e.attempt_count < e.max_attempts

-- The row that a mark makes.
abbrev pub marked : ℕ → Mark → HookExecution → HookExecution
marked now (Mark.delivered code body) e = delivered_row code body now e
marked now (Mark.retry error at_time) e = retry_row error at_time e
marked now (Mark.failed error) e = failed_row error e

pub apply_mark-update :
    (now id : ℕ) (mark : Mark) (xs : List HookExecution)
    → apply_mark now id mark xs ≡ update_where (has_id id) (marked now mark) xs
unfolding apply_mark mark_delivered mark_retry mark_failed
apply_mark-update now id (Mark.delivered code body) xs = refl
apply_mark-update now id (Mark.retry error at_time) xs = refl
apply_mark-update now id (Mark.failed error) xs = refl

pub marked-keeps :
    (now : ℕ) (mark : Mark) (e : HookExecution)
    → ((marked now mark e).id ≡ e.id)
      × ((marked now mark e).attempt_count ≡ e.attempt_count + 1)
      × ((marked now mark e).max_attempts ≡ e.max_attempts)
marked-keeps now (Mark.delivered code body) e = (refl, refl, refl)
marked-keeps now (Mark.retry error at_time) e = (refl, refl, refl)
marked-keeps now (Mark.failed error) e = (refl, refl, refl)

-- Only a retry leaves the row open, and it is given while attempts are left.
failure-left :
    (now : ℕ) (e : HookExecution) (error : Text)
    → is_open (marked now (handle_failure now e error) e).status ≡ true
    → e.attempt_count + 1 < e.max_attempts
unfolding handle_failure
failure-left now e error h = elim (Bool-cases (leb e.max_attempts (e.attempt_count + 1))) [
  | inl t ↦ absurd (false_true (rw t at h))
  | inr f ↦ ground (arith, f)
]
  where
    false_true : false ≡ true → ⊥
    false_true q = cc q

answer-left :
    (net : Network) (now : ℕ) (e : HookExecution) (r : Response)
    → is_open (marked now (answer net now e r) e).status ≡ true
    → e.attempt_count + 1 < e.max_attempts
unfolding answer
answer-left net now e (http code body) h = elim (Bool-cases (is_success code)) [
  | inl t ↦ absurd (false_true (rw t at h))
  | inr f ↦ failure-left now e _ (rw f at h)
]
  where
    false_true : false ≡ true → ⊥
    false_true q = cc q
answer-left net now e (request_error error) h = failure-left now e _ h

delivery-left :
    (net : Network) (now : ℕ) (e : HookExecution) (hook : Text ⊎ LifecycleHook)
    → is_open (marked now (deliver_hook net now e hook) e).status ≡ true
    → e.attempt_count + 1 < e.max_attempts
unfolding deliver_hook
delivery-left net now e (inl error) h = cc
delivery-left net now e (inr hook) h = answer-left net now e _ h

pub marked-HasBudget :
    (net : Network) (now : ℕ) (e : HookExecution) (hook : Text ⊎ LifecycleHook)
    → e.attempt_count < e.max_attempts
    → HasBudget (marked now (deliver_hook net now e hook) e)
marked-HasBudget net now e hook h =
    let k = marked-keeps now (deliver_hook net now e hook) e in
    record {
      within = omega (arith, k.1, k.2, h);
      left = λ o. omega (arith, k.1, k.2, delivery-left net now e hook o);
    }
