-- ===== src/Examples/Hooks.antt =====
-- A hook for every VM, its first execution claimed and delivered.
use qarax.Base.{
  ◌+◌, ◌≡◌, refl, true, false, none, some, List, [], ◌∷◌, codes, arith, inr, update_where, take,
  sort_by, insert_by,
}
use qarax.VmConfig.{Json}
use qarax.Db.{Hypervisor, Vm, VmStatus}
use qarax.Hooks.{
  LifecycleHook, HookScope, HookExecution, HookExecutionStatus, enqueue_matching, new_rows,
  new_execution, build_payload, hook_matches, scope_matches, claim_pending_executions, selected,
  claimable,
}
use qarax.Hooks.Executor.{
  Network, Response, Mark, handle_failure, deliver_hook, apply_mark, backoff_secs,
}
use qarax.Hooks.Matching.{Enqueues, enqueue_matching-Enqueues}
use qarax.Hooks.Claim.{Claims, HasKeys, claim_pending_executions-Claims}
use qarax.Hooks.Delivery.{Reach, Step, Process}
use qarax.Hooks.Attempts.{DeliversOnce, started, Reach-DeliversOnce}
use qarax.Hooks.Backoff.{Outcome, handle_failure-Outcome}

abbrev everywhere : LifecycleHook
everywhere = record {
  id = 7;
  url = codes "http://hooks";
  secret = none;
  scope = HookScope.global;
  scope_value = none;
  events = codes "running" ∷ [];
  active = true;
}

abbrev machine : Vm
machine = record {
  id = 1;
  name = codes "vm";
  tags = [];
  host_id = some 2;
  status = VmStatus.created;
  hypervisor = Hypervisor.cloud_hv;
  boot_vcpus = 1;
  memory_size = 1;
  image_ref = none;
  config = Json.null;
}

abbrev unreachable_network : Network
unreachable_network = record {
  serialize = λ p. [];
  hmac_hex = λ k b. [];
  send = λ r. Response.request_error (codes "timeout");
}

abbrev queued : List HookExecution
queued =
    enqueue_matching (everywhere ∷ []) (codes "1") machine (codes "created") (codes "running") 100
      (λ n. n + 50) []

queued-HasKeys : HasKeys queued
unfolding enqueue_matching new_rows new_execution hook_matches scope_matches
queued-HasKeys id = ground arith

enqueue_matching-Enqueues_example :
    Enqueues (everywhere ∷ []) (codes "1") machine (codes "running") [] queued
enqueue_matching-Enqueues_example =
    enqueue_matching-Enqueues (everywhere ∷ []) (codes "1") machine (codes "created")
      (codes "running") 100 (λ n. n + 50) []

claim_pending_executions-Claims_example :
    Claims 100
      (λ id. false)
      20
      queued
      (claim_pending_executions 100 (λ id. false) 20 queued).0
      (claim_pending_executions 100 (λ id. false) 20 queued).1
claim_pending_executions-Claims_example =
    claim_pending_executions-Claims 100 (λ id. false) 20 queued queued-HasKeys

abbrev after_enqueue : Process
after_enqueue = record started { executions = queued }

abbrev after_claim : Process
after_claim = record {
  executions = (claim_pending_executions 100 (λ id. false) 20 queued).0;
  in_flight = (claim_pending_executions 100 (λ id. false) 20 queued).1;
  posts = [];
}

abbrev in_delivery : HookExecution
in_delivery =
    record (new_execution machine (codes "created") (codes "running")
      (build_payload machine (codes "created") (codes "running") 100) 100 50 7) {
        status = HookExecutionStatus.processing;
      }

-- The request times out, and the execution is queued again.
abbrev after_failure : Process
after_failure = record {
  executions =
      apply_mark 101 50 (deliver_hook unreachable_network 101 in_delivery (inr everywhere))
        after_claim.executions;
  in_flight = [];
  posts = 50 ∷ [];
}

claimed_one : after_claim.in_flight ≡ in_delivery ∷ []
unfolding enqueue_matching new_rows new_execution hook_matches scope_matches
    claim_pending_executions selected claimable update_where take sort_by insert_by
claimed_one = refl

in_delivery-id : in_delivery.id ≡ 50
unfolding new_execution
in_delivery-id = refl

run : Reach unreachable_network started after_failure
unfolding new_execution
run =
    Reach.next
      (Reach.next
        (Reach.next Reach.here (
          Step.enqueue started (everywhere ∷ []) (codes "1") machine (codes "created")
            (codes "running") 100 (λ n. n + 50) queued-HasKeys))
        (Step.claim after_enqueue 100 (λ id. false)))
      (Step.finish after_claim [] [] in_delivery 101 (inr everywhere) claimed_one)

Reach-DeliversOnce_example : DeliversOnce after_failure
Reach-DeliversOnce_example = Reach-DeliversOnce unreachable_network run

handle_failure-Outcome_example :
    Outcome 101 in_delivery (codes "timeout") (handle_failure 101 in_delivery (codes "timeout"))
handle_failure-Outcome_example = handle_failure-Outcome 101 in_delivery (codes "timeout")

-- The delay of the first retry is the second one of the table.
first_retry :
    handle_failure 101 in_delivery (codes "timeout") ≡ Mark.retry (codes "timeout") (101 + 30)
unfolding handle_failure new_execution backoff_secs
first_retry = refl
