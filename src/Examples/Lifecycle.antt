-- ===== src/Examples/Lifecycle.antt =====
-- One VM on one host, with a database and a node that answer.
use qarax.Base.{
  update_where, ℕ, ◌+◌, ◌≡◌, refl, ◌≤◌, true, none, some, List, [], ◌∷◌, codes, arith, ok, map,
  count_if,
}
use qarax.VmConfig.{Json}
use qarax.Db.{Hypervisor, Vm, VmStatus, Host, HostStatus}
use qarax.Control.{
  host_for_vm, find_host, Store, World, Rpc, Answer, StartTask, Sandbox, SandboxStatus, find_vm,
  find_sandbox, get_vm, query, execute, mark_running, mark_failed,
}
use qarax.Lifecycle.{start_vm_internal, is_vm}
use qarax.Lifecycle.Task.{start_body, shut_down, ensure_vm_start_allowed, vm_reason, sandbox_reason}
use qarax.Lifecycle.Start.{Starts, start_vm_internal-Starts}
use qarax.Lifecycle.Outcome.{Ends, start_body-Ends}
use qarax.Lifecycle.Stopping.{Stops, shut_down-Stops}
use qarax.Lifecycle.Commit.{
  Pools, CommitTask, run_vm_commit, commit, require, try_set_committing, accept, validate,
  find_pool, committable,
}
use qarax.Lifecycle.Restored.{Restores, run_vm_commit-Restores}
use qarax.Lifecycle.Committed.{Commits, commit-Commits}
use qarax.Lifecycle.Monitor.{VmInfo, observed, status_when_missing_on_node}
use qarax.Lifecycle.Reported.{Sound, observed-Sound}

abbrev machine : VmStatus → Vm
machine status = record {
  id = 1;
  name = codes "vm";
  tags = [];
  host_id = some 2;
  status = status;
  hypervisor = Hypervisor.cloud_hv;
  boot_vcpus = 1;
  memory_size = 1;
  image_ref = none;
  config = Json.null;
}

abbrev node_host : Host ℕ
node_host = record {
  id = 2;
  name = codes "a";
  address = codes "a";
  port = 50051;
  status = HostStatus.up;
  reservation_class = none;
  placement_labels = [];
  architecture = none;
  total_cpus = none;
  total_memory_bytes = none;
  available_memory_bytes = none;
  load_average = none;
  disk_available_bytes = none;
}

abbrev store : VmStatus → List Sandbox → Store ℕ
store status sandboxes = record {
  vms = machine status ∷ [];
  hosts = node_host ∷ [];
  host_gpus = [];
  sandboxes = sandboxes;
  jobs = [];
  hooks = [];
  executions = [];
  events = [];
  tasks = [];
  calls = 0;
}

abbrev pub calm : World
calm = record {
  db_answers = λ n. true;
  node = λ n host rpc. Answer.done;
  disks_can_start = λ n. ok tt;
  can_build_request = λ n. ok tt;
  now = λ n. n;
  random_id = λ n. n + 100;
  uuid_text = λ id. codes "id";
  statement_text = λ e. codes "error";
}

keys : (status : VmStatus) → count_if (is_vm 1) (store status []).vms ≤ 1
keys status = omega arith

start_vm_internal-Starts_example :
    Starts calm 1 (store VmStatus.created []) (start_vm_internal calm 1 (store VmStatus.created []))
start_vm_internal-Starts_example =
    start_vm_internal-Starts calm 1 (store VmStatus.created []) (keys VmStatus.created)

abbrev task : StartTask
task = record {
  vm_id = 1;
  job_id = 100;
  host_id = 2;
  original_status = VmStatus.created;
  creates = true;
}

abbrev doomed : List Sandbox
doomed = record { id = 9; vm_id = 1; status = SandboxStatus.destroying } ∷ []

start_body-Ends_example :
    Ends calm task
      (store VmStatus.pending doomed)
      (start_body calm task (store VmStatus.pending doomed))
start_body-Ends_example = start_body-Ends calm task (store VmStatus.pending doomed)

-- The sandbox is being deleted before the task begins: the VM is left pending, not created.
left_pending :
    map (λ (vm : Vm). vm.status) (start_body calm task (store VmStatus.pending doomed)).1.vms
    ≡ VmStatus.pending ∷ []
unfolding start_body mark_running execute ensure_vm_start_allowed get_vm query find_vm find_sandbox
    vm_reason sandbox_reason mark_failed
left_pending = refl

shut_down-Stops_example :
    Stops calm Rpc.stop_vm 1
      (store VmStatus.running [])
      (shut_down calm Rpc.stop_vm 1 (store VmStatus.running []))
shut_down-Stops_example = shut_down-Stops calm Rpc.stop_vm 1 (store VmStatus.running [])

observed-Sound_example :
    Sound VmStatus.running (VmInfo.state 1) (observed VmStatus.running (VmInfo.state 1))
observed-Sound_example = observed-Sound VmStatus.running (VmInfo.state 1) refl

-- A VM that is being committed and that the host does not know becomes unknown.
commit_lost : observed VmStatus.committing VmInfo.missing ≡ some VmStatus.unknown
unfolding observed status_when_missing_on_node
commit_lost = refl

abbrev imaged : Store ℕ
imaged = record (store VmStatus.created []) {
  vms = record (machine VmStatus.created) { image_ref = some (codes "registry/image") } ∷ [];
}

-- No pool has the requested identifier.
abbrev no_pools : Pools
no_pools = record {
  pools = [];
  host_storage_pools = [];
  find_oci_disk = λ n. ok tt;
  commit_inner = λ n. ok tt;
}

commit-Commits_example : Commits 1 imaged (commit calm no_pools 1 8 imaged)
commit-Commits_example = commit-Commits calm no_pools 1 8 imaged

-- The request is refused, and the VM stays committing.
left_committing_test :
    map (λ (vm : Vm). vm.status) (commit calm no_pools 1 8 imaged).1.vms ≡ VmStatus.committing ∷ []
unfolding commit get_vm query find_vm require try_set_committing accept validate host_for_vm
    find_host find_pool update_where committable
left_committing_test = refl

abbrev commit_task : CommitTask
commit_task = record { vm_id = 1; job_id = 100; host_id = 2; previous_status = VmStatus.created }

run_vm_commit-Restores_example :
    Restores calm commit_task
      (store VmStatus.committing [])
      (run_vm_commit calm no_pools commit_task (store VmStatus.committing [])).1
run_vm_commit-Restores_example =
    run_vm_commit-Restores calm no_pools commit_task (store VmStatus.committing [])
