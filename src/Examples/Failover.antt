-- ===== src/Examples/Failover.antt =====
-- A VM with one GPU and one disk on a host that is dead, and a second host that can take it.

use qarax.Base.{
  ℕ, ◌*◌, ◌≤◌, ◌≡◌, refl, true, false, none, some, [], ◌∷◌, codes, arith, ok, count_if, nat_beq,
  Option, nat_ord, Memᴰ, List, ◌↔◌,
}
use qarax.VmConfig.{Json, Fields}
use qarax.Db.{Hypervisor, Vm, VmStatus, Host, HostStatus, HostGpu}
use qarax.Schedule.{GpuRequest}
use qarax.Rows.{HasKeys}
use qarax.Control.{Store, find_vm, tick}
use qarax.Lifecycle.{is_vm}
use qarax.Lifecycle.Commit.{StoragePoolType, StoragePoolStatus}
use qarax.Gpus.{gpu_id, reallocate_vm_gpus}
use qarax.Gpus.Transfer.{Transfers, reallocate_vm_gpus-Transfers}
use qarax.Failover.{Inventory}
use qarax.Failover.Attempt.{execute_failover}
use qarax.Failover.Ends.{FailsOver}
use qarax.Failover.Outcome.{execute_failover-FailsOver}
use qarax.Failover.Cycle.{HaSettings, MonitorState, run_cycle, failover_host, is_candidate}
use qarax.Failover.Spared.{Spares}
use qarax.Failover.Ticked.{run_cycle-Spares}
use qarax.Failover.Retried.{Recent, Visits, failover_host-Retries}
use qarax.Examples.Schedule.{naturals, host}
use qarax.Examples.Lifecycle.{calm}

abbrev pub guest : Vm
guest = record {
  id = 1;
  name = codes "vm";
  tags = [];
  host_id = some 2;
  status = VmStatus.running;
  hypervisor = Hypervisor.cloud_hv;
  boot_vcpus = 1;
  memory_size = 1;
  image_ref = none;
  config = Json.object (Fields.field (codes "ha_enabled") (Json.bool true) Fields.end);
}

abbrev dead : Host ℕ
dead = record (host 2 0 (codes "dead")) { status = HostStatus.down }

abbrev gpu : ℕ → ℕ → Option ℕ → HostGpu
gpu id host_id vm_id = record {
  id = id;
  host_id = host_id;
  pci_address = codes "0000:00:01.0";
  model = some (codes "A100");
  vendor = some (codes "nvidia");
  vram_bytes = some 80;
  vm_id = vm_id;
}

abbrev pub before : Store ℕ
before = record {
  vms = guest ∷ [];
  hosts = dead ∷ host 3 0 (codes "spare") ∷ [];
  host_gpus = gpu 7 2 (some 1) ∷ gpu 8 3 none ∷ [];
  sandboxes = [];
  jobs = [];
  hooks = [];
  executions = [];
  events = [];
  tasks = [];
  calls = 0;
}

abbrev pub inventory : Inventory ℕ
inventory = record {
  vm_disks = record { vm_id = 1; storage_object_id = some 4; upper_storage_object_id = none } ∷ [];
  storage_objects = record { id = 4; storage_pool_id = 5 } ∷ [];
  storage_pools =
      record {
        id = 5;
        name = codes "nfs";
        pool_type = StoragePoolType.nfs;
        status = StoragePoolStatus.active;
      }
      ∷ [];
  host_storage_pools = (2, 5) ∷ (3, 5) ∷ [];
  host_networks = [];
  network_interfaces = [];
  scheduling = record {
    memory_oversubscription_ratio = 1;
    cpu_oversubscription_ratio = 1;
    disk_headroom_bytes = 0;
    memory_health_floor_bytes = 0;
  };
  uuid = record { to_string = λ n. n ∷ []; parse_str = λ t. none };
  policy_from_value = λ j. none;
  locked_hosts = λ n round id. false;
  locked_gpus = λ n id. false;
  round_answers = λ n round. true;
  pool_answers = λ n round id pool. true;
  is_reachable = λ n id. nat_beq id 3;
  planning_calls = λ n round. n;
  instant = λ n. n * 60000000000;
}

abbrev one_gpu : GpuRequest
one_gpu = record { count = 1; vendor = some (codes "nvidia"); model = none; min_vram_bytes = none }

keyed : HasKeys gpu_id before.host_gpus
keyed id = ground arith

reallocate_vm_gpus-Transfers_example :
    Transfers calm
      (λ n id. false)
      1
      3
      one_gpu
      before
      (reallocate_vm_gpus calm (λ n id. false) 1 3 one_gpu before)
reallocate_vm_gpus-Transfers_example =
    reallocate_vm_gpus-Transfers calm (λ n id. false) 1 3 one_gpu before keyed

alone : count_if (is_vm 1) before.vms ≤ 1
alone = omega arith

there : find_vm 1 before.vms ≡ some guest
unfolding find_vm
there = refl

execute_failover-FailsOver_example :
    FailsOver inventory calm guest dead before
      (execute_failover naturals inventory calm guest dead before)
execute_failover-FailsOver_example =
    execute_failover-FailsOver naturals inventory (omega arith) calm guest dead before alone there
      refl

abbrev settings : HaSettings
settings = record { failover_grace_seconds = 60; retry_cooldown_seconds = 120 }

abbrev seen : MonitorState
seen = record { unreachable_since = (2, 0) ∷ []; last_attempt = [] }

run_cycle-Spares_example :
    Spares naturals inventory settings seen before
      (run_cycle naturals inventory calm settings seen before).1
run_cycle-Spares_example = run_cycle-Spares naturals inventory calm settings seen before

failover_host-Retries_example :
    (state : MonitorState) × (t : Store ℕ) × (failover_host naturals inventory calm settings dead
        seen before
      ≡ (ok state, t))
    × (candidates : List Vm) × Visits naturals inventory calm settings dead candidates seen
        (tick before)
        state
        t
    × ((vm : Vm)
        → Memᴰ vm candidates
          ↔ (Memᴰ vm before.vms × (vm.host_id ≡ some 2) × (is_candidate vm ≡ true)))
    × ((vm : Vm)
        → Memᴰ vm before.vms
        → vm.host_id ≡ some 2
        → is_candidate vm ≡ true
        → Recent inventory settings vm.id 0 t.calls state)
failover_host-Retries_example =
    failover_host-Retries naturals inventory calm settings dead seen before refl
