-- ===== src/Examples/Migration.antt =====
-- A VM without a GPU and with one disk on a host that is emptied, and a second host that can take it.
use qarax.Base.{collect, insert, insert_by, sort_by, ℕ, ◌≡◌, refl, [], ◌∷◌, codes, ok}
use qarax.VmConfig
use qarax.Db.{VmStatus, HostStatus}
use qarax.Control.{Store, find_vm, get_vm, query, host_for_vm, find_host}
use qarax.Lifecycle.{
  ensure_host_matches_architecture, persisted_vm_architecture, normalize_architecture,
}
use qarax.Gpus.{list_by_vm}
use qarax.Failover.{filter_map, is_shared}
use qarax.Migration.{
  migratable_vm, is_migratable, is_cloud_hv, require_by_id, check_move, check_no_gpus, check_disks,
  check_objects, check_pools, PlannedVmMigration, plan_vm_migration, MigrationTask, run_migration,
}
use qarax.Migration.Plan.{Plans, plan_vm_migration-Plans}
use qarax.Migration.Task.{Migrates, run_migration-Migrates}
use qarax.Evacuation.{EvacuationTask, run_evacuation}
use qarax.Evacuation.Course.{Spares}
use qarax.Evacuation.Outcome.{Evacuates, run_evacuation-Evacuates}
use qarax.Examples.Schedule.{naturals, host}
use qarax.Examples.Lifecycle.{calm}
use qarax.Examples.Failover.{before, inventory}

abbrev settled : Store ℕ
settled = record before {
  hosts = host 2 0 (codes "full") ∷ host 3 0 (codes "spare") ∷ [];
  host_gpus = [];
}

abbrev plan : PlannedVmMigration ℕ
plan = record {
  vm_id = 1;
  vm_name = codes "vm";
  source_host = host 2 0 (codes "full");
  target_host = host 3 0 (codes "spare");
  original_status = VmStatus.running;
}

planned :
    plan_vm_migration calm inventory 1 3 settled
    ≡ (ok plan, (plan_vm_migration calm inventory 1 3 settled).1)
unfolding plan_vm_migration migratable_vm get_vm query find_vm is_migratable is_cloud_hv host_for_vm
    find_host require_by_id check_move ensure_host_matches_architecture persisted_vm_architecture
    VmConfig.get VmConfig.lookup check_no_gpus list_by_vm collect insert insert_by sort_by
    filter_map is_shared normalize_architecture check_disks check_objects check_pools
planned = refl

plan_vm_migration-Plans_example : Plans inventory 1 3 settled plan
plan_vm_migration-Plans_example = plan_vm_migration-Plans calm inventory 1 3 settled planned

abbrev migration : MigrationTask ℕ
migration = record { job_id = 1; plan = plan }

run_migration-Migrates_example : Migrates calm plan settled (run_migration calm migration settled).1
run_migration-Migrates_example = run_migration-Migrates calm migration settled

abbrev evacuation : EvacuationTask
evacuation = record {
  job_id = 1;
  host_id = 2;
  original_host_status = HostStatus.up;
  resident_vm_ids = 1 ∷ [];
}

run_evacuation-Evacuates_example :
    Spares evacuation.resident_vm_ids settled
      (run_evacuation naturals inventory calm evacuation settled).1
    × Evacuates naturals inventory calm evacuation settled
        (run_evacuation naturals inventory calm evacuation settled).1
run_evacuation-Evacuates_example =
    run_evacuation-Evacuates naturals inventory calm evacuation settled
