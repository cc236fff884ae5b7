-- ===== src/Lifecycle/Monitor.antt =====
-- qarax/src/vm_monitor.rs: the status that the monitor gives a VM after it has asked the VM's host.
-- The monitor asks the hosts concurrently; one VM is looked at here.
use qarax.Base.{
  ℕ, zero, suc, Bool, true, false, ◌&&◌, Option, some, none, List, filter, text_ord, if◌then◌else◌,
}
use qarax.Db.{Vm, VmStatus}
use qarax.Control.{World, M, pure, attempt, ◌>>=◌}
use qarax.Lifecycle.{update_status, same_status}

-- `vms::list_active`: `status NOT IN ('SHUTDOWN', 'UNKNOWN', 'PENDING') AND host_id IS NOT NULL`
abbrev pub is_watched : VmStatus → Bool
is_watched VmStatus.shutdown = false
is_watched VmStatus.unknown = false
is_watched VmStatus.pending = false
is_watched _ = true

abbrev pub has_host : Option ℕ → Bool
has_host none = false
has_host (some _) = true

unfoldable pub list_active : List Vm → List Vm
list_active = filter (λ vm. is_watched vm.status && has_host vm.host_id)

unfoldable pub status_when_missing_on_node : VmStatus → Option VmStatus
status_when_missing_on_node VmStatus.created = none
status_when_missing_on_node _ = some VmStatus.unknown

-- The status of a VM that its host reports as created.
unfoldable pub status_of_created : VmStatus → VmStatus
status_of_created VmStatus.running = VmStatus.shutdown
status_of_created VmStatus.paused = VmStatus.shutdown
status_of_created VmStatus.shutdown = VmStatus.shutdown
status_of_created _ = VmStatus.created

unfoldable pub proto_status_to_db : ℕ → VmStatus → VmStatus
proto_status_to_db (suc zero) previous_status = status_of_created previous_status
proto_status_to_db (suc (suc zero)) previous_status = VmStatus.running
proto_status_to_db (suc (suc (suc zero))) previous_status = VmStatus.paused
proto_status_to_db (suc (suc (suc (suc zero)))) previous_status = VmStatus.shutdown
proto_status_to_db _ previous_status = VmStatus.unknown

-- What the host answers to `get_vm_info`.
pub data VmInfo : Type 0 where
  state : ℕ → VmInfo
  missing : VmInfo
  no_answer : VmInfo

-- The status to write, if one is written.
abbrev pub changed_to : VmStatus → VmStatus → Option VmStatus
changed_to previous live = if same_status live previous then none else some live

unfoldable pub observed : VmStatus → VmInfo → Option VmStatus
observed previous (state status) = changed_to previous (proto_status_to_db status previous)
observed previous missing = status_when_missing_on_node previous
observed previous no_answer = none

module _ {F : Type 0} (w : World) where
  unfoldable pub record_status : Vm → Option VmStatus → M F (Unit {0})
  record_status vm none = pure tt
  record_status vm (some status) = attempt (update_status w vm.id status) >>= λ updated. pure tt

  unfoldable pub observe : Vm → VmInfo → M F (Unit {0})
  observe vm info = record_status vm (observed vm.status info)
