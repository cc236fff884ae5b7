-- ===== src/Failover/Residents.antt =====
-- Whom `list_by_host` of qarax/src/model/vms.rs lists, and which of them fail over.
use qarax.Base.{
  ℕ, ◌≡◌, ◌↔◌, true, some, List, Memᴰ, filter, mem-filter_of, of_mem-filter, mem-sort_by,
  of_mem-sort_by, nat_ord,
}
use qarax.Db.{Vm}
use qarax.Schedule.Tests.{if_some_eq_iff}
use qarax.Failover.Cycle.{by_vm_name, list_by_host, resides_on, is_candidate}

pub list_by_host_iff :
    (host_id : ℕ) (vms : List Vm) (v : Vm)
    → Memᴰ v (list_by_host host_id vms) ↔ (Memᴰ v vms × (v.host_id ≡ some host_id))
unfolding list_by_host
list_by_host_iff host_id vms v = (
  λ m.
      let (n, resident) =
        of_mem-filter (resides_on host_id) vms
          (of_mem-sort_by by_vm_name (filter (resides_on host_id) vms) m) in
      (n, (if_some_eq_iff v.host_id host_id).0 resident),
  λ r.
      mem-sort_by by_vm_name (filter (resides_on host_id) vms)
        (mem-filter_of (resides_on host_id) r.0 ((if_some_eq_iff v.host_id host_id).1 r.1)),
)

pub candidates_iff :
    (host_id : ℕ) (vms : List Vm) (v : Vm)
    → Memᴰ v (filter is_candidate (list_by_host host_id vms))
      ↔ (Memᴰ v vms × (v.host_id ≡ some host_id) × (is_candidate v ≡ true))
candidates_iff host_id vms v = (
  λ m.
      let (n, candidate) = of_mem-filter is_candidate (list_by_host host_id vms) m in
      let (n', resident) = (list_by_host_iff host_id vms v).0 n in (n', resident, candidate),
  λ r. mem-filter_of is_candidate ((list_by_host_iff host_id vms v).1 (r.0, r.1)) r.2,
)
