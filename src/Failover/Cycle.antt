-- ===== src/Failover/Cycle.antt =====
-- One tick of the HA monitor: `run_cycle` of qarax/src/ha_monitor.rs. The two maps of the monitor are
-- lists of entries with one entry for a key; the order in which a cycle visits hosts and VMs is that
-- of the query.
use qarax.Base.{
  ℕ, ◌-◌, ◌*◌, Bool, true, false, ◌&&◌, not, Option, none, some, List, [], ◌∷◌, filter, map,
  if◌then◌else◌, ltb, ◌==◌, nat_ord, text_ord, Result, ok, err, Ordering, cmp_text, sort_by,
}
use qarax.VmConfig.{UuidText, get, as_str, failed_over_from_key, set_failed_over_from, ha_enabled}
use qarax.Db.{Vm, VmStatus, Host, HostStatus}
use qarax.Schedule.{Double, elem, if_some}
use qarax.Control.{World, M, pure, attempt, ◌>>=◌, ◌>>◌, query, call_node, tick, Rpc, Answer}
use qarax.Failover.{Inventory}
use qarax.Failover.Attempt.{failover_vm, update_config}

pub record HaSettings : Type 0 where
  pub failover_grace_seconds : ℕ
  pub retry_cooldown_seconds : ℕ

abbrev pub Times : Type 0
Times = List (ℕ × ℕ)

pub record MonitorState : Type 0 where
  pub unreachable_since : Times
  pub last_attempt : Times

-- `Duration::from_secs`, and `Instant::elapsed`, which does not go below zero.
abbrev pub from_secs : ℕ → ℕ
from_secs seconds = seconds * 1000000000

abbrev pub elapsed : ℕ → ℕ → ℕ
elapsed now since = now - since

-- `HashMap::get`, `remove`, `insert` and `entry(…).or_insert(…)`
unfoldable pub time_of : ℕ → Times → Option ℕ
time_of id [] = none
time_of id (e ∷ entries) = if e.0 == id then some e.1 else time_of id entries

abbrev pub without : ℕ → Times → Times
without id = filter (λ e. not (e.0 == id))

abbrev pub with_time : ℕ → ℕ → Times → Times
with_time id time entries = (id, time) ∷ without id entries

unfoldable pub or_insert : ℕ → ℕ → Times → ℕ × Times
or_insert id time entries = elim (time_of id entries) [
  | some since ↦ (since, entries)
  | none ↦ (time, with_time id time entries)
]

unfoldable pub is_down : HostStatus → Bool
is_down HostStatus.down = true
is_down _ = false

unfoldable pub failover_status : VmStatus → Bool
failover_status VmStatus.running = true
failover_status VmStatus.paused = true
failover_status VmStatus.unknown = true
failover_status _ = false

-- `vm.ha_enabled` is read from the config.
unfoldable pub is_candidate : Vm → Bool
is_candidate vm = ha_enabled vm.config && failover_status vm.status

-- `config->>'failed_over_from' = $1`
unfoldable pub is_failed_over_from : UuidText → ℕ → Vm → Bool
is_failed_over_from uuid host_id vm =
    if_some (λ text. text == uuid.to_string host_id) (as_str (get vm.config failed_over_from_key))

abbrev pub resides_on : ℕ → Vm → Bool
resides_on host_id vm = if_some (λ id. id == host_id) vm.host_id

-- In the order of the bytes, where PostgreSQL follows the collation of the database.
abbrev pub by_vm_name : Vm → Vm → Ordering
by_vm_name a b = cmp_text a.name b.name

-- `WHERE host_id = $1 ORDER BY name`
unfoldable pub list_by_host : ℕ → List Vm → List Vm
list_by_host host_id vms = sort_by by_vm_name (filter (resides_on host_id) vms)

-- Whether the entry is younger than the duration.
abbrev pub is_recent : ℕ → ℕ → Option ℕ → Bool
is_recent now duration none = false
is_recent now duration (some time) = ltb (elapsed now time) duration

module _ (d : Double) (inv : Inventory d.F) (w : World) where
  open d use {F}

  unfoldable pub collect_failover_candidates : ℕ → M F (List Vm)
  collect_failover_candidates host_id = do
    resident ← query w (λ s. list_by_host host_id s.vms)
    pure (filter is_candidate resident)

  unfoldable pub clear_marker : Vm → Answer → M F (Unit {0})
  clear_marker vm (Answer.failure message) = pure tt
  clear_marker vm Answer.absent = do
    cleared ← attempt (update_config w vm.id (set_failed_over_from inv.uuid vm.config none))
    pure tt
  clear_marker vm Answer.done = do
    cleared ← attempt (update_config w vm.id (set_failed_over_from inv.uuid vm.config none))
    pure tt

  unfoldable pub cleanup_each : Host F → List Vm → M F (Unit {0})
  cleanup_each host [] = pure tt
  cleanup_each host (vm ∷ vms) = do
    stopped ← call_node w host.id (Rpc.force_stop_vm vm.id)
    deleted ← call_node w host.id (Rpc.delete_vm vm.id)
    clear_marker vm deleted
    cleanup_each host vms

  unfoldable pub cleanup_listed : Host F → Result (List Vm) → M F (Unit {0})
  cleanup_listed host (err e) = pure tt
  cleanup_listed host (ok stale_vms) = cleanup_each host stale_vms

  unfoldable pub cleanup_stale_copies : Host F → M F (Unit {0})
  cleanup_stale_copies host = do
    stale_vms ← attempt (query w (λ s. filter (is_failed_over_from inv.uuid host.id) s.vms))
    cleanup_listed host stale_vms

  module _ (settings : HaSettings) where
    unfoldable pub failover_one : Host F → Vm → MonitorState → M F MonitorState
    failover_one host vm state s =
        if is_recent (inv.instant s.calls) (from_secs settings.retry_cooldown_seconds)
          (time_of vm.id state.last_attempt)
        then (ok state, s)
        else (failover_vm d inv w vm host
              >> pure (record state {
                last_attempt = with_time vm.id (inv.instant s.calls) state.last_attempt;
              }))
            s

    unfoldable pub failover_each : Host F → List Vm → MonitorState → M F MonitorState
    failover_each host [] state = pure state
    failover_each host (vm ∷ vms) state = do
      state' ← failover_one host vm state
      failover_each host vms state'

    unfoldable pub failover_listed : Host F → MonitorState → Result (List Vm) → M F MonitorState
    failover_listed host state (err e) = pure state
    failover_listed host state (ok candidates) = failover_each host candidates state

    unfoldable pub failover_host : Host F → MonitorState → M F MonitorState
    failover_host host state = do
      candidates ← attempt (collect_failover_candidates host.id)
      failover_listed host state candidates

    -- A host that did not answer the probe.
    unfoldable pub unreachable : Host F → MonitorState → M F MonitorState
    unreachable host state s =
        let (first_unreachable, since) =
          or_insert host.id (inv.instant s.calls) state.unreachable_since in
        let noted = record state { unreachable_since = since } in
        if ltb (elapsed (inv.instant s.calls) first_unreachable)
          (from_secs settings.failover_grace_seconds)
        then (ok noted, s)
        else failover_host host noted s

    unfoldable pub after_probe : Host F → MonitorState → Bool → M F MonitorState
    after_probe host state true = do
      cleanup_stale_copies host
      pure (record state { unreachable_since = without host.id state.unreachable_since })
    after_probe host state false = unreachable host state

    unfoldable pub visit : Host F → MonitorState → M F MonitorState
    visit host state = do
      is_reachable ← (λ s. (ok (inv.is_reachable s.calls host.id), tick s))
      after_probe host state is_reachable

    unfoldable pub visit_each : List (Host F) → MonitorState → M F MonitorState
    visit_each [] state = pure state
    visit_each (host ∷ hosts) state = do state' ← visit host state; visit_each hosts state'

    unfoldable pub visit_listed : MonitorState → Result (List (Host F)) → M F MonitorState
    visit_listed state (err e) = pure state
    visit_listed state (ok down_hosts) = visit_each down_hosts (record state {
      unreachable_since =
          filter (λ e. elem e.0 (map (λ (h : Host F). h.id) down_hosts)) state.unreachable_since;
    })

    unfoldable pub run_cycle : MonitorState → M F MonitorState
    run_cycle state = do
      down_hosts ← attempt (query w (λ s. filter (λ (h : Host F). is_down h.status) s.hosts))
      visit_listed state down_hosts
