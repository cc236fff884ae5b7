-- ===== src/Lib.antt =====
-- qarax, a control plane for virtual machines: the logic of its decisions, as a verification library.
--
-- The control plane (qarax/) keeps hosts, VMs, networks and jobs in PostgreSQL and drives the nodes
-- (qarax-node/) by RPC. Modelled is what it decides, over the rows that a query reads:
--
-- Base: Boolean tests, lists, comparators, `BTreeSet` as a sorted list, `Result` with the errors of
--   qarax/src/errors.rs, decimal numbers. A text is the list of its bytes, a UUID a number.
-- VmConfig: the keys of a VM's JSON config (qarax/src/model/vms.rs).
-- Db: the tables as lists of rows (qarax/src/model).
-- Schedule: `pick_host_tx` of qarax/src/model/hosts.rs. Each condition of the query is a test of one
--   host, ORDER BY is a comparator, and FOR UPDATE SKIP LOCKED is a set of rows that are passed over.
--   Texts are compared by their bytes, also in the other queries, where PostgreSQL follows the collation
--   of the database. A condition that the query builder leaves out for an empty list holds of every
--   host, and is written out. Doubles are an interface, ordered as PostgreSQL documents.
-- Relocate: the loops of `pick_failover_host` (qarax/src/ha_monitor.rs) and `pick_evacuation_plan`
--   (qarax/src/handlers/host/handler.rs), on fuel: each round excludes one more host, so fuel above
--   the number of hosts is enough.
-- Vpc: qarax/src/network_policy.rs, the blocked and exempt subnets and the VXLAN overlays. Name
--   resolution and the version 5 UUIDs are parameters.
-- Hooks: the queue of webhook executions (qarax/src/model/lifecycle_hooks.rs) and its executor
--   (qarax/src/hook_executor.rs), as a step relation on the queue and the deliveries in flight.
-- Control, Lifecycle: the status of a VM as programs over the database in a monad of states and
--   errors, where any statement may fail and a node may answer anything: `update_status`
--   (qarax/src/model/vms.rs), starting, stopping, pausing and resuming
--   (qarax/src/handlers/vm/handler.rs), jobs (qarax/src/model/jobs.rs) and the monitor
--   (qarax/src/vm_monitor.rs). Committing an
--   image is there too. How `sqlx` prints an error, the checks of a VM's disks, the building of a
--   create request and the work of
--   a commit are parameters.
-- Rows: rows that a statement picks by their keys. Gpus: the allocation of GPUs
--   (qarax/src/model/host_gpus.rs) and their move to another host.
-- Failover: a tick of the HA monitor (qarax/src/ha_monitor.rs), which calls the search of Relocate, the
--   move of Gpus and `start_vm_internal` of Lifecycle. The tables that it only reads, the locks of
--   others, the answers to probes and the monotonic clock are parameters, by the number of the call.
-- Migration: `plan_vm_migration`, `execute_planned_vm_migration` and `migrate`
--   (qarax/src/handlers/vm/handler.rs), with the task that `migrate` spawns.
-- Evacuation: `evacuate`, its task and `fail_host_evacuation` (qarax/src/handlers/host/handler.rs),
--   which run the search of Relocate with the planner of Migration, and migrate one VM after another.
-- Ipam: the search for a free address (qarax/src/model/networks.rs) and the DHCP range
--   (qarax/src/handlers/network/handler.rs), with the shifts of a release build.
-- Exits: the registry by which the init process of a sandbox (qarax-init/src/main.rs) hands the exit
--   codes of children to the threads that wait for them, as a state and calls at times.
-- Examples: the theorems at concrete inputs, and tests.
--
-- Not modelled: HTTP routing, SQL that only loads or stores a row, RPC transport, process and device
-- handling on the nodes, and the command line client.
pub mod Base
pub mod VmConfig
pub mod Db
pub mod Schedule
pub mod Rows
pub mod Relocate
pub mod Vpc
pub mod Hooks
pub mod Control
pub mod Lifecycle
pub mod Gpus
pub mod Failover
pub mod Migration
pub mod Evacuation
pub mod Ipam
pub mod Exits
pub mod Examples
