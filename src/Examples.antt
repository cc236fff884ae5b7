-- ===== src/Examples.antt =====
-- Instances of the theorems at concrete inputs, with tests of the definitions.
mod Config
mod Exits
mod Failover
mod Hooks
mod Ipam
mod Lifecycle
mod Migration
mod Schedule
mod Vpc
