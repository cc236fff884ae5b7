-- ===== src/Schedule/Placeable.antt =====
-- The documented meaning of a placement, condition by condition, and the query's WHERE clause
-- against it.
use qarax.Base.{
  ℕ, ◌+◌, ◌^◌, ◌≤◌, ◌<◌, ◌≡◌, ◌↔◌, Bool, true, false, ◌&&◌, not, some, List, Memᴰ, any, all, ltb,
  count_if, Text, ◌==◌, text_ord, nat_ord, ==_iff, mem_of_any, any_of_mem, arith, ltb→lt, leb→le,
  lt→ltb, le→leb, and_true,
}
use qarax.Db.{Host, Vm, Db, is_up, is_active, HostStatus}
use qarax.Schedule.{
  Double, PlacementPolicy, GpuRequest, SchedulingRequest, SchedulingSettings, if_some, null_or,
  i64_sum_le, is_active_on, overlaps_tags, has_pool, has_network, gpu_matches, has_gpus,
  policy_admits, memory_fits, vcpus_fit, disk_fits, eligible, allocated_memory_bytes,
  allocated_vcpus,
}
use qarax.Schedule.Tests.{
  null_or_iff, all_iff, elem_iff, if_some_eq_iff, row_iff, contains_labels_iff, overlaps_tags_iff,
  not-true_iff, false_iff, iff_trans, null_or_iff_of, and_iff,
}

module _ {F : Type 0} where
  -- The host runs no active VM that carries one of the tags.
  abbrev pub RunsNone : Db F → Host F → List Text → Type 0
  RunsNone db h tags =
      (vm : Vm)
      → Memᴰ vm db.vms
      → vm.host_id ≡ some h.id
      → is_active vm.status ≡ true
      → (t : Text) → Memᴰ t tags
      → ¬ Memᴰ t vm.tags

  -- The hard part of a placement policy.
  pub record Admits (db : Db F) (h : Host F) (policy : PlacementPolicy) : Type 0 where
    pub reserved : (c : Text) → policy.reservation_class ≡ some c → h.reservation_class ≡ some c
    pub labelled :
        (e : Text × Text) → Memᴰ e policy.required_host_labels → Memᴰ e h.placement_labels
    pub apart : RunsNone db h policy.anti_affinity_tags

  RunsNone-iff :
      (db : Db F) (h : Host F) (tags : List Text)
      → (not (any (λ vm. is_active_on h vm && overlaps_tags vm.tags tags) db.vms) ≡ true)
        ↔ RunsNone db h tags
  RunsNone-iff db h tags = (
    λ e vm m on act t wanted carried.
        let none_does = (not-true_iff _).0 e in
        let this =
          any_of_mem (λ (vm : Vm). is_active_on h vm && overlaps_tags vm.tags tags) m
            ((and_true _ _).1 (
              (and_true _ _).1 ((if_some_eq_iff vm.host_id h.id).1 on, act),
              (overlaps_tags_iff vm.tags tags).1 (t, wanted, carried),
            )) in
        cc (none_does, this),
    λ r. (not-true_iff _).1 (
        (false_iff {P = any (λ vm. is_active_on h vm && overlaps_tags vm.tags tags) db.vms ≡ true} _
            (λ e. e, λ e. e)).1
          λ e.
            let w =
              mem_of_any (λ (vm : Vm). is_active_on h vm && overlaps_tags vm.tags tags) db.vms e in
            let t = (and_true (is_active_on h w.0) (overlaps_tags w.0.tags tags)).0 w.2 in
            let on =
              (and_true (if_some (λ id. id == h.id) w.0.host_id) (is_active w.0.status)).0 t.0 in
            let c = (overlaps_tags_iff w.0.tags tags).0 t.1 in
            r w.0 w.1 ((if_some_eq_iff w.0.host_id h.id).0 on.0) on.1 c.0 c.1 c.2),
  )

  Admits-iff :
      (db : Db F) (h : Host F) (policy : PlacementPolicy)
      → (policy_admits db h policy ≡ true) ↔ Admits db h policy
  unfolding policy_admits
  Admits-iff db h policy = (
    λ e.
        let t = (and_true _ _).0 e in
        let u = (and_true _ _).0 t.1 in
        record {
          reserved = λ c is.
              (if_some_eq_iff h.reservation_class c).0
                ((null_or_iff _ policy.reservation_class).0 t.0 c is);
          labelled = (contains_labels_iff h.placement_labels policy.required_host_labels).0 u.0;
          apart = (RunsNone-iff db h policy.anti_affinity_tags).0 u.1;
        },
    λ r. (and_true _ _).1 (
      (null_or_iff _ policy.reservation_class).1
          (λ c is. (if_some_eq_iff h.reservation_class c).1 (r.reserved c is)),
      (and_true _ _).1 (
        (contains_labels_iff h.placement_labels policy.required_host_labels).1 r.labelled,
        (RunsNone-iff db h policy.anti_affinity_tags).1 r.apart,
      ),
    ),
  )

is_up_iff : (s : HostStatus) → (is_up s ≡ true) ↔ (s ≡ HostStatus.up)
is_up_iff s = ground arith

i64_sum_le_iff : (a b limit : ℕ) → a + b < 2 ^ 63 → (i64_sum_le a b limit ≡ true) ↔ (a + b ≤ limit)
unfolding i64_sum_le
i64_sum_le_iff a b limit h = ground arith

module _ (d : Double) where
  open d use {F, of_ℕ, times, minus, le}

  -- Everything that a request asks of a host.
  pub record IsPlaceable (db : Db F) (locked : ℕ → Bool) (request : SchedulingRequest)
      (config : SchedulingSettings F) (h : Host F) : Type 0 where
    pub unlocked : locked h.id ≡ false
    pub up : h.status ≡ HostStatus.up
    pub has_storage :
        (pool : ℕ) → request.storage_pool_id ≡ some pool → Memᴰ (h.id, pool) db.host_storage_pools
    pub not_excluded : ¬ Memᴰ h.id request.excluded_host_ids
    pub attached :
        (network : ℕ)
        → Memᴰ network request.required_network_ids
        → Memᴰ (h.id, network) db.host_networks
    pub runs_architecture :
        (wanted : Text)
        → request.architecture ≡ some wanted
        → (has : Text) → h.architecture ≡ some has
        → has ≡ wanted
    pub admitted :
        (policy : PlacementPolicy) → request.placement_policy ≡ some policy → Admits db h policy
    pub memory :
        (total : ℕ)
        → h.total_memory_bytes ≡ some total
        → le (of_ℕ request.memory_bytes) (
            minus
              (times (of_ℕ total) config.memory_oversubscription_ratio)
              (of_ℕ (allocated_memory_bytes db h)))
          ≡ true
    pub cpus :
        (total : ℕ)
        → h.total_cpus ≡ some total
        → le (of_ℕ request.vcpus) (
            minus
              (times (of_ℕ total) config.cpu_oversubscription_ratio)
              (of_ℕ (allocated_vcpus db h)))
          ≡ true
    pub healthy :
        (bytes : ℕ)
        → h.available_memory_bytes ≡ some bytes
        → config.memory_health_floor_bytes < bytes
    pub disk :
        (bytes : ℕ)
        → h.disk_available_bytes ≡ some bytes
        → request.disk_bytes + config.disk_headroom_bytes ≤ bytes
    pub gpus :
        (gpu : GpuRequest)
        → request.gpu ≡ some gpu
        → gpu.count ≤ count_if (gpu_matches h gpu) db.host_gpus

  module _ (db : Db F) (locked : ℕ → Bool) (request : SchedulingRequest)
      (config : SchedulingSettings F) (h : Host F) where
    storage_iff : (null_or (has_pool db h) request.storage_pool_id ≡ true) ↔ (
        (pool : ℕ) → request.storage_pool_id ≡ some pool → Memᴰ (h.id, pool) db.host_storage_pools)
    unfolding has_pool
    storage_iff =
        null_or_iff_of (has_pool db h) request.storage_pool_id
          (λ pool. row_iff h.id pool db.host_storage_pools)

    attached_iff : (all (has_network db h) request.required_network_ids ≡ true) ↔ (
        (network : ℕ)
        → Memᴰ network request.required_network_ids
        → Memᴰ (h.id, network) db.host_networks)
    unfolding has_network
    attached_iff = (
      λ e n m. (row_iff h.id n db.host_networks).0 ((all_iff (has_network db h) _).0 e n m),
      λ k. (all_iff (has_network db h) _).1 (λ n m. (row_iff h.id n db.host_networks).1 (k n m)),
    )

    architecture_iff :
        (null_or (λ arch. null_or (λ a. a == arch) h.architecture) request.architecture ≡ true) ↔ (
          (wanted : Text)
          → request.architecture ≡ some wanted
          → (has : Text) → h.architecture ≡ some has
          → has ≡ wanted)
    architecture_iff =
        null_or_iff_of (λ arch. null_or (λ a. a == arch) h.architecture) request.architecture
          (λ wanted. null_or_iff_of (λ a. a == wanted) h.architecture (λ has. ==_iff has wanted))

    healthy_iff :
        (null_or (λ bytes. ltb config.memory_health_floor_bytes bytes) h.available_memory_bytes
          ≡ true)
        ↔ ((bytes : ℕ)
            → h.available_memory_bytes ≡ some bytes
            → config.memory_health_floor_bytes < bytes)
    healthy_iff =
        null_or_iff_of (λ bytes. ltb config.memory_health_floor_bytes bytes)
          h.available_memory_bytes (λ bytes. (ltb→lt _ bytes, lt→ltb _ bytes))

    gpus_iff : (null_or (has_gpus db h) request.gpu ≡ true) ↔ (
        (gpu : GpuRequest)
        → request.gpu ≡ some gpu
        → gpu.count ≤ count_if (gpu_matches h gpu) db.host_gpus)
    unfolding has_gpus
    gpus_iff = null_or_iff_of (has_gpus db h) request.gpu (λ gpu. (
      leb→le gpu.count (count_if (gpu_matches h gpu) db.host_gpus),
      le→leb gpu.count (count_if (gpu_matches h gpu) db.host_gpus),
    ))

    disk_iff :
        request.disk_bytes + config.disk_headroom_bytes < 2 ^ 63
        → (disk_fits d config request h ≡ true) ↔ (
            (bytes : ℕ)
            → h.disk_available_bytes ≡ some bytes
            → request.disk_bytes + config.disk_headroom_bytes ≤ bytes)
    unfolding disk_fits
    disk_iff bound =
        null_or_iff_of (i64_sum_le request.disk_bytes config.disk_headroom_bytes)
          h.disk_available_bytes (λ bytes. i64_sum_le_iff _ _ bytes bound)

    -- Where the sum of the disk's size and the headroom does not wrap, the WHERE clause holds of a
    -- host exactly when the host meets every condition of the request.
    pub eligible_iff :
        request.disk_bytes + config.disk_headroom_bytes < 2 ^ 63
        → (eligible d db locked request config h ≡ true) ↔ IsPlaceable db locked request config h
    unfolding eligible memory_fits vcpus_fit
    eligible_iff bound =
        let parts = and_iff (not-true_iff (locked h.id)) (
          and_iff (is_up_iff h.status) (
            and_iff storage_iff (
              and_iff
                (iff_trans (not-true_iff _) (false_iff _ (elem_iff h.id request.excluded_host_ids)))
                (and_iff attached_iff (
                  and_iff architecture_iff (
                    and_iff
                      (null_or_iff_of (policy_admits db h) request.placement_policy
                        (Admits-iff db h))
                      (and_iff (null_or_iff _ h.total_memory_bytes) (
                        and_iff (null_or_iff _ h.total_cpus)
                          (and_iff healthy_iff (and_iff (disk_iff bound) gpus_iff)))))))))) in
        (
          λ e.
              let t = parts.0 e in
              record {
                unlocked = t.0;
                up = t.1.0;
                has_storage = t.1.1.0;
                not_excluded = t.1.1.1.0;
                attached = t.1.1.1.1.0;
                runs_architecture = t.1.1.1.1.1.0;
                admitted = t.1.1.1.1.1.1.0;
                memory = t.1.1.1.1.1.1.1.0;
                cpus = t.1.1.1.1.1.1.1.1.0;
                healthy = t.1.1.1.1.1.1.1.1.1.0;
                disk = t.1.1.1.1.1.1.1.1.1.1.0;
                gpus = t.1.1.1.1.1.1.1.1.1.1.1;
              },
          λ p. parts.1 (
            p.unlocked,
            (
              p.up,
              (
                p.has_storage,
                (
                  p.not_excluded,
                  (
                    p.attached,
                    (
                      p.runs_architecture,
                      (p.admitted, (p.memory, (p.cpus, (p.healthy, (p.disk, p.gpus))))),
                    ),
                  ),
                ),
              ),
            ),
          ),
        )
