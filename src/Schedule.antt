-- ===== src/Schedule.antt =====
-- `pick_host_tx` of qarax/src/model/hosts.rs: the query that places a VM. Each condition that the
-- query builder pushes is a test of one host; the ORDER BY clause is a comparator of two hosts.
pub mod Tests
pub mod Placeable
pub mod Laws
pub mod Preference
use qarax.Base.{
  ℕ, ◌+◌, ◌*◌, ◌^◌, Ordering, lt, eq, gt, Bool, true, false, ◌&&◌, ◌||◌, not, Option, none, some,
  List, [], ◌∷◌, if◌then◌else◌, leb, ltb, compare, filter, any, all, count_if, Text, ◌==◌, Ord,
  text_ord, nat_ord, then_cmp, cmp_text, is_le,
}
use qarax.Db.{Host, Vm, HostGpu, Db, Labels, is_up, is_active}

-- The doubles of PostgreSQL, whose `>=` and ORDER BY are one total order (NaN is the largest).
pub record Double : Type 1 where
  pub F : Type 0
  pub of_ℕ : ℕ → F
  pub times : F → F → F
  pub minus : F → F → F
  pub le : F → F → Bool

pub record PlacementPolicy : Type 0 where
  pub reservation_class : Option Text
  pub required_host_labels : Labels
  pub preferred_host_labels : Labels
  pub affinity_tags : List Text
  pub anti_affinity_tags : List Text
  pub spread_tags : List Text

pub record GpuRequest : Type 0 where
  pub count : ℕ
  pub vendor : Option Text
  pub model : Option Text
  pub min_vram_bytes : Option ℕ

pub record SchedulingRequest : Type 0 where
  pub memory_bytes : ℕ
  pub vcpus : ℕ
  pub disk_bytes : ℕ
  pub architecture : Option Text
  pub storage_pool_id : Option ℕ
  pub required_network_ids : List ℕ
  pub gpu : Option GpuRequest
  pub placement_policy : Option PlacementPolicy
  pub excluded_host_ids : List ℕ

pub record SchedulingSettings (F : Type 0) : Type 0 where
  pub memory_oversubscription_ratio : F
  pub cpu_oversubscription_ratio : F
  pub disk_headroom_bytes : ℕ
  pub memory_health_floor_bytes : ℕ

-- SQL: `p(NULL)` is not true, and `column IS NULL OR p(column)`.
abbrev pub if_some {ℓ} : {A : Type ℓ} → (A → Bool) → Option A → Bool
if_some p none = false
if_some p (some a) = p a

abbrev pub null_or {ℓ} : {A : Type ℓ} → (A → Bool) → Option A → Bool
null_or p none = true
null_or p (some a) = p a

abbrev pub sum_of : (Vm → ℕ) → List Vm → ℕ
sum_of column [] = 0
sum_of column (vm ∷ vms) = column vm + sum_of column vms

abbrev pub is_unset : Option ℕ → Bool
is_unset none = true
is_unset (some _) = false

abbrev pub elem {ℓ} : {A : Type ℓ} ⦃o : Ord A⦄ → A → List A → Bool
elem a = any (λ x. x == a)

-- jsonb `labels @> wanted`, and on arrays `tags @> wanted` and `tags && wanted`
abbrev pub has_label : Labels → Text × Text → Bool
has_label labels (k, v) = any (λ e. (e.0 == k) && (e.1 == v)) labels

abbrev pub contains_labels : Labels → Labels → Bool
contains_labels labels wanted = all (has_label labels) wanted

abbrev pub contains_tags : List Text → List Text → Bool
contains_tags tags wanted = all (λ t. elem t tags) wanted

abbrev pub overlaps_tags : List Text → List Text → Bool
overlaps_tags tags wanted = any (λ t. elem t tags) wanted

-- `a + b` on `i64` wraps in a release build, and a negative sum is below every size.
unfoldable pub i64_sum_le : ℕ → ℕ → ℕ → Bool
i64_sum_le a b limit = if ltb (a + b) (2 ^ 63) then leb (a + b) limit else true

-- ORDER BY: the keys of two hosts, each in the query's direction.
abbrev pub cmp_bool_desc : Bool → Bool → Ordering
cmp_bool_desc true false = lt
cmp_bool_desc false true = gt
cmp_bool_desc true true = eq
cmp_bool_desc false false = eq

-- A key that is pushed only where the policy lists tags.
abbrev pub key_of : List Text → Ordering → Ordering
key_of [] c = eq
key_of (t ∷ ts) c = c

module _ {F : Type 0} where
  -- `host_id = h.id AND status NOT IN ('SHUTDOWN', 'UNKNOWN')`
  abbrev pub is_active_on : Host F → Vm → Bool
  is_active_on h vm = if_some (λ id. id == h.id) vm.host_id && is_active vm.status

  -- The LEFT JOIN `alloc`, with its COALESCE.
  unfoldable pub allocated_memory_bytes : Db F → Host F → ℕ
  allocated_memory_bytes db h = sum_of (λ vm. vm.memory_size) (filter (is_active_on h) db.vms)

  unfoldable pub allocated_vcpus : Db F → Host F → ℕ
  allocated_vcpus db h = sum_of (λ vm. vm.boot_vcpus) (filter (is_active_on h) db.vms)

  unfoldable pub has_pool : Db F → Host F → ℕ → Bool
  has_pool db h pool = any (λ row. (row.0 == h.id) && (row.1 == pool)) db.host_storage_pools

  unfoldable pub has_network : Db F → Host F → ℕ → Bool
  has_network db h network = any (λ row. (row.0 == h.id) && (row.1 == network)) db.host_networks

  unfoldable pub gpu_matches : Host F → GpuRequest → HostGpu → Bool
  gpu_matches h gpu g =
      (g.host_id == h.id)
      && (is_unset g.vm_id
          && (null_or (λ vendor. if_some (λ v. v == vendor) g.vendor) gpu.vendor
              && (null_or (λ model. if_some (λ m. m == model) g.model) gpu.model
                  && null_or (λ min. if_some (λ bytes. leb min bytes) g.vram_bytes)
                      gpu.min_vram_bytes)))

  unfoldable pub has_gpus : Db F → Host F → GpuRequest → Bool
  has_gpus db h gpu = leb gpu.count (count_if (gpu_matches h gpu) db.host_gpus)

  unfoldable pub policy_admits : Db F → Host F → PlacementPolicy → Bool
  policy_admits db h policy =
      null_or (λ class. if_some (λ c. c == class) h.reservation_class) policy.reservation_class
      && (contains_labels h.placement_labels policy.required_host_labels
          && not (
              any (λ vm. is_active_on h vm && overlaps_tags vm.tags policy.anti_affinity_tags)
                db.vms))

  -- `COUNT(*)` of the active VMs on the host that carry all of the tags
  unfoldable pub count_tagged : Db F → List Text → Host F → ℕ
  count_tagged db tags h = count_if (λ vm. is_active_on h vm && contains_tags vm.tags tags) db.vms

  unfoldable pub by_labels : PlacementPolicy → Host F → Host F → Ordering
  by_labels policy a b =
      cmp_bool_desc (contains_labels a.placement_labels policy.preferred_host_labels)
        (contains_labels b.placement_labels policy.preferred_host_labels)

  unfoldable pub by_affinity : Db F → PlacementPolicy → Host F → Host F → Ordering
  by_affinity db policy a b =
      key_of policy.affinity_tags
        (compare (count_tagged db policy.affinity_tags b) (count_tagged db policy.affinity_tags a))

  unfoldable pub by_spread : Db F → PlacementPolicy → Host F → Host F → Ordering
  by_spread db policy a b =
      key_of policy.spread_tags
        (compare (count_tagged db policy.spread_tags a) (count_tagged db policy.spread_tags b))

  unfoldable pub by_policy : Db F → Option PlacementPolicy → Host F → Host F → Ordering
  by_policy db none a b = eq
  by_policy db (some policy) a b =
      then_cmp (by_labels policy a b)
        (then_cmp (by_affinity db policy a b) (by_spread db policy a b))

  -- PostgreSQL compares names by the collation of the database, of which bytes are the order C.
  unfoldable pub by_name : Host F → Host F → Ordering
  by_name a b = cmp_text a.name b.name

module _ (d : Double) where
  open d use {F, of_ℕ, times, minus, le}

  -- The WHERE clause. `locked` are the rows that another transaction holds, which FOR UPDATE SKIP
  -- LOCKED passes over.
  unfoldable pub memory_fits : Db F → SchedulingSettings F → SchedulingRequest → Host F → Bool
  memory_fits db config request h =
      null_or
        (λ total. le (of_ℕ request.memory_bytes) (
          minus (times (of_ℕ total) config.memory_oversubscription_ratio)
            (of_ℕ (allocated_memory_bytes db h))))
        h.total_memory_bytes

  unfoldable pub vcpus_fit : Db F → SchedulingSettings F → SchedulingRequest → Host F → Bool
  vcpus_fit db config request h =
      null_or
        (λ total. le (of_ℕ request.vcpus) (
          minus (times (of_ℕ total) config.cpu_oversubscription_ratio)
            (of_ℕ (allocated_vcpus db h))))
        h.total_cpus

  unfoldable pub disk_fits : SchedulingSettings F → SchedulingRequest → Host F → Bool
  disk_fits config request h =
      null_or (i64_sum_le request.disk_bytes config.disk_headroom_bytes) h.disk_available_bytes

  unfoldable pub eligible :
      Db F → (ℕ → Bool) → SchedulingRequest → SchedulingSettings F → Host F → Bool
  eligible db locked request config h =
      not (locked h.id)
      && (is_up h.status
          && (null_or (has_pool db h) request.storage_pool_id
              && (not (elem h.id request.excluded_host_ids)
                  && (all (has_network db h) request.required_network_ids
                      && (null_or (λ arch. null_or (λ a. a == arch) h.architecture)
                            request.architecture
                          && (null_or (policy_admits db h) request.placement_policy
                              && (memory_fits db config request h
                                  && (vcpus_fit db config request h
                                      && (null_or
                                            (λ bytes. ltb config.memory_health_floor_bytes bytes)
                                            h.available_memory_bytes
                                          && (disk_fits config request h
                                              && null_or (has_gpus db h) request.gpu))))))))))

  -- `load_average ASC NULLS LAST`
  unfoldable pub cmp_load : Option F → Option F → Ordering
  cmp_load none none = eq
  cmp_load none (some y) = gt
  cmp_load (some x) none = lt
  cmp_load (some x) (some y) = if le x y then (if le y x then eq else lt) else gt

  unfoldable pub by_load : Host F → Host F → Ordering
  by_load a b = cmp_load a.load_average b.load_average

  unfoldable pub before : Db F → SchedulingRequest → Host F → Host F → Ordering
  before db request a b =
      then_cmp (by_policy db request.placement_policy a b) (then_cmp (by_load a b) (by_name a b))

-- `ORDER BY … LIMIT 1`
unfoldable pub first_by {ℓ} : {A : Type ℓ} → (A → A → Ordering) → List A → Option A
first_by cmp [] = none
first_by cmp (x ∷ xs) = elim (first_by cmp xs) [
  | none ↦ some x
  | some y ↦ if is_le (cmp x y) then some x else some y
]

module _ (d : Double) where
  unfoldable pub pick_host :
      Db d.F → (ℕ → Bool) → SchedulingRequest → SchedulingSettings d.F → Option (Host d.F)
  pick_host db locked request config =
      first_by (before d db request) (filter (eligible d db locked request config) db.hosts)
