-- ===== src/Examples/Schedule.antt =====
-- A cluster of two hosts, with doubles as natural numbers.
use qarax.Base.{
  ℕ, ◌-◌, ◌*◌, ◌≤◌, ◌≡◌, refl, ◌≢◌, Bool, true, false, none, some, [], ◌∷◌, Memᴰ, Text, codes, leb,
  arith, eq, ◌↔◌, ap, ◌&&◌, nat_beq, Result, ok, err, unprocessable_entity,
}
use qarax.Db.{Hypervisor, Host, Vm, Db, HostStatus, VmStatus}
use qarax.VmConfig.{Json}
use qarax.Schedule.{
  Double, PlacementPolicy, SchedulingRequest, SchedulingSettings, pick_host, contains_labels,
  count_tagged, by_labels, by_affinity, eligible, first_by, before, by_policy, by_spread, by_load,
  by_name, cmp_load, memory_fits, vcpus_fit, disk_fits, i64_sum_le, allocated_memory_bytes,
  allocated_vcpus, policy_admits,
}
use qarax.Schedule.Placeable.{IsPlaceable, eligible_iff}
use qarax.Schedule.Laws.{IsOrdered, Candidate, Picks, pick_host-Picks}
use qarax.Schedule.Preference.{picked_preference}
use qarax.Relocate.{Round, pick_failover_host, pick_evacuation_plan, evacuation_scheduling_request}
use qarax.Relocate.Targets.{
  FailsOver, Evacuates, pick_failover_host_complete, pick_evacuation_plan_complete,
}

abbrev pub naturals : Double
naturals = record { F = ℕ; of_ℕ = λ n. n; times = λ a b. a * b; minus = λ a b. a - b; le = leb }

leb-total : (a b : ℕ) → leb a b ≡ false → leb b a ≡ true
leb-total a b h = ground arith

leb_trans : (a b c : ℕ) → leb a b ≡ true → leb b c ≡ true → leb a c ≡ true
leb_trans a b c h k = ground arith

naturals-IsOrdered : IsOrdered naturals
naturals-IsOrdered = record { total = leb-total; trans = leb_trans }

abbrev pub host : ℕ → ℕ → Text → Host ℕ
host id load name = record {
  id = id;
  name = name;
  address = name;
  port = 50051;
  status = HostStatus.up;
  reservation_class = none;
  placement_labels = (codes "disk", codes "ssd") ∷ [];
  architecture = none;
  total_cpus = some 8;
  total_memory_bytes = some 16;
  available_memory_bytes = some 16;
  load_average = some load;
  disk_available_bytes = some 100;
}

abbrev cluster : Db ℕ
cluster = record {
  hosts = host 1 5 (codes "a") ∷ host 2 3 (codes "b") ∷ [];
  vms = [];
  host_gpus = [];
  host_storage_pools = [];
  host_networks = [];
}

abbrev ssd : PlacementPolicy
ssd = record {
  reservation_class = none;
  required_host_labels = [];
  preferred_host_labels = (codes "disk", codes "ssd") ∷ [];
  affinity_tags = [];
  anti_affinity_tags = [];
  spread_tags = [];
}

abbrev small : SchedulingRequest
small = record {
  memory_bytes = 4;
  vcpus = 2;
  disk_bytes = 10;
  architecture = none;
  storage_pool_id = none;
  required_network_ids = [];
  gpu = none;
  placement_policy = some ssd;
  excluded_host_ids = [];
}

abbrev settings : SchedulingSettings ℕ
settings = record {
  memory_oversubscription_ratio = 1;
  cpu_oversubscription_ratio = 4;
  disk_headroom_bytes = 10;
  memory_health_floor_bytes = 1;
}

abbrev nobody : ℕ → Bool
nobody id = false

-- The less loaded host is picked.
picks_b : pick_host naturals cluster nobody small settings ≡ some (host 2 3 (codes "b"))
unfolding pick_host eligible first_by before by_policy by_labels by_affinity by_spread by_load
    by_name cmp_load memory_fits vcpus_fit disk_fits i64_sum_le allocated_memory_bytes
    allocated_vcpus policy_admits
picks_b = refl

host_b-Candidate : Candidate naturals cluster nobody small settings (host 2 3 (codes "b"))
unfolding eligible memory_fits vcpus_fit disk_fits i64_sum_le allocated_memory_bytes allocated_vcpus
    policy_admits
host_b-Candidate = (
  Memᴰ.tail (Memᴰ.head refl),
  (eligible_iff naturals cluster nobody small settings (host 2 3 (codes "b")) (omega arith)).0 refl,
)

host_a-Candidate : Candidate naturals cluster nobody small settings (host 1 5 (codes "a"))
unfolding eligible memory_fits vcpus_fit disk_fits i64_sum_le allocated_memory_bytes allocated_vcpus
    policy_admits
host_a-Candidate = (
  Memᴰ.head refl,
  (eligible_iff naturals cluster nobody small settings (host 1 5 (codes "a")) (omega arith)).0 refl,
)

eligible_iff_example :
    (eligible naturals cluster nobody small settings (host 1 5 (codes "a")) ≡ true)
    ↔ IsPlaceable naturals cluster nobody small settings (host 1 5 (codes "a"))
eligible_iff_example =
    eligible_iff naturals cluster nobody small settings (host 1 5 (codes "a")) (omega arith)

pick_host-Picks_example :
    Picks naturals cluster nobody small settings (pick_host naturals cluster nobody small settings)
pick_host-Picks_example =
    pick_host-Picks naturals naturals-IsOrdered cluster nobody small settings (omega arith)

picked_preference_example :
    let a = host 1 5 (codes "a") in
    let b = host 2 3 (codes "b") in
    (contains_labels a.placement_labels ssd.preferred_host_labels ≡ true
      → contains_labels b.placement_labels ssd.preferred_host_labels ≡ true)
    × (by_labels ssd b a ≡ eq
        → ssd.affinity_tags ≢ []
        → count_tagged cluster ssd.affinity_tags a ≤ count_tagged cluster ssd.affinity_tags b)
    × (by_labels ssd b a ≡ eq
        → by_affinity cluster ssd b a ≡ eq
        → ssd.spread_tags ≢ []
        → count_tagged cluster ssd.spread_tags b ≤ count_tagged cluster ssd.spread_tags a)
picked_preference_example =
    picked_preference naturals naturals-IsOrdered cluster nobody small settings (omega arith) ssd
      refl (host 2 3 (codes "b")) picks_b (host 1 5 (codes "a")) host_a-Candidate

abbrev still : Round ℕ
still = record { db = cluster; locked = nobody }

abbrev resident : Vm
resident = record {
  id = 10;
  name = codes "vm";
  tags = [];
  host_id = some 1;
  status = VmStatus.running;
  hypervisor = Hypervisor.cloud_hv;
  boot_vcpus = 2;
  memory_size = 4;
  image_ref = none;
  config = Json.null;
}

-- The identifiers of the two hosts differ.
key : (h k : Host ℕ) → Memᴰ h cluster.hosts → Memᴰ k cluster.hosts → h.id ≡ k.id → h ≡ k
key h k (Memᴰ.head p) (Memᴰ.head q) e = cc
key h k (Memᴰ.head p) (Memᴰ.tail (Memᴰ.head q)) e =
    absurd (ground (arith, ap (λ (x : Host ℕ). x.id) p, ap (λ (x : Host ℕ). x.id) q))
key h k (Memᴰ.tail (Memᴰ.head p)) (Memᴰ.head q) e =
    absurd (ground (arith, ap (λ (x : Host ℕ). x.id) p, ap (λ (x : Host ℕ). x.id) q))
key h k (Memᴰ.tail (Memᴰ.head p)) (Memᴰ.tail (Memᴰ.head q)) e = cc
key h k (Memᴰ.head p) (Memᴰ.tail (Memᴰ.tail n)) e = elim n [ ]
key h k (Memᴰ.tail (Memᴰ.head p)) (Memᴰ.tail (Memᴰ.tail n)) e = elim n [ ]
key h k (Memᴰ.tail (Memᴰ.tail n)) _ e = elim n [ ]

-- Storage pool 4 is attached to host 2 only.
abbrev attached : ℕ → ℕ → Bool
attached h pool = nat_beq h 2 && nat_beq pool 4

pick_failover_host_complete_example :
    (result : Result (Host ℕ)) × (pick_failover_host naturals
        (λ _. ok still)
        settings
        (λ _ h p. ok (attached h p))
        (evacuation_scheduling_request resident [] none none 1 none)
        resident.name
        (4 ∷ [])
        3
      ≡ some result)
    × FailsOver naturals still settings resident [] none none 1 none attached (4 ∷ []) result
pick_failover_host_complete_example =
    pick_failover_host_complete naturals still settings resident [] none none 1 none (omega arith)
      key 3 (omega arith) attached (4 ∷ [])

-- Every host is refused.
abbrev refuse_all : ℕ → Result ℕ
refuse_all id = err (unprocessable_entity (codes "no"))

pick_evacuation_plan_complete_example :
    (result : Result ℕ) × (pick_evacuation_plan naturals
        (λ _. ok still)
        settings
        (λ _ id. refuse_all id)
        (evacuation_scheduling_request resident [] none none 1 none)
        resident.name
        3
      ≡ some result)
    × Evacuates naturals still settings resident [] none none 1 none refuse_all result
pick_evacuation_plan_complete_example =
    pick_evacuation_plan_complete naturals still settings resident [] none none 1 none (omega arith)
      key 3 (omega arith) refuse_all (λ id e is. (codes "no", cc))
