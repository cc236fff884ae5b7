-- ===== src/Relocate.antt =====
-- The search for a new host of an existing VM: `pick_failover_host` of qarax/src/ha_monitor.rs and
-- `pick_evacuation_plan` of qarax/src/handlers/host/handler.rs. Both loop over `pick_host_tx` and
-- exclude each host that turns out not to serve. What the database answers in a round is given by
-- the round's number, since other transactions commit between the rounds.
pub mod Laws
pub mod Exhaustive
pub mod Targets
use qarax.Base.{
  ℕ, zero, suc, Bool, true, false, Option, none, some, List, [], ◌∷◌, ◌++◌, if◌then◌else◌, Text,
  codes, Error, unprocessable_entity, sqlx, not_found, conflict, Result, ok, err, ◌>>=◌,
}
use qarax.Db.{Host, Vm, Db}
use qarax.Schedule.{
  Double, GpuRequest, PlacementPolicy, SchedulingRequest, SchedulingSettings, pick_host,
}

-- What a loop does with a candidate.
pub data Verdict {ℓ} (A : Type ℓ) : Type ℓ where
  accept : A → Verdict A
  reject : Option Text → Verdict A
  fail : Error → Verdict A

abbrev pub quote : Text → Text
quote s = codes "'" ++ (s ++ codes "'")

abbrev pub detail : Option Text → Text
detail none = []
detail (some reason) = codes ": " ++ reason

unfoldable pub no_destination : Text → Option Text → Error
no_destination name last_reason =
    unprocessable_entity
      (codes "no eligible destination host found for VM " ++ (quote name ++ detail last_reason))

-- The reason of the round, or the one before it.
abbrev pub or_last : Option Text → Option Text → Option Text
or_last none last = last
or_last (some reason) last = some reason

-- A round's transaction: it fails, or it reads the tables and the rows that others hold locked.
pub record Round (F : Type 0) : Type 0 where
  pub db : Db F
  pub locked : ℕ → Bool

module _ {ℓ} (d : Double) {A : Type ℓ} where
  open d use {F}

  -- `none` when the fuel is used up.
  pub choose :
      (ℕ → Result (Round F))
      → SchedulingSettings F
      → SchedulingRequest
      → Text
      → (ℕ → Host F → Verdict A)
      → ℕ
      → ℕ
      → List ℕ
      → Option Text
      → Option (Result A)
  choose world config base name try zero round excluded last = none
  choose world config base name try (suc fuel) round excluded last = elim (world round) [
    | err e ↦ some (err e)
    | ok r ↦
        elim (pick_host d r.db r.locked (record base { excluded_host_ids = excluded }) config) [
          | none ↦ some (err (no_destination name last))
          | some candidate ↦ elim (try round candidate) [
            | accept a ↦ some (ok a)
            | fail e ↦ some (err e)
            | reject reason ↦
                choose world config base name try fuel (suc round) (excluded ++ candidate.id ∷ [])
                  (or_last reason last)
          ]
        ]
  ]

-- The request of `evacuation_scheduling_request`; `networks` are the distinct networks of the VM's
-- interfaces, and the architecture and the policy are those persisted in the VM's config.
unfoldable pub evacuation_scheduling_request :
    Vm → List ℕ → Option Text → Option PlacementPolicy → ℕ → Option GpuRequest → SchedulingRequest
evacuation_scheduling_request vm networks architecture policy source_host_id gpu = record {
  memory_bytes = vm.memory_size;
  vcpus = vm.boot_vcpus;
  disk_bytes = 0;
  architecture = architecture;
  storage_pool_id = none;
  required_network_ids = networks;
  gpu = gpu;
  placement_policy = policy;
  excluded_host_ids = source_host_id ∷ [];
}

-- `has_pool host pool` answers `storage_pools::host_has_pool`.
unfoldable pub has_all_pools : (ℕ → ℕ → Result Bool) → ℕ → List ℕ → Result Bool
has_all_pools has_pool host [] = ok true
has_all_pools has_pool host (pool ∷ pools) = elim (has_pool host pool) [
  | err e ↦ err e
  | ok true ↦ has_all_pools has_pool host pools
  | ok false ↦ ok false
]

abbrev pub pools_verdict {ℓ} : {A : Type ℓ} → A → Result Bool → Verdict A
pools_verdict host (ok true) = accept host
pools_verdict host (ok false) = reject none
pools_verdict host (err e) = fail e

abbrev pub plan_verdict {ℓ} : {A : Type ℓ} → Result A → Verdict A
plan_verdict (ok plan) = accept plan
plan_verdict (err (unprocessable_entity reason)) = reject (some reason)
plan_verdict (err sqlx) = fail sqlx
plan_verdict (err e) = fail e

module _ (d : Double) where
  open d use {F}

  unfoldable pub pick_failover_host :
      (ℕ → Result (Round F))
      → SchedulingSettings F
      → (ℕ → ℕ → ℕ → Result Bool)
      → SchedulingRequest
      → Text
      → List ℕ
      → ℕ
      → Option (Result (Host F))
  pick_failover_host world config has_pool base name required fuel =
      choose d world config base name
        (λ round host. pools_verdict host (has_all_pools (has_pool round) host.id required)) fuel 0
        base.excluded_host_ids none

  unfoldable pub pick_evacuation_plan {ℓ} :
      {Plan : Type ℓ}
      → (ℕ → Result (Round F))
      → SchedulingSettings F
      → (ℕ → ℕ → Result Plan)
      → SchedulingRequest
      → Text
      → ℕ
      → Option (Result Plan)
  pick_evacuation_plan world config plan base name fuel =
      choose d world config base name (λ round host. plan_verdict (plan round host.id)) fuel 0
        base.excluded_host_ids none
