-- ===== src/Relocate/Targets.antt =====
-- The hosts that failover and evacuation settle on.

use qarax.Base.{
  ℕ, ◌+◌, ◌^◌, ◌<◌, ◌≡◌, refl, ◌≢◌, inl, inr, Bool, true, Option, none, some, List, [], ◌∷◌, Memᴰ,
  Text, Error, unprocessable_entity, Result, ok, err, all, arith, length, all_of_mem, all-true,
  Bool-cases, subst, Result-cases,
}
use qarax.Db.{Host, Vm}
use qarax.Schedule.{Double, SchedulingSettings, SchedulingRequest, GpuRequest, PlacementPolicy}
use qarax.Schedule.Laws.{Candidate}
use qarax.Relocate.{
  Verdict, accept, fail, Round, has_all_pools, pools_verdict, plan_verdict,
  evacuation_scheduling_request, pick_failover_host, pick_evacuation_plan,
}
use qarax.Relocate.Exhaustive.{choose_complete, Finds}

-- With answers from the database the pools are checked to the end or to the first that is missing.
pub has_all_pools-all :
    (attached : ℕ → ℕ → Bool) (host : ℕ) (pools : List ℕ)
    → has_all_pools (λ h p. ok (attached h p)) host pools ≡ ok (all (attached host) pools)
unfolding has_all_pools
has_all_pools-all attached host [] = refl
has_all_pools-all attached host (p ∷ ps) = ground (arith, has_all_pools-all attached host ps)

module _ (d : Double) (r : Round d.F) (config : SchedulingSettings d.F) (vm : Vm)
    (networks : List ℕ) (architecture : Option Text) (policy : Option PlacementPolicy) (source : ℕ)
    (gpu : Option GpuRequest) where
  open d use {F}

  abbrev pub request : SchedulingRequest
  request = evacuation_scheduling_request vm networks architecture policy source gpu

  abbrev pub Destination : Host F → Type 0
  Destination = Candidate d r.db r.locked request config

  -- What a search for a failover host may end with.
  abbrev pub FailsOver : (ℕ → ℕ → Bool) → List ℕ → Result (Host F) → Type 0
  FailsOver attached required (ok h) =
      Destination h
      × (h.id ≢ source)
      × ((pool : ℕ) → Memᴰ pool required → attached h.id pool ≡ true)
  FailsOver attached required (err e) =
      (h : Host F) → Destination h → ¬ ((pool : ℕ) → Memᴰ pool required → attached h.id pool ≡ true)

  -- What a search for an evacuation plan may end with.
  abbrev pub Evacuates {ℓ} : {Plan : Type ℓ} → (ℕ → Result Plan) → Result Plan → Type ℓ
  Evacuates plan (ok p) = (h : Host F) × Destination h × (h.id ≢ source) × (plan h.id ≡ ok p)
  Evacuates {Plan = Plan} plan (err e) =
      (h : Host F) → Destination h → (p : Plan) → plan h.id ≢ ok p

module _ (d : Double) (r : Round d.F) (config : SchedulingSettings d.F) (vm : Vm)
    (networks : List ℕ) (architecture : Option Text) (policy : Option PlacementPolicy) (source : ℕ)
    (gpu : Option GpuRequest) (bound : config.disk_headroom_bytes < 2 ^ 63)
    (key : (h k : Host d.F) → Memᴰ h r.db.hosts → Memᴰ k r.db.hosts → h.id ≡ k.id → h ≡ k)
    (fuel : ℕ) (enough : length r.db.hosts < fuel) where
  open d use {F}

  Destination-ne :
      (h : Host F)
      → (Destination d r config vm networks architecture policy source gpu) h
      → h.id ≢ source
  unfolding evacuation_scheduling_request
  Destination-ne h c e = c.1.not_excluded (Memᴰ.head e)

  fits_i64 :
      (request d r config vm networks architecture policy source gpu).disk_bytes
        + config.disk_headroom_bytes
      < 2 ^ 63
  unfolding evacuation_scheduling_request
  fits_i64 = omega (arith, bound)

  module _ (attached : ℕ → ℕ → Bool) (required : List ℕ) where
    abbrev pools_try : Host F → Verdict (Host F)
    pools_try h = pools_verdict h (has_all_pools (λ h p. ok (attached h p)) h.id required)

    pools_try-accept :
        (h k : Host F) → pools_try h ≡ accept k → (h ≡ k) × (all (attached h.id) required ≡ true)
    pools_try-accept h k e = elim (Bool-cases (all (attached h.id) required)) [
      | inl t ↦ (ground (arith, has_all_pools-all attached h.id required, t), t)
      | inr f ↦ absurd (ground (arith, has_all_pools-all attached h.id required, f))
    ]

    pools_try-all : (h : Host F) → all (attached h.id) required ≡ true → pools_try h ≡ accept h
    pools_try-all h t = rw (has_all_pools-all attached h.id required, t)

    pools_try_sure : (h : Host F) (e : Error) → pools_try h ≢ fail e
    pools_try_sure h e x = ground (arith, has_all_pools-all attached h.id required)

    -- While the tables do not change, hosts are told apart by their identifiers, the headroom fits
    -- an `i64` and the fuel exceeds the number of hosts: the search for a failover host ends, with
    -- a host that the VM can be scheduled on, that is not the dead one and that has all required
    -- pools attached, or with an error if no such host exists.
    pub pick_failover_host_complete :
        (result : Result (Host F)) × (pick_failover_host d
            (λ _. ok r)
            config
            (λ _ h p. ok (attached h p))
            (request d r config vm networks architecture policy source gpu)
            vm.name
            required
            fuel
          ≡ some result)
        × FailsOver d r config vm networks architecture policy source gpu attached required result
    unfolding pick_failover_host
    pick_failover_host_complete =
        let (result, ends, finds) =
          choose_complete d r config (request d r config vm networks architecture policy source gpu)
            vm.name pools_try fits_i64 key pools_try_sure fuel
            (request d r config vm networks architecture policy source gpu).excluded_host_ids none
            enough in
        (result, ends, settle result finds)
      where
        settle :
            (result : Result (Host F))
            → Finds d r config
                (request d r config vm networks architecture policy source gpu)
                vm.name
                pools_try
                fits_i64
                key
                (request d r config vm networks architecture policy source gpu).excluded_host_ids
                result
            → FailsOver d r config vm networks architecture policy source gpu attached required
                result
        settle (ok h) (c, serves, e) =
            let (same, t) = pools_try-accept c h e in
            let s =
              subst (Destination d r config vm networks architecture policy source gpu) same
                serves in
            (
              s,
              Destination-ne h s,
              λ pool m.
                  all_of_mem (attached h.id) m
                    (subst (λ (k : Host F). all (attached k.id) required ≡ true) same t),
            )
        settle (err e) none_serves = λ h dest every.
            none_serves h dest h (pools_try-all h (all-true (attached h.id) required every))

  module _ {ℓ} {Plan : Type ℓ} (plan : ℕ → Result Plan)
      (refuses : (id : ℕ) (e : Error)
        → plan id ≡ err e
        → (reason : Text) × (e ≡ unprocessable_entity reason)) where
    plan_verdict-accept : (p : Result Plan) {a : Plan} → plan_verdict p ≡ accept a → p ≡ ok a
    plan_verdict-accept (ok b) h = ground arith
    plan_verdict-accept (err (unprocessable_entity reason)) h = cc
    plan_verdict-accept (err Error.sqlx) h = cc
    plan_verdict-accept (err e) h = cc

    plan_sure : (h : Host F) (e : Error) → plan_verdict (plan h.id) ≢ fail e
    plan_sure h e x = elim (Result-cases (plan h.id)) [
      | inl (p, is) ↦ ground (arith, is)
      | inr (e', is) ↦ let (reason, why) = refuses h.id e' is in ground (arith, is, why)
    ]

    -- The same for an evacuation, whose planner refuses a host with an unprocessable entity or
    -- plans the migration: the search ends with the plan for a host that the VM can be scheduled on
    -- and that is not the source, or with an error if the planner refuses every such host.
    pub pick_evacuation_plan_complete :
        (result : Result Plan) × (pick_evacuation_plan d
            (λ _. ok r)
            config
            (λ _ id. plan id)
            (request d r config vm networks architecture policy source gpu)
            vm.name
            fuel
          ≡ some result)
        × Evacuates d r config vm networks architecture policy source gpu plan result
    unfolding pick_evacuation_plan
    pick_evacuation_plan_complete =
        let (result, ends, finds) =
          choose_complete d r config (request d r config vm networks architecture policy source gpu)
            vm.name (λ (h : Host F). plan_verdict (plan h.id)) fits_i64 key plan_sure fuel
            (request d r config vm networks architecture policy source gpu).excluded_host_ids none
            enough in
        (result, ends, settle result finds)
      where
        settle :
            (result : Result Plan)
            → Finds d r config
                (request d r config vm networks architecture policy source gpu)
                vm.name
                (λ (h : Host F). plan_verdict (plan h.id))
                fits_i64
                key
                (request d r config vm networks architecture policy source gpu).excluded_host_ids
                result
            → Evacuates d r config vm networks architecture policy source gpu plan result
        settle (ok p) (c, serves, e) =
            (c, serves, Destination-ne c serves, plan_verdict-accept (plan c.id) e)
        settle (err e) none_serves = λ h dest p is. none_serves h dest p (ground (arith, is))
