-- ===== src/Schedule/Preference.antt =====
-- What the soft part of a placement policy gives the VM that is placed.
use qarax.Base.{
  ℕ, ◌+◌, ◌^◌, ◌≤◌, ◌<◌, ◌≡◌, refl, Bool, true, ◌≢◌, some, [], Ordering, lt, eq, gt, is_le, arith,
  subst, then_cmp,
}
use qarax.Db.{Host, Db}
use qarax.Schedule.{
  Double, PlacementPolicy, SchedulingRequest, SchedulingSettings, contains_labels, count_tagged,
  by_labels, by_affinity, by_spread, by_policy, before, pick_host, by_load, by_name,
}
use qarax.Schedule.Laws.{IsOrdered, Candidate, Picks, pick_host-Picks}

is_le_of_then : (a b : Ordering) → is_le (then_cmp a b) ≡ true → is_le a ≡ true
is_le_of_then lt b h = refl
is_le_of_then eq b h = refl
is_le_of_then gt b h = h

module _ (d : Double) (o : IsOrdered d) (db : Db d.F) (locked : ℕ → Bool)
    (request : SchedulingRequest) (config : SchedulingSettings d.F)
    (bound : request.disk_bytes + config.disk_headroom_bytes < 2 ^ 63) (policy : PlacementPolicy)
    (asked : request.placement_policy ≡ some policy) (h : Host d.F)
    (picked : pick_host d db locked request config ≡ some h) where
  precedes :
      (other : Host d.F)
      → Candidate d db locked request config other
      → is_le (by_policy db (some policy) h other) ≡ true
  unfolding before
  precedes other c =
      let best =
        subst (Picks d db locked request config) picked
          (pick_host-Picks d o db locked request config bound) in
      let le =
        subst
          (λ p.
            is_le
              (then_cmp (by_policy db p h other) (then_cmp (by_load d h other) (by_name h other)))
            ≡ true)
          asked (best.1 other c) in
      is_le_of_then (by_policy db (some policy) h other) _ le

  -- Under a placement policy, for the host that was picked and any other candidate: if the other
  -- carries all preferred labels then so does the picked host; among candidates that are equal in
  -- this, with affinity tags given, no other runs more active VMs with all of those tags; and among
  -- candidates equal in this too, with spread tags given, no other runs fewer with all of those.
  pub picked_preference :
      (other : Host d.F)
      → Candidate d db locked request config other
      → (contains_labels other.placement_labels policy.preferred_host_labels ≡ true
          → contains_labels h.placement_labels policy.preferred_host_labels ≡ true)
        × (by_labels policy h other ≡ eq
            → policy.affinity_tags ≢ []
            → count_tagged db policy.affinity_tags other ≤ count_tagged db policy.affinity_tags h)
        × (by_labels policy h other ≡ eq
            → by_affinity db policy h other ≡ eq
            → policy.spread_tags ≢ []
            → count_tagged db policy.spread_tags h ≤ count_tagged db policy.spread_tags other)
  unfolding by_policy by_labels by_affinity by_spread
  picked_preference other c =
      let le = precedes other c in (ground arith, ground arith, ground arith)
