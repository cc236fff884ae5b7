-- ===== src/Failover/Handled.antt =====
-- The failover of a dead host and the cleanup of a host that is back spare the VMs that are not at risk.

use qarax.Base.{
  ℕ, ◌+◌, ◌≤◌, ◌≡◌, refl, inl, inr, List, [], ◌∷◌, Memᴰ, arith, Bool-cases, Result, ok, err,
  nat_ord, of_mem-filter, filter,
}
use qarax.Db.{Vm, Host}
use qarax.Schedule.{Double}
use qarax.Control.{Store, World, query, call_node, tick, Answer, Rpc}
use qarax.Failover.{Inventory}
use qarax.Failover.Attempt.{failover_vm, with_job, update_config, with_config}
use qarax.Failover.Touches.{Touches, failover_vm-Touches, write-Touches, same-Touches}
use qarax.Failover.Cycle.{
  HaSettings, MonitorState, from_secs, time_of, with_time, is_candidate, is_failed_over_from,
  list_by_host, is_recent, collect_failover_candidates, clear_marker, cleanup_each, cleanup_listed,
  cleanup_stale_copies, failover_one, failover_each, failover_listed, failover_host,
}
use qarax.Failover.Residents.{candidates_iff}
use qarax.Failover.Spared.{
  Overdue, AtRisk, stale, stranded, Knows-later, AtRisk-later, Spares, Spares-then, Spares-tick,
  Knows, Good, Risky, Risky-later,
}

module _ (d : Double) (inv : Inventory d.F) (w : World) where
  open d use {F}

  with_job-ok :
      (host : Host F) (vm : Vm) (r : Result ℕ) (t : Store F)
      → with_job d inv w vm host r t ≡ (ok tt, (with_job d inv w vm host r t).1)
  unfolding with_job
  with_job-ok host vm (err e) t = refl
  with_job-ok host vm (ok job_id) t = refl

  -- An attempt never fails, whatever becomes of it.
  pub failover_vm-ok :
      (host : Host F) (vm : Vm) (t : Store F)
      → (u : Store F) × (failover_vm d inv w vm host t ≡ (ok tt, u)) × Touches vm.id t u
  unfolding failover_vm
  failover_vm-ok host vm t = (_, with_job-ok host vm _ _, failover_vm-Touches d inv w vm host t)

  clear_marker-ok :
      (vm : Vm) (a : Answer) (t : Store F)
      → (u : Store F) × (clear_marker d inv w vm a t ≡ (ok tt, u)) × Touches vm.id t u
  unfolding clear_marker update_config
  clear_marker-ok vm (Answer.failure message) t = (t, refl, same-Touches vm.id refl (omega arith))
  clear_marker-ok vm Answer.absent t =
      (_, refl, write-Touches w vm.id (with_config _) (λ x. refl) t)
  clear_marker-ok vm Answer.done t = (_, refl, write-Touches w vm.id (with_config _) (λ x. refl) t)

module _ (d : Double) (inv : Inventory d.F) (w : World) (settings : HaSettings)
    (state : MonitorState) (s : Store d.F) where
  open d use {F}

  abbrev Spared : Store F → Type 0
  Spared = Spares d inv settings state s

  abbrev Known : MonitorState → ℕ → Type 0
  Known = Knows d inv settings state s

  abbrev Fine : Result MonitorState × Store F → Type 0
  Fine = Good d inv settings state s

  abbrev Risk : List Vm → ℕ → Type 0
  Risk = Risky d inv settings state s

  cleanup_each-Spares :
      (host : Host F) (vms : List Vm) (t : Store F)
      → Spared t
      → Risk vms t.calls
      → (u : Store F) × (cleanup_each d inv w host vms t ≡ (ok tt, u))
        × Spared u
        × (t.calls ≤ u.calls)
  unfolding cleanup_each call_node
  cleanup_each-Spares host [] t p r = (t, refl, p, omega arith)
  cleanup_each-Spares host (vm ∷ vms) t p r =
      let (u, e, q) =
        clear_marker-ok d inv w vm (w.node (t.calls + 1) host.id (Rpc.delete_vm vm.id))
          (tick (tick t)) in
      let p' =
        Spares-then d inv settings state s vm.id
          (Spares-tick d inv settings state s (Spares-tick d inv settings state s p)) q
          (λ no_risk.
            r vm (Memᴰ.head refl)
              (λ a. no_risk (AtRisk-later d inv settings state s (omega arith) a))) in
      let (v, e', p'', l) =
        cleanup_each-Spares host vms u p' (
          Risky-later d inv settings state s (omega (arith, q.later)) (λ x m. r x (Memᴰ.tail m))) in
      (v, rw e e', p'', omega (arith, q.later, l))

  pub cleanup-Spares :
      (host : Host F) (t : Store F)
      → Spared t
      → (u : Store F) × (cleanup_stale_copies d inv w host t ≡ (ok tt, u))
        × Spared u
        × (t.calls ≤ u.calls)
  unfolding cleanup_stale_copies cleanup_listed query
  cleanup-Spares host t p = elim (Bool-cases (w.db_answers t.calls)) [
    | inr f ↦ (tick t, rw f refl, Spares-tick d inv settings state s p, omega arith)
    | inl answered ↦
        let (u, e, q, l) =
          cleanup_each-Spares host (filter (is_failed_over_from inv.uuid host.id) t.vms) (tick t)
            (Spares-tick d inv settings state s p)
            (λ v m no_risk.
              let (n, marked) = of_mem-filter (is_failed_over_from inv.uuid host.id) t.vms m in
              let was =
                p.only v n (λ a. no_risk (AtRisk-later d inv settings state s (omega arith) a)) in
              no_risk (stale v host.id was refl marked)) in
        (u, rw answered e, q, omega (arith, l))
  ]

  failover_one-Good :
      (host : Host F) (vm : Vm) (st : MonitorState) (t : Store F)
      → Spared t
      → Known st t.calls
      → ¬ ¬ AtRisk d inv settings state s t.calls vm.id
      → (st' : MonitorState) × (u : Store F) × (failover_one d inv w settings host vm st t
          ≡ (ok st', u))
        × Spared u
        × Known st' u.calls
        × (t.calls ≤ u.calls)
  unfolding failover_one
  failover_one-Good host vm st t p k risk =
      elim (Bool-cases (
        is_recent (inv.instant t.calls) (from_secs settings.retry_cooldown_seconds)
          (time_of vm.id st.last_attempt))) [
            | inl recent ↦ (st, t, rw recent refl, p, k, omega arith)
            | inr due ↦
                let (u, e, q) = failover_vm-ok d inv w host vm t in
                (
                  record st {
                    last_attempt = with_time vm.id (inv.instant t.calls) st.last_attempt;
                  },
                  u,
                  rw (due, e) refl,
                  Spares-then d inv settings state s vm.id p q risk,
                  Knows-later d inv settings state s st q.later k,
                  q.later,
                )
          ]

  failover_each-Good :
      (host : Host F) (vms : List Vm) (st : MonitorState) (t : Store F)
      → Spared t
      → Known st t.calls
      → Risk vms t.calls
      → Fine (failover_each d inv w settings host vms st t)
  unfolding failover_each
  failover_each-Good host [] st t p k r = (p, k)
  failover_each-Good host (vm ∷ vms) st t p k r =
      let (st', u, e, p', k', l) = failover_one-Good host vm st t p k (r vm (Memᴰ.head refl)) in
      rw e (
        failover_each-Good host vms st' u p' k'
          (Risky-later d inv settings state s l (λ x m. r x (Memᴰ.tail m))))

  pub failover_host-Good :
      (host : Host F) (st : MonitorState) (t : Store F)
      → Spared t
      → Known st t.calls
      → Overdue d inv settings state s host.id t.calls
      → Fine (failover_host d inv w settings host st t)
  unfolding failover_host failover_listed collect_failover_candidates query
  failover_host-Good host st t p k o = elim (Bool-cases (w.db_answers t.calls)) [
    | inr f ↦ rw f (
      Spares-tick d inv settings state s p,
      Knows-later d inv settings state s st (omega arith) k,
    )
    | inl answered ↦ rw answered (
        failover_each-Good host (filter is_candidate (list_by_host host.id t.vms)) st (tick t)
          (Spares-tick d inv settings state s p)
          (Knows-later d inv settings state s st (omega arith) k)
          (λ v m no_risk.
            let (n, resident, candidate) = (candidates_iff host.id t.vms v).0 m in
            let before = λ (a : AtRisk d inv settings state s t.calls v.id).
              no_risk (AtRisk-later d inv settings state s (omega arith) a) in
            before (stranded v host.id (p.only v n before) refl candidate resident o)))
  ]
