-- ===== src/Failover/Spared.antt =====
-- Whom a tick of the HA monitor can touch.

use qarax.Base.{
  ℕ, ◌+◌, ◌≤◌, ◌<◌, ◌≡◌, subst, true, false, some, List, Memᴰ, arith, Result, ok, err, nat_ord,
}
use qarax.Db.{Vm}
use qarax.Schedule.{Double}
use qarax.Control.{Store, tick}
use qarax.Failover.{Inventory}
use qarax.Failover.Touches.{Touches}
use qarax.Failover.Cycle.{
  HaSettings, MonitorState, from_secs, elapsed, is_candidate, is_failed_over_from,
}

module _ (d : Double) (inv : Inventory d.F) (settings : HaSettings) (state : MonitorState)
    (s : Store d.F) where
  open d use {F}

  -- The instant at which the host was first found unreachable: noted before the cycle, or that of a probe
  -- of the cycle that failed.
  pub data Since (host_id since last : ℕ) : Type 0 where
    noted : Memᴰ (host_id, since) state.unreachable_since → Since host_id since last
    probed :
        (n : ℕ)
        → s.calls ≤ n
        → n < last
        → inv.is_reachable n host_id ≡ false
        → since ≡ inv.instant (n + 1)
        → Since host_id since last

  -- The host failed a probe of the cycle when the grace period was over.
  pub record Overdue (host_id last : ℕ) : Type 0 where
    pub since : ℕ
    pub known : Since host_id since last
    pub probe : ℕ
    pub after : s.calls ≤ probe
    pub before : probe < last
    pub failed : inv.is_reachable probe host_id ≡ false
    pub grace : from_secs settings.failover_grace_seconds ≤ elapsed (inv.instant (probe + 1)) since

  -- The VMs that the cycle may touch: the marked ones, and the candidates of a host that is overdue.
  pub data AtRisk (last id : ℕ) : Type 0 where
    stale :
        (v : Vm) (host_id : ℕ)
        → Memᴰ v s.vms
        → v.id ≡ id
        → is_failed_over_from inv.uuid host_id v ≡ true
        → AtRisk last id
    stranded :
        (v : Vm) (host_id : ℕ)
        → Memᴰ v s.vms
        → v.id ≡ id
        → is_candidate v ≡ true
        → v.host_id ≡ some host_id
        → Overdue host_id last
        → AtRisk last id

  pub Since-later : {host_id since m n : ℕ} → m ≤ n → Since host_id since m → Since host_id since n
  Since-later h (noted m) = noted m
  Since-later h (probed k a b f e) = probed k a (omega (arith, h, b)) f e

  pub AtRisk-later : {m n id : ℕ} → m ≤ n → AtRisk m id → AtRisk n id
  AtRisk-later h (stale v host_id m e t) = stale v host_id m e t
  AtRisk-later h (stranded v host_id m e c p o) = stranded v host_id m e c p (record {
    since = o.since;
    known = Since-later h o.known;
    probe = o.probe;
    after = o.after;
    before = omega (arith, h, o.before);
    failed = o.failed;
    grace = o.grace;
  })

  -- The rows that are not at risk are those of before.
  pub record Spares (t : Store F) : Type 0 where
    pub later : s.calls ≤ t.calls
    pub kept : (v : Vm) → Memᴰ v s.vms → ¬ AtRisk t.calls v.id → Memᴰ v t.vms
    pub only : (v : Vm) → Memᴰ v t.vms → ¬ AtRisk t.calls v.id → Memᴰ v s.vms

  pub Spares-then :
      {t u : Store F} (id : ℕ) → Spares t → Touches id t u → ¬ ¬ AtRisk t.calls id → Spares u
  Spares-then {t} {u} id p q risk = record {
    later = omega (arith, p.later, q.later);
    kept = λ v m safe.
        let before = λ (r : AtRisk t.calls v.id). safe (AtRisk-later q.later r) in
        q.kept v (p.kept v m before) (λ e. risk (subst (λ (i : ℕ). ¬ AtRisk t.calls i) e before));
    only = λ v m safe.
        let before = λ (r : AtRisk t.calls v.id). safe (AtRisk-later q.later r) in
        p.only v (q.only v m (λ e. risk (subst (λ (i : ℕ). ¬ AtRisk t.calls i) e before))) before;
  }

  pub Spares-tick : {t : Store F} → Spares t → Spares (tick t)
  Spares-tick p = record {
    later = omega (arith, p.later);
    kept = λ v m safe. p.kept v m (λ r. safe (AtRisk-later (omega arith) r));
    only = λ v m safe. p.only v m (λ r. safe (AtRisk-later (omega arith) r));
  }

  -- The entries of the map, and what is known after a step.
  abbrev pub Knows : MonitorState → ℕ → Type 0
  Knows st last = (e : ℕ × ℕ) → Memᴰ e st.unreachable_since → Since e.0 e.1 last

  pub Knows-later : (st : MonitorState) {m n : ℕ} → m ≤ n → Knows st m → Knows st n
  Knows-later st h k e m = Since-later h (k e m)

  abbrev pub Good : Result MonitorState × Store F → Type 0
  Good (ok st, t) = Spares t × Knows st t.calls
  Good (err e, t) = Spares t

  abbrev pub Risky : List Vm → ℕ → Type 0
  Risky vms last = (v : Vm) → Memᴰ v vms → ¬ ¬ AtRisk last v.id

  pub Risky-later : {vms : List Vm} {m n : ℕ} → m ≤ n → Risky vms m → Risky vms n
  Risky-later h r v k no_risk = r v k (λ a. no_risk (AtRisk-later h a))
