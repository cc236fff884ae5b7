-- ===== src/Failover/Ticked.antt =====
-- A tick of the HA monitor spares the VMs that are not at risk.
use mathlib.Core.List.Memᴰ
use qarax.Base.{
  ℕ, ◌+◌, ◌≤◌, ◌≡◌, refl, inl, inr, false, some, List, [], ◌∷◌, Memᴰ, arith, Bool-cases,
  Option-cases, Result, ok, err, ltb, ◌==◌, nat_ord, ==_iff, of_mem-filter, not,
}
use qarax.Db.{Vm, Host}
use qarax.Schedule.{Double}
use qarax.Control.{Store, World, M, after, query, tick}
use qarax.Failover.{Inventory}
use qarax.Failover.Cycle.{
  HaSettings, MonitorState, Times, from_secs, elapsed, time_of, without, or_insert, unreachable,
  after_probe, visit, visit_each, visit_listed, run_cycle,
}
use qarax.Failover.Spared.{
  Since, noted, probed, Knows-later, Spares, Spares-tick, Knows, Good, Risky,
}
use qarax.Failover.Handled.{cleanup-Spares, failover_host-Good}

time_of-mem :
    (id : ℕ) (entries : Times) {since : ℕ}
    → time_of id entries ≡ some since
    → Memᴰ (id, since) entries
unfolding time_of
time_of-mem id [] h = cc h
time_of-mem id (e ∷ es) {since} h = elim (Bool-cases (e.0 == id)) [
  | inl t ↦ Memᴰ.head (pair ((==_iff e.0 id).0 t) (value (rw t at h)))
  | inr f ↦ Memᴰ.tail (time_of-mem id es (rw f at h))
]
  where
    value : {a b : ℕ} → some a ≡ some b → a ≡ b
    value q = cc q

    pair : {e : ℕ × ℕ} {a b : ℕ} → e.0 ≡ a → e.1 ≡ b → (a, b) ≡ e
    pair p q = cc (p, q)

module _ (d : Double) (inv : Inventory d.F) (w : World) (settings : HaSettings)
    (state : MonitorState) (s : Store d.F) where
  open d use {F}

  abbrev Spared : Store F → Type 0
  Spared = Spares d inv settings state s

  abbrev Known : MonitorState → ℕ → Type 0
  Known = Knows d inv settings state s

  abbrev Fine : Result MonitorState × Store F → Type 0
  Fine = Good d inv settings state s

  abbrev Risk : List Vm → ℕ → Type 0
  Risk = Risky d inv settings state s

  remove-Known :
      (st : MonitorState) (id last : ℕ)
      → Known st last
      → Known (record st { unreachable_since = without id st.unreachable_since }) last
  remove-Known st id last k e m =
      k e (of_mem-filter (λ (e : ℕ × ℕ). not (e.0 == id)) st.unreachable_since m).0

  -- The entry of a host whose probe failed, found or made.
  entry :
      (st : MonitorState) (id n : ℕ)
      → s.calls ≤ n
      → inv.is_reachable n id ≡ false
      → Known st (n + 1)
      → Since d inv settings state s id
          (or_insert id (inv.instant (n + 1)) st.unreachable_since).0
          (n + 1)
        × Known
            (record st {
              unreachable_since = (or_insert id (inv.instant (n + 1)) st.unreachable_since).1;
            })
            (n + 1)
  unfolding or_insert
  entry st id n l f k = elim (Option-cases (time_of id st.unreachable_since)) [
    | inr e ↦ rw (e.1, or_insert) (k (id, e.0) (time_of-mem id st.unreachable_since e.1), k)
    | inl e ↦
        let now : Since d inv settings state s id (inv.instant (n + 1)) (n + 1) =
          probed n l (omega arith) f refl in
        rw (e, or_insert)
          (
            now,
            λ x m. elim (Memᴰ.cases_cons m) [
              | inl q ↦ rw q now
              | inr r ↦ remove-Known st id (n + 1) k x r
            ],
          )
  ]

  unreachable-Good :
      (host : Host F) (st : MonitorState) (t : Store F)
      → inv.is_reachable t.calls host.id ≡ false
      → Spared t
      → Known st t.calls
      → Fine (unreachable d inv w settings host st (tick t))
  unfolding unreachable
  unreachable-Good host st t failed p k =
      let p' = Spares-tick d inv settings state s p in
      let (since, known) =
        entry st host.id t.calls p.later failed
          (Knows-later d inv settings state s st (omega arith) k) in
      elim (Bool-cases (
        ltb
          (elapsed (inv.instant (t.calls + 1))
            (or_insert host.id (inv.instant (t.calls + 1)) st.unreachable_since).0)
          (from_secs settings.failover_grace_seconds))) [
            | inl young ↦ rw young (p', known)
            | inr old ↦ rw old (
                failover_host-Good d inv w settings state s host _ (tick t) p' known (record {
                  since = (or_insert host.id (inv.instant (t.calls + 1)) st.unreachable_since).0;
                  known = since;
                  probe = t.calls;
                  after = p.later;
                  before = omega arith;
                  failed = failed;
                  grace = ground (arith, old);
                }))
          ]

  visit-Good :
      (host : Host F) (st : MonitorState) (t : Store F)
      → Spared t
      → Known st t.calls
      → Fine (visit d inv w settings host st t)
  unfolding visit after_probe
  visit-Good host st t p k = elim (Bool-cases (inv.is_reachable t.calls host.id)) [
    | inl reached ↦
        let (u, e, q, l) =
          cleanup-Spares d inv w settings state s host (tick t)
            (Spares-tick d inv settings state s p) in
        rw (reached, e)
          (
            q,
            Knows-later d inv settings state s
                (record st { unreachable_since = without host.id st.unreachable_since })
                (omega (arith, l)) (remove-Known st host.id t.calls k),
          )
    | inr failed ↦ rw failed (unreachable-Good host st t failed p k)
  ]

  Good-bind :
      (next : MonitorState → M F MonitorState) (r : Result MonitorState × Store F)
      → Fine r
      → ((st : MonitorState) (u : Store F) → Spared u → Known st u.calls → Fine (next st u))
      → Fine (after next r)
  Good-bind next (ok st, u) (p, k) h = h st u p k
  Good-bind next (err e, u) p h = p

  visit_each-Good :
      (hosts : List (Host F)) (st : MonitorState) (t : Store F)
      → Spared t
      → Known st t.calls
      → Fine (visit_each d inv w settings hosts st t)
  unfolding visit_each
  visit_each-Good [] st t p k = (p, k)
  visit_each-Good (host ∷ hosts) st t p k =
      Good-bind (visit_each d inv w settings hosts) (visit d inv w settings host st t)
        (visit-Good host st t p k) (λ st' u p' k'. visit_each-Good hosts st' u p' k')

of_Good :
    (d : Double) (inv : Inventory d.F) (w : World) (settings : HaSettings) (state : MonitorState)
    (s : Store d.F) (r : Result MonitorState × Store d.F)
    → Good d inv settings state s r
    → Spares d inv settings state s r.1
of_Good d inv w settings state s (ok st, t) p = p.0
of_Good d inv w settings state s (err e, t) p = p

-- A tick of the monitor leaves the row of a VM alone and adds none, unless the VM bears the mark of a
-- failover, or is highly available with a status that fails over and its host failed a probe of the
-- tick at least the grace period after it was first found unreachable.
pub run_cycle-Spares :
    (d : Double) (inv : Inventory d.F) (w : World) (settings : HaSettings) (state : MonitorState)
    (s : Store d.F)
    → Spares d inv settings state s (run_cycle d inv w settings state s).1
unfolding run_cycle visit_listed query
run_cycle-Spares d inv w settings state s = elim (Bool-cases (w.db_answers s.calls)) [
  | inr f ↦ rw f (Spares-tick d inv settings state s start)
  | inl answered ↦ rw answered (
      of_Good d inv w settings state s _ (
        visit_each-Good d inv w settings state s _ _ (tick s)
          (Spares-tick d inv settings state s start)
          (λ e m. noted (of_mem-filter _ state.unreachable_since m).0)))
]
  where
    start : Spares d inv settings state s s
    start = record { later = omega arith; kept = λ v m safe. m; only = λ v m safe. m }
