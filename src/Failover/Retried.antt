-- ===== src/Failover/Retried.antt =====
-- No candidate of a dead host is passed over.
use mathlib.Core.List.Memᴰ
use qarax.Base.{
  ℕ, ◌≤◌, ◌<◌, ◌≡◌, ◌≢◌, refl, ap, ◌∙◌, sym, inl, inr, ◌⊎◌, ◌↔◌, true, false, Option, some, none,
  List, [], ◌∷◌, Memᴰ, arith, Bool-cases, ok, ◌==◌, nat_ord, ==_iff, filter, ltb→lt, if◌then◌else◌,
}
use qarax.Db.{Vm, Host}
use qarax.Schedule.{Double}
use qarax.Control.{Store, World, tick, query}
use qarax.Failover.{Inventory}
use qarax.Failover.Cycle.{
  HaSettings, MonitorState, Times, from_secs, elapsed, time_of, without, with_time, is_recent,
  is_candidate, list_by_host, collect_failover_candidates, failover_one, failover_each,
  failover_listed, failover_host,
}
use qarax.Failover.Attempt.{failover_vm}
use qarax.Failover.Residents.{candidates_iff}
use qarax.Failover.Handled.{failover_vm-ok}

time_of-without :
    (id j : ℕ) (entries : Times) → j ≢ id → time_of j (without id entries) ≡ time_of j entries
unfolding time_of
time_of-without id j [] n = refl
time_of-without id j (e ∷ es) n = elim (Bool-cases (e.0 == id)) [
  | inr f ↦ rw f (ap (λ r. if e.0 == j then some e.1 else r) (time_of-without id j es n))
  | inl t ↦ elim (Bool-cases (e.0 == j)) [
    | inl u ↦ absurd (n (sym ((==_iff e.0 j).0 u) ∙ (==_iff e.0 id).0 t))
    | inr f ↦ rw t (rw f (time_of-without id j es n))
  ]
]

-- The VM was attempted at a moment between the two calls, or, at such a moment, less than the cooldown
-- before it.
pub record Recent {F : Type 0} (inv : Inventory F) (settings : HaSettings) (id first last : ℕ)
    (state : MonitorState) : Type 0 where
  pub time : ℕ
  pub entry : time_of id state.last_attempt ≡ some time
  pub moment : ℕ
  pub after : first ≤ moment
  pub before : moment ≤ last
  pub fresh :
      (time ≡ inv.instant moment)
      ⊎ (elapsed (inv.instant moment) time < from_secs settings.retry_cooldown_seconds)

module _ (d : Double) (inv : Inventory d.F) (w : World) (settings : HaSettings) where
  open d use {F}

  -- How the VMs are gone through: each one is passed over, where its last attempt is younger than the
  -- cooldown, or attempted, in the state that the one before has left.
  pub data Visits (host : Host F)
      : List Vm → MonitorState → Store F → MonitorState → Store F → Type 0 where
    ends : {st : MonitorState} {t : Store F} → Visits host [] st t st t
    cools :
        {vm : Vm} {vms : List Vm} {st st' : MonitorState} {t u : Store F} (time : ℕ)
        → time_of vm.id st.last_attempt ≡ some time
        → elapsed (inv.instant t.calls) time < from_secs settings.retry_cooldown_seconds
        → Visits host vms st t st' u
        → Visits host (vm ∷ vms) st t st' u
    attempts :
        {vm : Vm} {vms : List Vm} {st st' : MonitorState} {t x u : Store F}
        → failover_vm d inv w vm host t ≡ (ok tt, x)
        → Visits host vms
            (record st { last_attempt = with_time vm.id (inv.instant t.calls) st.last_attempt })
            x
            st'
            u
        → Visits host (vm ∷ vms) st t st' u

  Recent-within :
      {id first first' last last' : ℕ} {st : MonitorState}
      → first' ≤ first
      → last ≤ last'
      → Recent inv settings id first last st
      → Recent inv settings id first' last' st
  Recent-within a b r = record {
    time = r.time;
    entry = r.entry;
    moment = r.moment;
    after = omega (arith, a, r.after);
    before = omega (arith, b, r.before);
    fresh = r.fresh;
  }

  -- The entry of an attempt, for this VM and for another.
  attempted-Recent :
      (id vm_id first last n : ℕ) (st : MonitorState)
      → first ≤ n
      → n ≤ last
      → (vm_id ≡ id) ⊎ Recent inv settings vm_id first last st
      → Recent inv settings vm_id first last
          (record st { last_attempt = with_time id (inv.instant n) st.last_attempt })
  unfolding time_of
  attempted-Recent id vm_id first last n st a b c = elim (Bool-cases (id == vm_id)) [
    | inl t ↦ record {
      time = inv.instant n;
      entry = rw t refl;
      moment = n;
      after = a;
      before = b;
      fresh = inl refl;
    }
    | inr f ↦ elim c [
      | inl e ↦ absurd (differ (sym f ∙ (==_iff id vm_id).1 (sym e)))
      | inr r ↦ record {
        time = r.time;
        entry = rw f (
            time_of-without id vm_id st.last_attempt
              (λ e. differ (sym f ∙ (==_iff id vm_id).1 (sym e)))
            ∙ r.entry);
        moment = r.moment;
        after = r.after;
        before = r.before;
        fresh = r.fresh;
      }
    ]
  ]
    where
      differ : false ≡ true → ⊥
      differ q = cc q

  cooling :
      (now : ℕ) (o : Option ℕ) (duration : ℕ)
      → is_recent now duration o ≡ true
      → (time : ℕ) × (o ≡ some time) × (elapsed now time < duration)
  cooling now none duration h = cc h
  cooling now (some time) duration h = (time, refl, ltb→lt _ _ h)

  -- One VM: it is recent afterwards, and what was recent stays so.
  failover_one-Recent :
      (host : Host F) (vm : Vm) (st : MonitorState) (t : Store F)
      → (st' : MonitorState) × (u : Store F) × (failover_one d inv w settings host vm st t
          ≡ (ok st', u))
        × (t.calls ≤ u.calls)
        × ((first id : ℕ)
            → first ≤ t.calls
            → (id ≡ vm.id) ⊎ Recent inv settings id first t.calls st
            → Recent inv settings id first u.calls st')
        × ((vms : List Vm) (st'' : MonitorState) (y : Store F)
            → Visits host vms st' u st'' y
            → Visits host (vm ∷ vms) st t st'' y)
  unfolding failover_one
  failover_one-Recent host vm st t =
      elim (Bool-cases (
        is_recent (inv.instant t.calls) (from_secs settings.retry_cooldown_seconds)
          (time_of vm.id st.last_attempt))) [
            | inl recent ↦ (
              st,
              t,
              rw recent refl,
              omega arith,
              λ first id a c. elim c [
                | inr r ↦ r
                | inl e ↦
                    let (time, is, young) =
                      cooling (inv.instant t.calls) (time_of vm.id st.last_attempt)
                        (from_secs settings.retry_cooldown_seconds) recent in
                    record {
                      time = time;
                      entry = ap (λ i. time_of i st.last_attempt) e ∙ is;
                      moment = t.calls;
                      after = a;
                      before = omega arith;
                      fresh = inr young;
                    }
              ],
              λ vms st'' y v.
                  let (time, is, young) =
                    cooling (inv.instant t.calls) (time_of vm.id st.last_attempt)
                      (from_secs settings.retry_cooldown_seconds) recent in
                  cools time is young v,
            )
            | inr due ↦
                let (u, e, q) = failover_vm-ok d inv w host vm t in
                (
                  record st {
                    last_attempt = with_time vm.id (inv.instant t.calls) st.last_attempt;
                  },
                  u,
                  rw (due, e) refl,
                  q.later,
                  λ first id a c.
                      attempted-Recent vm.id id first u.calls t.calls st a q.later (elim c [
                        | inl same ↦ inl same
                        | inr r ↦ inr (Recent-within (omega arith) q.later r)
                      ]),
                  λ vms st'' y v. attempts e v,
                )
          ]

  failover_each-Recent :
      (host : Host F) (vms : List Vm) (st : MonitorState) (t : Store F)
      → (st' : MonitorState) × (u : Store F) × (failover_each d inv w settings host vms st t
          ≡ (ok st', u))
        × (t.calls ≤ u.calls)
        × ((first id : ℕ)
            → first ≤ t.calls
            → ((v : Vm) × Memᴰ v vms × (id ≡ v.id)) ⊎ Recent inv settings id first t.calls st
            → Recent inv settings id first u.calls st')
        × Visits host vms st t st' u
  unfolding failover_each
  failover_each-Recent host [] st t = (
    st,
    t,
    refl,
    omega arith,
    λ first id a c. elim c [ inl (v, m, e) ↦ absurd (Memᴰ.not-nil m) | inr r ↦ r ],
    ends,
  )
  failover_each-Recent host (vm ∷ vms) st t =
      let (st1, u, e, l, one, visit) = failover_one-Recent host vm st t in
      let (st2, x, e', l', rest, visits) = failover_each-Recent host vms st1 u in
      (
        st2,
        x,
        rw e e',
        omega (arith, l, l'),
        λ first id a c. elim c [
          | inr r ↦ rest first id (omega (arith, a, l)) (inr (one first id a (inr r)))
          | inl (v, m, is) ↦ elim (Memᴰ.cases_cons m) [
            | inl same ↦
                rest first id (omega (arith, a, l))
                  (inr (one first id a (inl (is ∙ ap (λ (y : Vm). y.id) same))))
            | inr later ↦ rest first id (omega (arith, a, l)) (inl (v, later, is))
          ]
        ],
        visit vms st2 x visits,
      )

  pub failover_host-Retries :
      (host : Host F) (state : MonitorState) (s : Store F)
      → w.db_answers s.calls ≡ true
      → (state' : MonitorState) × (t : Store F) × (failover_host d inv w settings host state s
          ≡ (ok state', t))
        × (candidates : List Vm) × Visits host candidates state (tick s) state' t
        × ((vm : Vm)
            → Memᴰ vm candidates
              ↔ (Memᴰ vm s.vms × (vm.host_id ≡ some host.id) × (is_candidate vm ≡ true)))
        × ((vm : Vm)
            → Memᴰ vm s.vms
            → vm.host_id ≡ some host.id
            → is_candidate vm ≡ true
            → Recent inv settings vm.id s.calls t.calls state')
  unfolding failover_host failover_listed collect_failover_candidates query
  failover_host-Retries host state s answered =
      let candidates = filter is_candidate (list_by_host host.id s.vms) in
      let (state', t, e, l, recent, visits) = failover_each-Recent host candidates state (tick s) in
      (
        state',
        t,
        rw answered e,
        candidates,
        visits,
        candidates_iff host.id s.vms,
        λ vm m on candidate.
            recent s.calls vm.id (omega arith)
              (inl (vm, (candidates_iff host.id s.vms vm).1 (m, on, candidate), refl)),
      )
