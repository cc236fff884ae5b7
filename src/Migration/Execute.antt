-- ===== src/Migration/Execute.antt =====
-- What `execute_planned_vm_migration` leaves.
use qarax.Base.{
  ℕ, ◌≤◌, ◌<◌, ◌≡◌, ◌≢◌, refl, ap, ◌∙◌, sym, inl, inr, ◌⊎◌, Option, some, none, arith, update_where,
  update_where_twice, ok, Text,
}
use qarax.Db.{Vm}
use qarax.Control.{Store, World, call_node, tick, Rpc, Answer}
use qarax.Lifecycle.{is_vm, set_status}
use qarax.Lifecycle.Frame.{Lost}
use qarax.Lifecycle.Ending.{Still, update_progress-cases}
use qarax.Failover.Attempt.{with_host, update_host_id}
use qarax.Failover.Changes.{row-Wrote, status-Wrote}
use qarax.Migration.{
  PlannedVmMigration, progress_of, hand_over, sent, received, execute_planned_vm_migration,
}

-- Both nodes did their part, or one did not.
pub record Sent {F : Type 0} (w : World) (plan : PlannedVmMigration F) (first last : ℕ)
    : Type 0 where
  pub received_at : ℕ
  pub sent_at : ℕ
  pub after : first ≤ received_at
  pub in_order : received_at < sent_at
  pub before : sent_at < last
  pub receives :
      w.node received_at plan.target_host.id (Rpc.receive_migration plan.vm_id) ≡ Answer.done
  pub sends : w.node sent_at plan.source_host.id (Rpc.send_migration plan.vm_id) ≡ Answer.done

abbrev pub Refused : {F : Type 0} → World → PlannedVmMigration F → Type 0
Refused w plan =
    (n : ℕ) × ((w.node n plan.target_host.id (Rpc.receive_migration plan.vm_id) ≢ Answer.done)
      ⊎ (w.node n plan.source_host.id (Rpc.send_migration plan.vm_id) ≢ Answer.done))

abbrev pub on_target : {F : Type 0} → PlannedVmMigration F → Vm → Vm
on_target plan x = record x { host_id = some plan.target_host.id; status = plan.original_status }

pub Lost-within :
    {F : Type 0} (w : World) (r s t u : Store F)
    → r.calls ≤ s.calls
    → t.calls ≤ u.calls
    → Lost w s t
    → Lost w r u
Lost-within w r s t u p q l =
    let (n, a, b, unanswered) = l in (n, omega (arith, a, p), omega (arith, b, q), unanswered)

module _ {F : Type 0} (w : World) where
  progress_of-cases :
      (job : Option ℕ) (progress : ℕ) (s : Store F)
      → (t : Store F) × (progress_of w job progress s ≡ (ok tt, t)) × Still s t
  unfolding progress_of
  progress_of-cases none progress s = (s, refl, record { same = refl; later = omega arith })
  progress_of-cases (some job_id) progress s =
      let (r, t, e, q) = update_progress-cases w job_id progress s in (t, rw e refl, q)

  -- What the two writes after the migration leave.
  pub data HandsOver (plan : PlannedVmMigration F) (s t : Store F) : Type 0 where
    both : t.vms ≡ update_where (is_vm plan.vm_id) (on_target plan) s.vms → HandsOver plan s t
    host_only :
        t.vms ≡ update_where (is_vm plan.vm_id) (with_host plan.target_host.id) s.vms
        → Lost w s t
        → HandsOver plan s t
    status_only :
        t.vms ≡ set_status plan.vm_id plan.original_status s.vms → Lost w s t → HandsOver plan s t
    neither : t.vms ≡ s.vms → Lost w s t → HandsOver plan s t

  hand_over-cases :
      (plan : PlannedVmMigration F) (s : Store F)
      → (t : Store F) × (hand_over w plan s ≡ (ok tt, t)) × (s.calls ≤ t.calls) × HandsOver plan s t
  unfolding hand_over update_host_id call_node
  hand_over-cases plan s =
      let a = row-Wrote w plan.vm_id (with_host plan.target_host.id) s in
      let b = status-Wrote w plan.vm_id plan.original_status a.after in
      let l = a.beside.later in
      let m = b.beside.later in
      (
        tick b.after,
        rw (a.ends, b.ends) refl,
        omega (arith, l, m),
        elim a.written [
          | inl host ↦ elim b.written [
            | inl status ↦ both (
                status
                ∙ (ap (set_status plan.vm_id plan.original_status) host
                    ∙ update_where_twice (is_vm plan.vm_id) _ _ s.vms (λ x. refl)))
            | inr lost ↦
                host_only (lost.0 ∙ host)
                  (Lost-within w s a.after b.after (tick b.after) l (omega arith) lost.1)
          ]
          | inr lost ↦ elim b.written [
            | inl status ↦
                status_only (status ∙ ap (set_status plan.vm_id plan.original_status) lost.0)
                  (Lost-within w s s a.after (tick b.after) (omega arith) (omega (arith, m)) lost.1)
            | inr again ↦
                neither (again.0 ∙ lost.0)
                  (Lost-within w s s a.after (tick b.after) (omega arith) (omega (arith, m)) lost.1)
          ]
        ],
      )

  -- What the call of `execute_planned_vm_migration` leaves.
  pub data Executes (plan : PlannedVmMigration F) (s t : Store F) : Option Text → Type 0 where
    refuses : (message : Text) → Refused w plan → t.vms ≡ s.vms → Executes plan s t (some message)
    hands :
        Sent w plan s.calls t.calls
        → (m : Store F) → m.vms ≡ s.vms
        → s.calls ≤ m.calls
        → HandsOver plan m t
        → Executes plan s t none

  sent-cases :
      (plan : PlannedVmMigration F) (job : Option ℕ) (s a : Store F) (n : ℕ)
      → a.vms ≡ s.vms
      → s.calls ≤ n
      → n < a.calls
      → w.node n plan.target_host.id (Rpc.receive_migration plan.vm_id) ≡ Answer.done
      → (answer : Answer)
      → w.node a.calls plan.source_host.id (Rpc.send_migration plan.vm_id) ≡ answer
      → (r : Option Text) × (t : Store F) × (sent w plan job answer (tick a) ≡ (ok r, t))
        × (a.calls ≤ t.calls)
        × Executes plan s t r
  unfolding sent
  sent-cases plan job s a n v l m received (Answer.failure message) e =
      (_, tick a, refl, omega arith, refuses _ (a.calls, inr (λ q. differ (sym e ∙ q))) v)
    where
      differ : {x : Text} → Answer.failure x ≡ Answer.done → ⊥
      differ q = cc q
  sent-cases plan job s a n v l m received Answer.absent e =
      (_, tick a, refl, omega arith, refuses _ (a.calls, inr (λ q. differ (sym e ∙ q))) v)
    where
      differ : Answer.absent ≡ Answer.done → ⊥
      differ q = cc q
  sent-cases plan job s a n v l m received Answer.done e =
      let (b, p, q) = progress_of-cases job 75 (tick a) in
      let (t, h, k, o) = hand_over-cases plan b in
      (
        none,
        t,
        rw (p, h) refl,
        omega (arith, q.later, k),
        hands
            (record {
              received_at = n;
              sent_at = a.calls;
              after = l;
              in_order = m;
              before = omega (arith, q.later, k);
              receives = received;
              sends = e;
            })
            b (q.same ∙ v) (omega (arith, l, m, q.later)) o,
      )

  pub execute-cases :
      (plan : PlannedVmMigration F) (job : Option ℕ) (s : Store F)
      → (r : Option Text) × (t : Store F) × (execute_planned_vm_migration w plan job s ≡ (ok r, t))
        × (s.calls ≤ t.calls)
        × Executes plan s t r
  unfolding execute_planned_vm_migration received call_node
  execute-cases plan job s =
      of_answer (w.node s.calls plan.target_host.id (Rpc.receive_migration plan.vm_id)) refl
    where
      of_answer :
          (answer : Answer)
          → w.node s.calls plan.target_host.id (Rpc.receive_migration plan.vm_id) ≡ answer
          → (r : Option Text) × (t : Store F) × (received w plan job answer (tick s) ≡ (ok r, t))
            × (s.calls ≤ t.calls)
            × Executes plan s t r
      of_answer (Answer.failure message) e =
          (_, tick s, refl, omega arith, refuses _ (s.calls, inl (λ q. failed (sym e ∙ q))) refl)
        where
          failed : {x : Text} → Answer.failure x ≡ Answer.done → ⊥
          failed q = cc q
      of_answer Answer.absent e =
          (_, tick s, refl, omega arith, refuses _ (s.calls, inl (λ q. unknown (sym e ∙ q))) refl)
        where
          unknown : Answer.absent ≡ Answer.done → ⊥
          unknown q = cc q
      of_answer Answer.done e =
          let (a, p, q) = progress_of-cases job 25 (tick s) in
          let (r, t, h, l, o) =
            sent-cases plan job s a s.calls q.same (omega arith) (omega (arith, q.later)) e
              (w.node a.calls plan.source_host.id (Rpc.send_migration plan.vm_id)) refl in
          (r, t, rw (p, h) refl, omega (arith, q.later, l), o)
