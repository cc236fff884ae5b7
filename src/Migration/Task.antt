-- ===== src/Migration/Task.antt =====
-- How the task of a migration ends.
use qarax.Base.{
  ◌≤◌, ◌≡◌, refl, ap, ◌∙◌, inl, inr, ◌⊎◌, Option, some, none, arith, update_where, Text,
}
use qarax.Control.{Store, World}
use qarax.Lifecycle.{is_vm, set_status}
use qarax.Lifecycle.Frame.{Lost}
use qarax.Lifecycle.Ending.{mark_running-cases, mark_completed-cases, mark_failed-cases}
use qarax.Failover.Attempt.{with_host}
use qarax.Failover.Changes.{status-Wrote}
use qarax.Migration.{PlannedVmMigration, MigrationTask, conclude_migration, run_migration}
use qarax.Migration.Execute.{
  Sent, Refused, on_target, Lost-within, both, host_only, status_only, neither, Executes, refuses,
  hands, execute-cases,
}

-- What becomes of the row. `s` is the state before, `t` after.
pub data Migrates {F : Type 0} (w : World) (plan : PlannedVmMigration F) (s t : Store F)
    : Type 0 where
  moved :
      Sent w plan s.calls t.calls
      → t.vms ≡ update_where (is_vm plan.vm_id) (on_target plan) s.vms
      → Migrates w plan s t
  -- The row is on the target, with its status of before.
  unsettled :
      Sent w plan s.calls t.calls
      → t.vms ≡ update_where (is_vm plan.vm_id) (with_host plan.target_host.id) s.vms
      → Lost w s t
      → Migrates w plan s t
  -- The target runs the VM, and the row names the source.
  unplaced :
      Sent w plan s.calls t.calls
      → t.vms ≡ set_status plan.vm_id plan.original_status s.vms
      → Lost w s t
      → Migrates w plan s t
  returned :
      Refused w plan
      → t.vms ≡ set_status plan.vm_id plan.original_status s.vms
      → Migrates w plan s t
  kept : t.vms ≡ s.vms → Lost w s t → Migrates w plan s t

module _ {F : Type 0} (w : World) (plan : PlannedVmMigration F) where
  settled :
      (r : Option Text) (s a b t : Store F)
      → a.vms ≡ s.vms
      → s.calls ≤ a.calls
      → Executes w plan a b r
      → t.vms ≡ b.vms
      → b.calls ≤ t.calls
      → r ≡ none
      → Migrates w plan s t
  settled r s a b t v l (refuses message refused same) e k q = cc q
  settled r s a b t v l (hands did m from later over) e k q =
      let did' : Sent w plan s.calls t.calls = record {
        received_at = did.received_at;
        sent_at = did.sent_at;
        after = omega (arith, l, did.after);
        in_order = did.in_order;
        before = omega (arith, k, did.before);
        receives = did.receives;
        sends = did.sends;
      } in
      elim over [
        | both x ↦
            moved did' (e ∙ (x ∙ ap (update_where (is_vm plan.vm_id) (on_target plan)) (from ∙ v)))
        | host_only x lost ↦
            unsettled did'
              (e
                ∙ (x
                    ∙ ap (update_where (is_vm plan.vm_id) (with_host plan.target_host.id))
                        (from ∙ v)))
              (Lost-within w s m b t (omega (arith, l, later)) k lost)
        | status_only x lost ↦
            unplaced did' (e ∙ (x ∙ ap (set_status plan.vm_id plan.original_status) (from ∙ v)))
              (Lost-within w s m b t (omega (arith, l, later)) k lost)
        | neither x lost ↦
            kept (e ∙ (x ∙ (from ∙ v))) (Lost-within w s m b t (omega (arith, l, later)) k lost)
      ]

-- The task of a migration ends in one of five ways. Both nodes did their part, and the row is on the
-- target with the status that the plan knows; or a node did not, and the row has that status and is
-- where it was. In the other three a statement was lost: both nodes did their part and the row is on
-- the target with the status it had, or they did and it names its host of before with the status that
-- the plan knows, or the rows are as before.
pub run_migration-Migrates :
    {F : Type 0} (w : World) (task : MigrationTask F) (s : Store F)
    → Migrates w task.plan s (run_migration w task s).1
unfolding run_migration conclude_migration
run_migration-Migrates w task s =
    let (a, q, c) = mark_running-cases w task.job_id s in
    elim c [
      | inr lost ↦ rw lost.0 (kept q.same lost.1)
      | inl running ↦
          let (r, b, e, l, did) = execute-cases w task.plan (some task.job_id) a in
          elim (outcome r) [
            | inl good ↦
                let (x, t, marked, p) = mark_completed-cases w task.job_id b in
                rw (running, e, good, marked)
                  (settled w task.plan r s a b t q.same q.later did p.same p.later good)
            | inr bad ↦
                let (x, t, marked, p) = mark_failed-cases w task.job_id bad.0 b in
                let z = status-Wrote w task.plan.vm_id task.plan.original_status t in
                rw (running, e, bad.1, marked, z.ends)
                  (failing r bad.0 s a b t z.after q.same q.later l did bad.1 p.same p.later
                    z.beside.later z.written)
          ]
    ]
  where
    outcome : (r : Option Text) → (r ≡ none) ⊎ ((message : Text) × (r ≡ some message))
    outcome none = inl refl
    outcome (some message) = inr (message, refl)

    failing :
        (r : Option Text) (message : Text) (s a b t u : Store _)
        → a.vms ≡ s.vms
        → s.calls ≤ a.calls
        → a.calls ≤ b.calls
        → Executes w task.plan a b r
        → r ≡ some message
        → t.vms ≡ b.vms
        → b.calls ≤ t.calls
        → t.calls ≤ u.calls
        → (u.vms ≡ set_status task.plan.vm_id task.plan.original_status t.vms)
          ⊎ ((u.vms ≡ t.vms) × Lost w t u)
        → Migrates w task.plan s u
    failing r message s a b t u v l l' (refuses m refused same) e x k k' (inl done) =
        returned refused
          (done ∙ ap (set_status task.plan.vm_id task.plan.original_status) (x ∙ (same ∙ v)))
    failing r message s a b t u v l l' (refuses m refused same) e x k k' (inr (still, lost)) =
        kept (still ∙ (x ∙ (same ∙ v)))
          (Lost-within w s t u u (omega (arith, l, l', k)) (omega arith) lost)
    failing r message s a b t u v l l' (hands did m from later over) e x k k' c = cc e
