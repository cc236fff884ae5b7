-- ===== src/Evacuation/Single.antt =====
-- How `evacuate` fares with one resident VM.

use qarax.Base.{
  err, Error, ℕ, ◌≤◌, ◌≡◌, ap, ◌∙◌, subst, inl, inr, Option, none, arith, Result, ok, Text,
}
use qarax.Db.{Vm, VmStatus}
use qarax.Schedule.{Double}
use qarax.Control.{Store, World, after, tick, get_vm}
use qarax.Control.Rules.{run-cases}
use qarax.Control.Reads.{Reads}
use qarax.Lifecycle.{update_status}
use qarax.Lifecycle.Frame.{get_vm-cases, update_status-cases}
use qarax.Failover.{Inventory}
use qarax.Migration.{PlannedVmMigration}
use qarax.Migration.Execute.{Sent, Refused, Executes, refuses, hands, execute-cases}
use qarax.Evacuation.{
  EvacuationTask, Fate, evacuated, failed, plan_evacuation, with_outcome, with_status, with_plan,
  with_vm, evacuate_vm,
}
use qarax.Evacuation.Steps.{
  Keeps, Keeps-frame, read-Keeps, status-Keeps, execute-Keeps, plan_evacuation-Reads,
  plan_evacuation-vm_id, find_vm-id,
}

module _ (d : Double) (inv : Inventory d.F) (w : World) (task : EvacuationTask) where
  open d use {F}

  -- Why a VM is not moved: before a node is asked, a step fails; or a node does not do its part.
  pub data Stays (vm_id : ℕ) (s : Store F) : Type 0 where
    not_loaded : {e : Error} {t : Store F} → get_vm w vm_id s ≡ (err e, t) → Stays vm_id s
    not_planned :
        {vm : Vm} {e : Error} {t u : Store F}
        → get_vm w vm_id s ≡ (ok vm, t)
        → plan_evacuation d inv w vm task.host_id t ≡ (err e, u)
        → Stays vm_id s
    not_marked :
        {e : Error} {v : Store F} (u : Store F)
        → s.calls ≤ u.calls
        → update_status w vm_id VmStatus.migrating u ≡ (err e, v)
        → Stays vm_id s
    refused_by_node :
        (plan : PlannedVmMigration F) → plan.vm_id ≡ vm_id → Refused w plan → Stays vm_id s

  -- How one VM fares: both nodes say that it has been moved, or it stays.
  pub data Fates (vm_id : ℕ) (s t : Store F) : Fate → Type 0 where
    gone :
        {name : Text} (plan : PlannedVmMigration F)
        → plan.vm_id ≡ vm_id
        → Sent w plan s.calls t.calls
        → Fates vm_id s t (evacuated name)
    stays : {message : Text} → Stays vm_id s → Fates vm_id s t (failed message)

  pub evacuate_vm-cases :
      (vm_id : ℕ) (s : Store F)
      → (fate : Fate) × (t : Store F) × (evacuate_vm d inv w task vm_id s ≡ (ok fate, t))
        × Keeps vm_id s t
        × Fates vm_id s t fate
  unfolding evacuate_vm with_vm with_plan with_status with_outcome
  evacuate_vm-cases vm_id s = elim (get_vm-cases w vm_id s) [
    | inr g ↦ stop vm_id s (not_loaded g.1) (loaded vm_id s g.1) ((Keeps-frame vm_id).ticks s)
    | inl g ↦ elim (run-cases (plan_evacuation d inv w g.0 task.host_id) (tick s)) [
      | inr (e, u, ends) ↦
          stop vm_id s (not_planned g.1 ends)
            (loaded vm_id s g.1 ∙ ap (λ r. with_plan d inv w vm_id g.0 r.0 r.1) ends)
            ((Keeps-frame vm_id).chain ((Keeps-frame vm_id).ticks s)
              (read-Keeps vm_id (planned g.0 (tick s) ends)))
      | inl (plan, u, ends) ↦
          let k =
            (Keeps-frame vm_id).chain ((Keeps-frame vm_id).ticks s)
              (read-Keeps vm_id (planned g.0 (tick s) ends)) in
          let same =
            plan_evacuation-vm_id d inv w g.0 task.host_id (tick s) ends
            ∙ find_vm-id vm_id s.vms g.2 in
          let (v, f, c) = update_status-cases w vm_id VmStatus.migrating u in
          let set = status-Keeps w vm_id VmStatus.migrating u in
          let up_to = loaded vm_id s g.1 ∙ ap (λ r. with_plan d inv w vm_id g.0 r.0 r.1) ends in
          elim c [
            | inr lost ↦
                stop vm_id s (not_marked u k.rows.later lost.1)
                  (up_to ∙ ap (λ r. with_status d inv w vm_id g.0 plan r.0 r.1) lost.1)
                  ((Keeps-frame vm_id).chain k (rw lost.1 at set))
            | inl done ↦
                let (r, x, e, l, did) = execute-cases w plan none v in
                let k' = (Keeps-frame vm_id).chain k (rw done.0 at set) in
                let moves =
                  subst (λ (i : ℕ). Keeps i v x) same (rw e at (execute-Keeps w plan none v)) in
                of_result vm_id s u v x g.0 plan r
                  (up_to
                    ∙ (ap (λ r. with_status d inv w vm_id g.0 plan r.0 r.1) done.0
                        ∙ ap (λ r. after (with_outcome d inv w vm_id g.0 plan) r) e))
                  ((Keeps-frame vm_id).chain k' moves) same did (k'.rows.later)
          ]
    ]
  ]
    where
      stop :
          (vm_id : ℕ) (s : Store F) {message : Text} {t : Store F}
          → Stays vm_id s
          → evacuate_vm d inv w task vm_id s ≡ (ok (failed message), t)
          → Keeps vm_id s t
          → (fate : Fate) × (t : Store F) × (evacuate_vm d inv w task vm_id s ≡ (ok fate, t))
            × Keeps vm_id s t
            × Fates vm_id s t fate
      stop vm_id s {message} {t} why e k = (failed message, t, e, k, stays why)

      loaded :
          (vm_id : ℕ) (s : Store F) {r : Result Vm} {t : Store F}
          → get_vm w vm_id s ≡ (r, t)
          → evacuate_vm d inv w task vm_id s ≡ with_vm d inv w task vm_id r t
      loaded vm_id s e = ap (λ (p : Result Vm × Store F). with_vm d inv w task vm_id p.0 p.1) e

      planned :
          (vm : Vm) (x : Store F) {r : Result (PlannedVmMigration F)} {y : Store F}
          → plan_evacuation d inv w vm task.host_id x ≡ (r, y)
          → Reads x y
      planned vm x e =
          subst (λ (p : Result (PlannedVmMigration F) × Store F). Reads x p.1) e
            (plan_evacuation-Reads d inv w vm task.host_id x)

      of_result :
          (vm_id : ℕ) (s u v x : Store F) (vm : Vm) (plan : PlannedVmMigration F)
          → (r : Option Text)
          → evacuate_vm d inv w task vm_id s ≡ with_outcome d inv w vm_id vm plan r x
          → Keeps vm_id s x
          → plan.vm_id ≡ vm_id
          → Executes w plan v x r
          → s.calls ≤ v.calls
          → (fate : Fate) × (t : Store F) × (evacuate_vm d inv w task vm_id s ≡ (ok fate, t))
            × Keeps vm_id s t
            × Fates vm_id s t fate
      of_result vm_id s u v x vm plan r e k same (hands did m from l over) later = (
        _,
        x,
        e,
        k,
        gone plan same (record {
          received_at = did.received_at;
          sent_at = did.sent_at;
          after = omega (arith, later, did.after);
          in_order = did.in_order;
          before = did.before;
          receives = did.receives;
          sends = did.sends;
        }),
      )
      of_result vm_id s u v x vm plan r e k same (refuses message refused still) later = (
        _,
        _,
        e,
        (Keeps-frame vm_id).chain k (status-Keeps w vm_id plan.original_status x),
        stays (refused_by_node plan same refused),
      )
