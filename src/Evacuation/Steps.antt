-- ===== src/Evacuation/Steps.antt =====
-- The steps of an evacuation: what they keep, and which VM a plan is for.

use qarax.Base.{
  ℕ, ◌≡◌, refl, ap, ◌∙◌, sym, inl, inr, Option, some, none, List, [], ◌∷◌, arith, Bool-cases,
  Result, ok, err, Error, unprocessable_entity, sqlx, ◌==◌, nat_ord, ==_iff,
}
use qarax.Db.{Vm, VmStatus}
use qarax.Schedule.{Double, SchedulingRequest}
use qarax.Relocate.{pick_evacuation_plan, plan_verdict, accept}
use qarax.Relocate.Laws.{choose_sound}
use qarax.Control.{Store, World, query, execute, update_progress, call_node, find_vm, Rpc, Answer}
use qarax.Control.Rules.{
  IsFrame, Within, bind-Within, query-Within, call_node-Within, run-cases, of_bind,
}
use qarax.Control.Reads.{Reads, Reads-frame, vms-Reads, hosts-Reads}
use qarax.Lifecycle.{update_status}
use qarax.Lifecycle.Frame.{update_status-cases}
use qarax.Failover.{Inventory, request_of}
use qarax.Failover.Target.{ended-ok}
use qarax.Failover.Attempt.{update_host_id, with_host}
use qarax.Failover.Touches.{
  Touches, Touches-frame, same-Touches, update_status-Touches, row-Touches,
}
use qarax.Migration.{
  PlannedVmMigration, execute_planned_vm_migration, received, sent, hand_over, progress_of,
  plan_vm_migration,
}
use qarax.Migration.Plan.{plan_vm_migration-Plans}
use qarax.Evacuation.{evacuation_search, plan_evacuation}

-- The hosts stay, and all rows of VMs but those of one identifier.
pub record Keeps {F : Type 0} (id : ℕ) (s t : Store F) : Type 0 where
  pub hosts : t.hosts ≡ s.hosts
  pub rows : Touches id s t

pub Keeps-frame : {F : Type 0} (id : ℕ) → IsFrame (Keeps {F = F} id)
Keeps-frame id = record {
  stay = λ s. record { hosts = refl; rows = (Touches-frame id).stay s };
  chain =
      λ p q. record { hosts = q.hosts ∙ p.hosts; rows = (Touches-frame id).chain p.rows q.rows };
  ticks = λ s. record { hosts = refl; rows = (Touches-frame id).ticks s };
}

pub read-Keeps : {F : Type 0} (id : ℕ) {s t : Store F} → Reads s t → Keeps id s t
read-Keeps id r = record { hosts = hosts-Reads r; rows = same-Touches id (vms-Reads r) r.later }

module _ {F : Type 0} (w : World) (id : ℕ) where
  abbrev frame : IsFrame (Keeps {F = F} id)
  frame = Keeps-frame id

  pub status-Keeps : (status : VmStatus) → Within frame (update_status {F = F} w id status)
  status-Keeps status s =
      let (t, f, c) = update_status-cases w id status s in
      let rows = update_status-Touches w id status s in
      elim c [
        | inl done ↦ rw done.0 (record { hosts = f.hosts; rows = (rw done.0 at rows) })
        | inr lost ↦ rw lost.1 (record { hosts = f.hosts; rows = (rw lost.1 at rows) })
      ]

  host-Keeps : (host_id : ℕ) → Within frame (update_host_id {F = F} w id host_id)
  unfolding update_host_id execute
  host-Keeps host_id s = elim (Bool-cases (w.db_answers s.calls)) [
    | inl t ↦ rw t (record {
      hosts = refl;
      rows = row-Touches id (with_host host_id) (λ x. refl) refl (omega arith);
    })
    | inr f ↦ rw f (frame.ticks s)
  ]

  pub progress-Keeps : (job progress : ℕ) → Within frame (update_progress {F = F} w job progress)
  unfolding update_progress execute
  progress-Keeps job progress s = elim (Bool-cases (w.db_answers s.calls)) [
    | inl t ↦ rw t (record { hosts = refl; rows = same-Touches id refl (omega arith) })
    | inr f ↦ rw f (frame.ticks s)
  ]

  progress_of-Keeps :
      (job : Option ℕ) (progress : ℕ) → Within frame (progress_of {F = F} w job progress)
  unfolding progress_of
  progress_of-Keeps none progress = frame.stay
  progress_of-Keeps (some job_id) progress = progress-Keeps job_id progress

module _ {F : Type 0} (w : World) (plan : PlannedVmMigration F) where
  abbrev kept : IsFrame (Keeps {F = F} plan.vm_id)
  kept = Keeps-frame plan.vm_id

  hand_over-Keeps : Within kept (hand_over w plan)
  unfolding hand_over call_node
  hand_over-Keeps = λ s. kept.chain (host-Keeps w plan.vm_id plan.target_host.id s) (
      kept.chain (status-Keeps w plan.vm_id plan.original_status _)
        (call_node-Within kept w plan.source_host.id (Rpc.delete_vm plan.vm_id) _))

  sent-Keeps : (job : Option ℕ) (answer : Answer) → Within kept (sent w plan job answer)
  unfolding sent
  sent-Keeps job (Answer.failure message) = kept.stay
  sent-Keeps job Answer.absent = kept.stay
  sent-Keeps job Answer.done =
      bind-Within kept (progress_of w job 75) _ (progress_of-Keeps w plan.vm_id job 75)
        (λ progressed. bind-Within kept (hand_over w plan) _ hand_over-Keeps (λ handed. kept.stay))

  received-Keeps : (job : Option ℕ) (answer : Answer) → Within kept (received w plan job answer)
  unfolding received
  received-Keeps job (Answer.failure message) = kept.stay
  received-Keeps job Answer.absent = kept.stay
  received-Keeps job Answer.done =
      bind-Within kept (progress_of w job 25) _ (progress_of-Keeps w plan.vm_id job 25)
        (λ progressed.
          bind-Within kept (call_node w plan.source_host.id _) _
            (call_node-Within kept w plan.source_host.id _) (λ answer. sent-Keeps job answer))

  pub execute-Keeps : (job : Option ℕ) → Within kept (execute_planned_vm_migration w plan job)
  unfolding execute_planned_vm_migration
  execute-Keeps job =
      bind-Within kept (call_node w plan.target_host.id _) _
        (call_node-Within kept w plan.target_host.id _) (λ answer. received-Keeps job answer)

plan_verdict-accept : {A : Type 0} (p : Result A) {a : A} → plan_verdict p ≡ accept a → p ≡ ok a
plan_verdict-accept (ok b) h = ground arith
plan_verdict-accept (err (unprocessable_entity reason)) h = cc
plan_verdict-accept (err sqlx) h = cc
plan_verdict-accept (err e) h = cc

pub find_vm-id : (id : ℕ) (vms : List Vm) {vm : Vm} → find_vm id vms ≡ some vm → vm.id ≡ id
unfolding find_vm
find_vm-id id [] h = cc h
find_vm-id id (x ∷ xs) {vm} h = elim (Bool-cases (x.id == id)) [
  | inr f ↦ find_vm-id id xs (rw f at h)
  | inl t ↦ ap (λ (y : Vm). y.id) (sym (injective (rw t at h))) ∙ (==_iff x.id id).0 t
]
  where
    injective : {a b : Vm} → some a ≡ some b → a ≡ b
    injective q = cc q

module _ (d : Double) (inv : Inventory d.F) (w : World) where
  open d use {F}

  pub plan_evacuation-Reads :
      (vm : Vm) (source : ℕ) → Within Reads-frame (plan_evacuation d inv w vm source)
  unfolding plan_evacuation request_of
  plan_evacuation-Reads vm source =
      bind-Within Reads-frame (request_of d inv w vm source none) _ (request-Reads)
        (λ request. Reads-frame.ticks)
    where
      request-Reads : Within Reads-frame (request_of d inv w vm source none)
      request-Reads =
          bind-Within Reads-frame (query w _) _ (query-Within Reads-frame w _)
            (λ networks. Reads-frame.stay)

  search-vm_id :
      (request : SchedulingRequest) (vm : Vm) (s : Store F) {plan : PlannedVmMigration F}
      → evacuation_search d inv w request vm s ≡ some (ok plan)
      → plan.vm_id ≡ vm.id
  unfolding evacuation_search pick_evacuation_plan
  search-vm_id request vm s {plan} h =
      let c = choose_sound d _ _ _ _ _ _ _ _ _ h in
      let planned = plan_verdict-accept _ c.accepts in of_plan _ _ planned
    where
      of_plan :
          (host_id : ℕ) (u : Store F)
          → (plan_vm_migration w inv vm.id host_id u).0 ≡ ok plan
          → plan.vm_id ≡ vm.id
      of_plan host_id u e = elim (run-cases (plan_vm_migration w inv vm.id host_id) u) [
        | inl (p, t, ends) ↦
            (plan_vm_migration-Plans w inv vm.id host_id u (
              ends
              ∙ ap (λ r. (r, t))
                  (sym (ap (λ (x : Result (PlannedVmMigration F) × Store F). x.0) ends)
                    ∙ e))).same_vm
        | inr (x, t, ends) ↦
            absurd
              (differ (sym (ap (λ (x : Result (PlannedVmMigration F) × Store F). x.0) ends) ∙ e))
      ]
        where
          differ : {x : Error} → err x ≡ ok plan → ⊥
          differ q = cc q

  pub plan_evacuation-vm_id :
      (vm : Vm) (source : ℕ) (s : Store F) {plan : PlannedVmMigration F} {t : Store F}
      → plan_evacuation d inv w vm source s ≡ (ok plan, t)
      → plan.vm_id ≡ vm.id
  unfolding plan_evacuation
  plan_evacuation-vm_id vm source s {plan} h =
      let (request, u, e, k) = of_bind (request_of d inv w vm source none) _ s h in
      search-vm_id request vm u
        (ended-ok _ (ap (λ (r : Result (PlannedVmMigration F) × Store F). r.0) k))
