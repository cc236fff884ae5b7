-- ===== src/Lifecycle/Ending.antt =====
-- How the task that starts a VM ends.
use qarax.Base.{
  ℕ, ◌+◌, ◌≤◌, ◌≡◌, refl, ap, ◌∙◌, ◌⊎◌, inl, inr, Option, some, arith, Bool-cases, Option-cases,
  sqlx, internal_server_error, Error, Result, ok, err, Text,
}
use qarax.Db.{Vm}
use qarax.Control.{
  Store, World, query, execute, call_node, get_vm, tick, StartTask, mark_running, mark_completed,
  mark_failed, update_progress, find_sandbox,
}
use qarax.Lifecycle.{set_status, update_status}
use qarax.Lifecycle.Frame.{Lost, get_vm-cases, update_status-cases}
use qarax.Lifecycle.Task.{
  ensure_vm_start_allowed, restore, withdraw, vm_reason, sandbox_reason, disk_reason,
}

-- A later state with the same VMs.
pub record Still {F : Type 0} (s t : Store F) : Type 0 where
  pub same : t.vms ≡ s.vms
  pub later : s.calls ≤ t.calls

-- The end of a failure that puts the status back, unless that very write is lost.
pub data Reverts {F : Type 0} (w : World) (task : StartTask) (s t : Store F) : Type 0 where
  reverted : t.vms ≡ set_status task.vm_id task.original_status s.vms → Reverts w task s t
  stuck :
      {e : Error} (a : Store F)
      → Still s a
      → update_status w task.vm_id task.original_status a ≡ (err e, t)
      → t.vms ≡ s.vms
      → Lost w s t
      → Reverts w task s t

pub Still-refl : {F : Type 0} (s : Store F) → Still s s
Still-refl s = record { same = refl; later = omega arith }

pub Still-trans : {F : Type 0} {s t u : Store F} → Still s t → Still t u → Still s u
Still-trans p q = record { same = q.same ∙ p.same; later = omega (arith, p.later, q.later) }

pub Reverts-after :
    {F : Type 0} {w : World} {task : StartTask} {s t u : Store F}
    → Still s t
    → Reverts w task t u
    → Reverts w task s u
Reverts-after {task = task} p (reverted v) =
    reverted (v ∙ ap (set_status task.vm_id task.original_status) p.same)
Reverts-after p (stuck a q e v l) =
    let (n, x, y, unanswered) = l in
    stuck a (Still-trans p q) e (v ∙ p.same) (n, omega (arith, x, p.later), y, unanswered)

module _ {F : Type 0} (w : World) where
  pub execute-cases :
      (write : Store F → Store F) (s : Store F)
      → Still s (write s)
      → (t : Store F) × Still s t
        × ((execute w write s ≡ (ok tt, t)) ⊎ ((execute w write s ≡ (err sqlx, t)) × Lost w s t))
  unfolding execute
  execute-cases write s h = elim (Bool-cases (w.db_answers s.calls)) [
    | inl t ↦
        (tick (write s), record { same = h.same; later = omega (arith, h.later) }, inl (rw t refl))
    | inr f ↦ (
      tick s,
      record { same = refl; later = omega arith },
      inr (rw f refl, (s.calls, omega arith, omega arith, f)),
    )
  ]

  -- A write whose outcome is ignored.
  pub ignored-cases :
      (write : Store F → Store F) (s : Store F)
      → Still s (write s)
      → (r : Result (Unit {0})) × (t : Store F) × (execute w write s ≡ (r, t)) × Still s t
  ignored-cases write s h =
      let (t, q, c) = execute-cases write s h in
      elim c [ inl e ↦ (ok tt, t, e, q) | inr e ↦ (err sqlx, t, e.0, q) ]

  pub mark_failed-cases :
      (id : ℕ) (message : Text) (s : Store F)
      → (r : Result (Unit {0})) × (t : Store F) × (mark_failed w id message s ≡ (r, t)) × Still s t
  unfolding mark_failed
  mark_failed-cases id message s = ignored-cases _ s (record { same = refl; later = omega arith })

  pub update_progress-cases :
      (id progress : ℕ) (s : Store F)
      → (r : Result (Unit {0})) × (t : Store F) × (update_progress w id progress s ≡ (r, t))
        × Still s t
  unfolding update_progress
  update_progress-cases id progress s =
      ignored-cases _ s (record { same = refl; later = omega arith })

  pub mark_completed-cases :
      (id : ℕ) (s : Store F)
      → (r : Result (Unit {0})) × (t : Store F) × (mark_completed w id s ≡ (r, t)) × Still s t
  unfolding mark_completed
  mark_completed-cases id s = ignored-cases _ s (record { same = refl; later = omega arith })

  pub mark_running-cases :
      (id : ℕ) (s : Store F)
      → (t : Store F) × Still s t
        × ((mark_running w id s ≡ (ok tt, t))
            ⊎ ((mark_running w id s ≡ (err sqlx, t)) × Lost w s t))
  unfolding mark_running
  mark_running-cases id s = execute-cases _ s (record { same = refl; later = omega arith })

  pub restore-cases :
      (task : StartTask) (message : Text) (s : Store F)
      → (t : Store F) × (restore w task message s ≡ (err internal_server_error, t))
        × (s.calls ≤ t.calls)
        × Reverts w task s t
  restore-cases task message s =
      let (r, a, e, q) = mark_failed-cases task.job_id message s in
      let (t, frame, c) = update_status-cases w task.vm_id task.original_status a in
      elim c [
        | inl written ↦ (
          t,
          rw (e, written.0) refl,
          omega (arith, q.later, frame.later),
          Reverts-after q (reverted written.1),
        )
        | inr lost ↦ (
          t,
          rw (e, lost.1) refl,
          omega (arith, q.later, frame.later),
          Reverts-after q (stuck a (Still-refl a) lost.1 lost.2 lost.3),
        )
      ]

  pub withdraw-cases :
      (task : StartTask) (message : Text) (s : Store F)
      → (t : Store F) × (withdraw w task message s ≡ (err internal_server_error, t))
        × (s.calls ≤ t.calls)
        × Reverts w task s t
  unfolding call_node
  withdraw-cases task message s =
      let (r, a, e, q) = mark_failed-cases task.job_id message s in
      let (t, frame, c) = update_status-cases w task.vm_id task.original_status (tick a) in
      let q' : Still s (tick a) = record { same = q.same; later = omega (arith, q.later) } in
      elim c [
        | inl written ↦ (
          t,
          rw (e, written.0) refl,
          omega (arith, q.later, frame.later),
          Reverts-after q' (reverted written.1),
        )
        | inr lost ↦ (
          t,
          rw (e, lost.1) refl,
          omega (arith, q.later, frame.later),
          Reverts-after q' (stuck (tick a) (Still-refl (tick a)) lost.1 lost.2 lost.3),
        )
      ]

  attempt_get : (id : ℕ) (s : Store F) → (r : Result Vm) × (get_vm w id s ≡ (r, tick s))
  attempt_get id s = elim (get_vm-cases w id s) [ inl p ↦ (ok p.0, p.1) | inr p ↦ (err p.0, p.1) ]

  attempt_query :
      {A : Type 0} (read : Store F → A) (s : Store F)
      → (r : Result A) × (query w read s ≡ (r, tick s))
  unfolding query
  attempt_query read s = elim (Bool-cases (w.db_answers s.calls)) [
    | inl t ↦ (ok (read s), rw t refl)
    | inr f ↦ (err sqlx, rw f refl)
  ]

  -- The checks only read.
  pub allowed-cases :
      (vm_id : ℕ) (s : Store F)
      → (r : Option Text) × (t : Store F) × (ensure_vm_start_allowed w vm_id s ≡ (ok r, t))
        × Still s t
  unfolding ensure_vm_start_allowed
  allowed-cases vm_id s =
      let g = attempt_get vm_id s in
      elim (Option-cases (vm_reason w g.0)) [
        | inr some_reason ↦ (
          some some_reason.0,
          tick s,
          rw (g.1, some_reason.1) refl,
          record { same = refl; later = omega arith },
        )
        | inl no_reason ↦
            let b = attempt_query (λ (s : Store F). find_sandbox vm_id s.sandboxes) (tick s) in
            elim (Option-cases (sandbox_reason w b.0)) [
              | inr some_reason ↦ (
                some some_reason.0,
                tick (tick s),
                rw (g.1, no_reason, b.1, some_reason.1) refl,
                record { same = refl; later = omega arith },
              )
              | inl no_sandbox ↦ (
                disk_reason (w.disks_can_start (s.calls + 1 + 1)),
                tick (tick (tick s)),
                rw (g.1, no_reason, b.1, no_sandbox) refl,
                record { same = refl; later = omega arith },
              )
            ]
      ]
