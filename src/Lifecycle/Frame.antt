-- ===== src/Lifecycle/Frame.antt =====
-- What the steps of a handler leave alone, and how each of them ends.
use qarax.Base.{
  ℕ, ◌+◌, ◌≤◌, ◌<◌, ◌≡◌, refl, ◌∙◌, ◌⊎◌, inl, inr, false, some, arith, Bool-cases, Option-cases,
  Error, sqlx, not_found, Result, ok, err,
}
use qarax.Db.{Vm, VmStatus}
use qarax.Control.{Store, World, query, execute, get_vm, find_vm, tick}
use qarax.Lifecycle.{update_status, report, set_status, same_status, enqueue, emit}

-- All but the VMs, the queue of hooks and the events.
pub record Frame {F : Type 0} (s t : Store F) : Type 0 where
  pub hosts : t.hosts ≡ s.hosts
  pub host_gpus : t.host_gpus ≡ s.host_gpus
  pub sandboxes : t.sandboxes ≡ s.sandboxes
  pub jobs : t.jobs ≡ s.jobs
  pub tasks : t.tasks ≡ s.tasks
  pub later : s.calls ≤ t.calls

-- A statement between two states that the database did not answer.
abbrev pub Lost : {F : Type 0} → World → Store F → Store F → Type 0
Lost w s t = (n : ℕ) × (s.calls ≤ n) × (n < t.calls) × (w.db_answers n ≡ false)

module _ {F : Type 0} where
  pub Frame-refl : (s : Store F) → Frame s s
  Frame-refl s = record {
    hosts = refl;
    host_gpus = refl;
    sandboxes = refl;
    jobs = refl;
    tasks = refl;
    later = omega arith;
  }

  pub Frame-trans : {s t u : Store F} → Frame s t → Frame t u → Frame s u
  Frame-trans p q = record {
    hosts = q.hosts ∙ p.hosts;
    host_gpus = q.host_gpus ∙ p.host_gpus;
    sandboxes = q.sandboxes ∙ p.sandboxes;
    jobs = q.jobs ∙ p.jobs;
    tasks = q.tasks ∙ p.tasks;
    later = omega (arith, p.later, q.later);
  }

  pub Frame-tick : (s : Store F) → Frame s (tick s)
  Frame-tick s = record {
    hosts = refl;
    host_gpus = refl;
    sandboxes = refl;
    jobs = refl;
    tasks = refl;
    later = omega arith;
  }

module _ {F : Type 0} (w : World) where
  -- A lookup reads the row, or fails.
  pub get_vm-cases :
      (id : ℕ) (s : Store F)
      → ((vm : Vm) × (get_vm w id s ≡ (ok vm, tick s)) × (find_vm id s.vms ≡ some vm))
        ⊎ ((e : Error) × (get_vm w id s ≡ (err e, tick s)))
  unfolding get_vm query
  get_vm-cases id s = elim (Bool-cases (w.db_answers s.calls)) [
    | inr f ↦ inr (sqlx, rw f refl)
    | inl t ↦ elim (Option-cases (find_vm id s.vms)) [
      | inl n ↦ inr (not_found, rw (t, n) refl)
      | inr r ↦ inl (r.0, rw (t, r.1) refl, r.1)
    ]
  ]

  attempt_get : (id : ℕ) (s : Store F) → (r : Result Vm) × (get_vm w id s ≡ (r, tick s))
  attempt_get id s = elim (get_vm-cases id s) [ inl p ↦ (ok p.0, p.1) | inr p ↦ (err p.0, p.1) ]

  report-Frame :
      (r : Result Vm) (status : VmStatus) (s : Store F)
      → (t : Store F) × (report w r status s ≡ (ok tt, t)) × (t.vms ≡ s.vms) × Frame s t
  unfolding report execute
  report-Frame (err e) status s = (s, refl, refl, Frame-refl s)
  report-Frame (ok vm) status s = elim (Bool-cases (same_status vm.status status)) [
    | inl same ↦ (s, rw same refl, refl, Frame-refl s)
    | inr changed ↦ elim (Bool-cases (w.db_answers s.calls)) [
      | inl t ↦ (
        tick (enqueue w vm status (emit w vm status s)),
        rw (changed, t) refl,
        refl,
        ground arith,
      )
      | inr f ↦ (tick (emit w vm status s), rw (changed, f) refl, refl, ground arith)
    ]
  ]

  pub update_status-cases :
      (id : ℕ) (status : VmStatus) (s : Store F)
      → (t : Store F) × Frame s t
        × (((update_status w id status s ≡ (ok tt, t)) × (t.vms ≡ set_status id status s.vms))
            ⊎ ((e : Error) × (update_status w id status s ≡ (err e, t))
                × (t.vms ≡ s.vms)
                × Lost w s t))
  unfolding update_status execute
  update_status-cases id status s =
      let g = attempt_get id s in
      elim (Bool-cases (w.db_answers (s.calls + 1))) [
        | inr f ↦ (
          tick (tick s),
          Frame-trans (Frame-tick s) (Frame-tick (tick s)),
          inr (sqlx, rw (g.1, f) refl, refl, (s.calls + 1, omega arith, omega arith, f)),
        )
        | inl a ↦
            let written = tick (record (tick s) { vms = set_status id status s.vms }) in
            let r = report-Frame g.0 status written in
            (r.0, Frame-trans {t = written} (ground arith) r.3, inl (rw (g.1, a) r.1, r.2))
      ]
