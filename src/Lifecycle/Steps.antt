-- ===== src/Lifecycle/Steps.antt =====
-- How the lookups of `start_vm_internal` and its setup end.
use qarax.Base.{
  ℕ, ◌+◌, ◌≤◌, ◌≡◌, refl, ap, ◌∙◌, sym, ◌⊎◌, inl, inr, some, List, [], ◌∷◌, ◌++◌, arith, Bool-cases,
  Option-cases, Error, sqlx, unprocessable_entity, codes, ok, err, Result-cases, ◌==◌, nat_ord,
  ==_iff,
}
use qarax.Db.{Vm, VmStatus, Host}
use qarax.Control.{
  Store, World, query, execute, get_vm, find_vm, find_host, tick, host_for_vm, create_job, new_job,
  JobType,
}
use qarax.Lifecycle.{same_status, start_setup}
use qarax.Lifecycle.Frame.{Frame, Frame-trans, Frame-tick}

module _ {F : Type 0} (w : World) where
  find_host-id :
      (id : ℕ) (hosts : List (Host F)) {h : Host F} → find_host id hosts ≡ some h → h.id ≡ id
  unfolding find_host
  find_host-id id [] e = cc
  find_host-id id (x ∷ xs) {h} e = elim (Bool-cases (x.id == id)) [
    | inl t ↦ ap (λ (y : Host F). y.id) (sym (injective (rw t at e))) ∙ (==_iff x.id id).0 t
    | inr f ↦ find_host-id id xs (rw f at e)
  ]
    where
      injective : {a b : Host F} → some a ≡ some b → a ≡ b
      injective q = cc q

  -- The host of a VM is read after the VM.
  pub host_for_vm-cases :
      (id : ℕ) (vm : Vm) (s : Store F)
      → find_vm id s.vms ≡ some vm
      → (t : Store F) × Frame s t
        × (t.vms ≡ s.vms)
        × (((h : Host F) × (host_for_vm w id s ≡ (ok h, t)) × (some h.id ≡ vm.host_id))
            ⊎ ((e : Error) × (host_for_vm w id s ≡ (err e, t))))
  unfolding host_for_vm get_vm query
  host_for_vm-cases id vm s found = elim (Bool-cases (w.db_answers s.calls)) [
    | inr f ↦ (tick s, Frame-tick s, refl, inr (sqlx, rw f refl))
    | inl t ↦ elim (Option-cases vm.host_id) [
      | inl n ↦ (
        tick s,
        Frame-tick s,
        refl,
        inr (unprocessable_entity (codes "VM has no assigned host"), rw (t, found, n) refl),
      )
      | inr host_id ↦ elim (Bool-cases (w.db_answers (s.calls + 1))) [
        | inr f ↦ (
          tick (tick s),
          Frame-trans (Frame-tick s) (Frame-tick (tick s)),
          refl,
          inr (sqlx, rw (t, found, host_id.1, f) refl),
        )
        | inl u ↦ elim (Option-cases (find_host host_id.0 s.hosts)) [
          | inl n ↦ (
            tick (tick s),
            Frame-trans (Frame-tick s) (Frame-tick (tick s)),
            refl,
            inr (
              unprocessable_entity (codes "assigned host not found"),
              rw (t, found, host_id.1, u, n) refl,
            ),
          )
          | inr h ↦ (
            tick (tick s),
            Frame-trans (Frame-tick s) (Frame-tick (tick s)),
            refl,
            inl (
              h.0,
              rw (t, found, host_id.1, u, h.1) refl,
              ap some (find_host-id host_id.0 s.hosts h.1) ∙ sym host_id.1,
            ),
          )
        ]
      ]
    ]
  ]

  pub create_job-cases :
      (job_type : JobType) (id : ℕ) (s : Store F)
      → (t : Store F) × (t.vms ≡ s.vms)
        × (t.tasks ≡ s.tasks)
        × (s.calls ≤ t.calls)
        × (((job : ℕ) × (create_job w job_type id s ≡ (ok job, t)))
            ⊎ ((e : Error) × (create_job w job_type id s ≡ (err e, t))))
  unfolding create_job execute
  create_job-cases job_type id s = elim (Bool-cases (w.db_answers s.calls)) [
    | inr f ↦ (tick s, refl, refl, omega arith, inr (sqlx, rw f refl))
    | inl t ↦ (
      tick (record s { jobs = s.jobs ++ new_job (w.random_id s.calls) job_type id ∷ [] }),
      refl,
      refl,
      omega arith,
      inl (w.random_id s.calls, rw t refl),
    )
  ]

  -- The setup writes no VM and spawns no task.
  pub start_setup-cases :
      (vm_id : ℕ) (vm : Vm) (s : Store F)
      → (t : Store F) × (t.vms ≡ s.vms)
        × (t.tasks ≡ s.tasks)
        × (s.calls ≤ t.calls)
        × (((job : ℕ) × (start_setup w vm_id vm s
                ≡ (ok (same_status vm.status VmStatus.created, job), t)))
            ⊎ ((e : Error) × (start_setup w vm_id vm s ≡ (err e, t))))
  unfolding start_setup
  start_setup-cases vm_id vm s = elim (Bool-cases (same_status vm.status VmStatus.created)) [
    | inr n ↦
        let (t, v, k, l, r) = create_job-cases JobType.vm_start vm_id s in
        (
          t,
          v,
          k,
          l,
          elim r [
            | inl j ↦ inl (j.0, ground (arith, n, j.1))
            | inr e ↦ inr (e.0, ground (arith, n, e.1))
          ],
        )
    | inl c ↦ elim (Result-cases (w.can_build_request s.calls)) [
      | inr e ↦ (tick s, refl, refl, omega arith, inr (e.0, ground (arith, c, e.1)))
      | inl b ↦
          let (t, v, k, l, r) = create_job-cases JobType.vm_start vm_id (tick s) in
          (
            t,
            v,
            k,
            omega (arith, l),
            elim r [
              | inl j ↦ inl (j.0, ground (arith, c, b.1, j.1))
              | inr e ↦ inr (e.0, ground (arith, c, b.1, e.1))
            ],
          )
    ]
  ]
