-- ===== src/Lifecycle/Start.antt =====
-- How `start_vm_internal` ends.

use qarax.Base.{
  ℕ, ◌≤◌, ◌≡◌, refl, ap, ◌∙◌, sym, inl, inr, some, List, [], ◌∷◌, ◌++◌, count_if, arith, Bool-cases,
  Error, Result, ok, err, Result-cases, ◌==◌, nat_ord, update_where, update_where_none,
  count_if_pos,
}
use qarax.Db.{Vm, VmStatus, Host}
use qarax.Control.{Store, World, M, attempt, ◌>>=◌, find_vm, tick, StartTask}
use qarax.Lifecycle.{
  set_status, is_vm, same_status, ensure_startable, start_vm_internal, start_setup, finish_start,
  ensure_host_matches_architecture, persisted_vm_architecture,
}
use qarax.Lifecycle.Frame.{Lost, get_vm-cases, update_status-cases}
use qarax.Lifecycle.Steps.{host_for_vm-cases, start_setup-cases}

-- The statuses from which a VM starts.
abbrev pub Startable : VmStatus → Type 0
Startable VmStatus.created = Unit
Startable VmStatus.shutdown = Unit
Startable VmStatus.unknown = Unit
Startable _ = ⊥

pub ensure_startable-Startable : (v : VmStatus) → ensure_startable v ≡ ok tt → Startable v
unfolding ensure_startable
ensure_startable-Startable VmStatus.unknown h = tt
ensure_startable-Startable VmStatus.pending h = cc
ensure_startable-Startable VmStatus.created h = tt
ensure_startable-Startable VmStatus.running h = cc
ensure_startable-Startable VmStatus.paused h = cc
ensure_startable-Startable VmStatus.shutdown h = tt
ensure_startable-Startable VmStatus.migrating h = cc
ensure_startable-Startable VmStatus.committing h = cc

set_status-absent :
    (id : ℕ) (v : VmStatus) (vms : List Vm)
    → count_if (is_vm id) vms ≤ 0
    → set_status id v vms ≡ vms
set_status-absent id v vms none_left = update_where_none (is_vm id) _ vms (λ vm m.
    elim (Bool-cases (is_vm id vm)) [
      | inr f ↦ f
      | inl t ↦ absurd (omega (arith, none_left, count_if_pos (is_vm id) m t))
    ])

some_injective : {a b : Vm} → some a ≡ some b → a ≡ b
some_injective h = cc h

-- The status of a row that has the identifier alone is put back by writing it.
set_status-restore :
    (id : ℕ) (v : VmStatus) (vm : Vm) (vms : List Vm)
    → count_if (is_vm id) vms ≤ 1
    → find_vm id vms ≡ some vm
    → set_status id vm.status (set_status id v vms) ≡ vms
unfolding find_vm update_where
set_status-restore id v vm [] keys h = refl
set_status-restore id v vm (x ∷ xs) keys h = elim (Bool-cases (x.id == id)) [
  | inl t ↦
      let none_left : count_if (is_vm id) xs ≤ 0 = omega (arith, (rw t at keys)) in
      let same : x ≡ vm = some_injective (rw t at h) in
      rw t (
        rw t (
          rw (set_status-absent id v xs none_left) (
            rw (set_status-absent id vm.status xs none_left) (
              ap (λ (s : VmStatus). record x { status = s } ∷ xs)
                (ap (λ (y : Vm). y.status) (sym same))))))
  | inr f ↦ rw f (rw f (ap (λ r. x ∷ r) (set_status-restore id v vm xs (rw f at keys) (rw f at h))))
]

-- How the call ends. `s` is the state before it.
pub data Starts {F : Type 0} (w : World) (vm_id : ℕ) (s : Store F)
    : Result ℕ × Store F → Type 0 where
  refused :
      {e : Error} {t : Store F} → t.vms ≡ s.vms → t.tasks ≡ s.tasks → Starts w vm_id s (err e, t)
  stranded :
      {e : Error} {t : Store F}
      → t.vms ≡ set_status vm_id VmStatus.pending s.vms
      → t.tasks ≡ s.tasks
      → Lost w s t
      → Starts w vm_id s (err e, t)
  spawned :
      {job : ℕ} {t : Store F} (vm : Vm) (task : StartTask)
      → find_vm vm_id s.vms ≡ some vm
      → Startable vm.status
      → t.vms ≡ set_status vm_id VmStatus.pending s.vms
      → t.tasks ≡ s.tasks ++ task ∷ []
      → task.job_id ≡ job
      → task.vm_id ≡ vm_id
      → task.original_status ≡ vm.status
      → task.creates ≡ same_status vm.status VmStatus.created
      → some task.host_id ≡ vm.host_id
      → Starts w vm_id s (ok job, t)

appended : {xs ys : List StartTask} (zs : List StartTask) → xs ≡ ys → xs ++ zs ≡ ys ++ zs
appended zs e = ap (λ (x : List StartTask). x ++ zs) e

module _ {F : Type 0} (w : World) where
  -- From the status `Pending` on: the setup, and what follows it.
  abbrev setup_and_finish : ℕ → Vm → Host F → M F ℕ
  setup_and_finish vm_id vm host = do
    setup ← attempt (start_setup w vm_id vm)
    finish_start w vm_id vm host setup

  setup-Starts :
      (vm_id : ℕ) (vm : Vm) (host : Host F) (s p : Store F)
      → find_vm vm_id s.vms ≡ some vm
      → count_if (is_vm vm_id) s.vms ≤ 1
      → Startable vm.status
      → some host.id ≡ vm.host_id
      → p.vms ≡ set_status vm_id VmStatus.pending s.vms
      → p.tasks ≡ s.tasks
      → s.calls ≤ p.calls
      → Starts w vm_id s (setup_and_finish vm_id vm host p)
  unfolding finish_start
  setup-Starts vm_id vm host s p found keys ready placed pending tasks later =
      let (t, v, k, l, r) = start_setup-cases w vm_id vm p in
      elim r [
        | inl j ↦ rw j.1 (
            spawned vm _ found ready (v ∙ pending) (appended _ (k ∙ tasks)) refl refl refl refl
              placed)
        | inr e ↦
            let (u, frame, c) = update_status-cases w vm_id vm.status t in
            rw e.1 (elim c [
              | inl written ↦ rw written.0 (
                  refused
                    (written.1
                      ∙ (ap (set_status vm_id vm.status) (v ∙ pending)
                          ∙ set_status-restore vm_id VmStatus.pending vm s.vms keys found))
                    (frame.tasks ∙ (k ∙ tasks)))
              | inr lost ↦
                  let (n, a, b, unanswered) = lost.3 in
                  rw lost.1 (
                    stranded (lost.2 ∙ (v ∙ pending)) (frame.tasks ∙ (k ∙ tasks))
                      (n, omega (arith, a, l, later), b, unanswered))
            ])
      ]

-- Where the identifier stands once in the table, a start either fails and leaves the VMs as they were,
-- or fails after a lost write and leaves the VM pending, or succeeds from a status that allows it,
-- with the VM pending and one task that knows the status to go back to and the host of the VM. It
-- spawns nothing where it fails.
pub start_vm_internal-Starts :
    {F : Type 0} (w : World) (vm_id : ℕ) (s : Store F)
    → count_if (is_vm vm_id) s.vms ≤ 1
    → Starts w vm_id s (start_vm_internal w vm_id s)
unfolding start_vm_internal
start_vm_internal-Starts w vm_id s keys = elim (get_vm-cases w vm_id s) [
  | inr e ↦ rw e.1 (refused refl refl)
  | inl g ↦ elim (Result-cases (ensure_startable g.0.status)) [
    | inr e ↦ rw (g.1, e.1) (refused refl refl)
    | inl r ↦
        let (t, frame, v, c) = host_for_vm-cases w vm_id g.0 (tick s) g.2 in
        elim c [
          | inr e ↦ rw (g.1, r.1, e.1) (refused v frame.tasks)
          | inl h ↦
              elim (Result-cases
                (ensure_host_matches_architecture h.0 (persisted_vm_architecture g.0))) [
                  | inr e ↦ rw (g.1, r.1, h.1, e.1) (refused v frame.tasks)
                  | inl a ↦ elim (Result-cases (w.disks_can_start t.calls)) [
                    | inr e ↦ rw (g.1, r.1, h.1, a.1, e.1) (refused v frame.tasks)
                    | inl d ↦
                        let (p, frame', u) =
                          update_status-cases w vm_id VmStatus.pending (tick t) in
                        elim u [
                          | inr lost ↦
                              rw (g.1, r.1, h.1, a.1, d.1, lost.1)
                                (refused (lost.2 ∙ v) (frame'.tasks ∙ frame.tasks))
                          | inl written ↦
                              rw (g.1, r.1, h.1, a.1, d.1, written.0)
                                (setup-Starts w vm_id g.0 h.0 s p g.2 keys
                                  (ensure_startable-Startable g.0.status r.1) h.2
                                  (written.1 ∙ ap (set_status vm_id VmStatus.pending) v)
                                  (frame'.tasks ∙ frame.tasks)
                                  (omega (arith, frame.later, frame'.later)))
                        ]
                  ]
                ]
        ]
  ]
]
