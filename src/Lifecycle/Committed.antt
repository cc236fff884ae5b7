-- ===== src/Lifecycle/Committed.antt =====
-- How a commit ends.
use qarax.Base.{
  ℕ, ◌+◌, ◌≡◌, refl, ◌∙◌, inl, inr, Bool, true, false, Option, some, none, List, any, Bool-cases,
  Error, Result, ok, err, update_where_none, any-false_of,
}
use qarax.Db.{Vm}
use qarax.Control.{
  Store, World, M, ◌>>=◌, after, query, tick, get_vm, find_vm, host_for_vm, create_job, JobType,
  some_or,
}
use qarax.Lifecycle.Frame.{get_vm-cases}
use qarax.Lifecycle.Steps.{create_job-cases}
use qarax.Lifecycle.Commit.{
  Pools, CommitTask, can_commit, set_committing, try_set_committing, validate, accept, commit,
  require, internal, or_internal, is_some,
}

-- A program that writes no VM.
abbrev Reads : {F A : Type 0} → M F A → Type 0
Reads {F} m = (s : Store F) → (m s).1.vms ≡ s.vms

-- What is known of a result: the VMs, and the task where there is one.
data Accepts {F : Type 0} (vm : Vm) (vm_id : ℕ) (base : List Vm)
    : Result CommitTask × Store F → Type 0 where
  yes :
      {task : CommitTask} {t : Store F}
      → t.vms ≡ base
      → task.previous_status ≡ vm.status
      → task.vm_id ≡ vm_id
      → Accepts vm vm_id base (ok task, t)
  refusal : {e : Error} {t : Store F} → t.vms ≡ base → Accepts vm vm_id base (err e, t)

Accepts-after :
    {F A : Type 0} {vm : Vm} {vm_id : ℕ} {base : List Vm} (f : A → M F CommitTask)
    (r : Result A × Store F)
    → r.1.vms ≡ base
    → ((a : A) (t : Store F) → t.vms ≡ base → Accepts vm vm_id base (f a t))
    → Accepts vm vm_id base (after f r)
Accepts-after f (ok a, t) v k = k a t v
Accepts-after f (err e, t) v k = refusal v

Reads-after :
    {F A B : Type 0} {base : List Vm} (f : A → M F B) (r : Result A × Store F)
    → r.1.vms ≡ base
    → ((a : A) → Reads (f a))
    → (after f r).1.vms ≡ base
Reads-after f (ok a, t) v k = k a t ∙ v
Reads-after f (err e, t) v k = v

bind-Reads :
    {F A B : Type 0} (m : M F A) (f : A → M F B)
    → Reads m
    → ((a : A) → Reads (f a))
    → Reads (m >>= f)
bind-Reads m f p k s = Reads-after f (m s) (p s) k

require-Reads : {F : Type 0} (b : Bool) (e : Error) → Reads {F = F} (require b e)
unfolding require
require-Reads true e s = refl
require-Reads false e s = refl

some_or-Reads : {F A : Type 0} (o : Option A) (e : Error) → Reads {F = F} (some_or o e)
some_or-Reads none e s = refl
some_or-Reads (some a) e s = refl

internal-vms : {F A : Type 0} (r : Result A × Store F) → (internal r).1.vms ≡ r.1.vms
internal-vms (ok a, t) = refl
internal-vms (err e, t) = refl

module _ {F : Type 0} (w : World) where
  query-Reads : {A : Type 0} (read : Store F → A) → Reads (query w read)
  unfolding query
  query-Reads read s = elim (Bool-cases (w.db_answers s.calls)) [
    | inl t ↦ rw t refl
    | inr f ↦ rw f refl
  ]

  get-Reads : (vm_id : ℕ) → Reads (get_vm {F = F} w vm_id)
  get-Reads vm_id s = elim (get_vm-cases w vm_id s) [ inl p ↦ rw p.1 refl | inr p ↦ rw p.1 refl ]

  host-Reads : (vm_id : ℕ) → Reads (host_for_vm {F = F} w vm_id)
  unfolding host_for_vm
  host-Reads vm_id = bind-Reads (get_vm w vm_id) _ (get-Reads vm_id) (λ vm.
      bind-Reads (some_or vm.host_id _) _ (some_or-Reads vm.host_id _)
        (λ host_id. bind-Reads (query w _) _ (query-Reads _) (λ found. some_or-Reads found _)))

  job-Reads : (vm_id : ℕ) → Reads (create_job {F = F} w JobType.vm_commit vm_id)
  job-Reads vm_id s =
      let (t, v, k, l, r) = create_job-cases w JobType.vm_commit vm_id s in
      elim r [ inl j ↦ rw j.1 v | inr e ↦ rw e.1 v ]

  module _ (db : Pools) where
    validate-Reads :
        (vm_id storage_pool_id : ℕ) → Reads (validate {F = F} w db vm_id storage_pool_id)
    unfolding validate
    validate-Reads vm_id storage_pool_id =
        bind-Reads (host_for_vm w vm_id) _ (host-Reads vm_id) (λ host.
          bind-Reads (λ (s : Store F). (db.find_oci_disk s.calls, tick s)) _ (λ s. refl)
            (λ disk.
              bind-Reads (or_internal (query w _)) _ (λ s. internal-vms _ ∙ query-Reads _ s)
                (λ found. bind-Reads (some_or found _) _ (some_or-Reads found _) (λ pool.
                  bind-Reads (require _ _) _ (require-Reads _ _) (λ typed.
                    bind-Reads (require _ _) _ (require-Reads _ _) (λ active.
                      bind-Reads (or_internal (query w _)) _ (λ s. internal-vms _ ∙ query-Reads _ s)
                        (λ attached.
                          bind-Reads (require attached _) _ (require-Reads attached _)
                            (λ done. λ s. refl))))))))

    accept-Accepts :
        (vm : Vm) (vm_id storage_pool_id : ℕ) (s : Store F)
        → Accepts vm vm_id s.vms (accept w db vm vm_id storage_pool_id s)
    unfolding accept
    accept-Accepts vm vm_id storage_pool_id s =
        Accepts-after _ (validate w db vm_id storage_pool_id s)
          (validate-Reads vm_id storage_pool_id s)
          (λ host t v.
            Accepts-after _ (create_job w JobType.vm_commit vm_id t) (job-Reads vm_id t ∙ v)
              (λ job_id u v'. yes v' refl refl))

-- How the call ends. `s` is the state before it.
pub data Commits {F : Type 0} (vm_id : ℕ) (s : Store F) : Result CommitTask × Store F → Type 0 where
  untouched : {e : Error} {t : Store F} → t.vms ≡ s.vms → Commits vm_id s (err e, t)
  -- The error comes after the status has been set, which stays.
  left_committing :
      {e : Error} {t : Store F}
      → any (can_commit vm_id) s.vms ≡ true
      → t.vms ≡ set_committing vm_id s.vms
      → Commits vm_id s (err e, t)
  accepted :
      {task : CommitTask} {t : Store F} (vm : Vm)
      → find_vm vm_id s.vms ≡ some vm
      → is_some vm.image_ref ≡ true
      → any (can_commit vm_id) s.vms ≡ true
      → t.vms ≡ set_committing vm_id s.vms
      → task.vm_id ≡ vm_id
      → task.previous_status ≡ vm.status
      → Commits vm_id s (ok task, t)

of_Accepts :
    {F : Type 0} {vm_id : ℕ} {s : Store F} {vm : Vm} {r : Result CommitTask × Store F}
    → find_vm vm_id s.vms ≡ some vm
    → is_some vm.image_ref ≡ true
    → any (can_commit vm_id) s.vms ≡ true
    → Accepts vm vm_id (set_committing vm_id s.vms) r
    → Commits vm_id s r
of_Accepts {vm = vm} found image ready (yes v p i) = accepted vm found image ready v i p
of_Accepts found image ready (refusal v) = left_committing ready v

-- A commit fails and changes no VM; or it is accepted for a VM that has an image and is created or shut
-- down, with the status committing and a task that knows the status to go back to; or one of the
-- checks after the change of the status fails, and then the VM is left committing.
pub commit-Commits :
    {F : Type 0} (w : World) (db : Pools) (vm_id storage_pool_id : ℕ) (s : Store F)
    → Commits vm_id s (commit w db vm_id storage_pool_id s)
unfolding commit require try_set_committing
commit-Commits w db vm_id storage_pool_id s = elim (get_vm-cases w vm_id s) [
  | inr e ↦ rw e.1 (untouched refl)
  | inl g ↦ elim (Bool-cases (is_some g.0.image_ref)) [
    | inr f ↦ rw (g.1, f) (untouched refl)
    | inl image ↦ elim (Bool-cases (w.db_answers (s.calls + 1))) [
      | inr f ↦ rw (g.1, image, f) (untouched refl)
      | inl a ↦ elim (Bool-cases (any (can_commit vm_id) s.vms)) [
        | inr none_ready ↦
            rw (g.1, image, a, none_ready)
              (untouched (
                update_where_none (can_commit vm_id) _ s.vms
                  (λ vm m. any-false_of (can_commit vm_id) none_ready m)))
        | inl ready ↦
            rw (g.1, image, a, ready)
              (of_Accepts g.2 image ready (
                accept-Accepts w db g.0 vm_id storage_pool_id
                  (tick (record (tick s) { vms = set_committing vm_id s.vms }))))
      ]
    ]
  ]
]
