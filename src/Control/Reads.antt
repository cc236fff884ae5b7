-- ===== src/Control/Reads.antt =====
-- Programs that only read: the state after them is the one before, but for the number of calls.
use qarax.Base.{
  ℕ, ◌≤◌, ◌≡◌, refl, ap, ◌∙◌, subst, arith, Bool, true, false, Error, Result, ok, guard,
}
use qarax.Control.{Store, World, M, ◌>>=◌, query, lift, some_or, get_vm, host_for_vm}
use qarax.Control.Rules.{IsFrame, Within, bind-Within, some_or-Within, query-Within, of_bind}

pub record Reads {F : Type 0} (s t : Store F) : Type 0 where
  pub same : t ≡ record s { calls = t.calls }
  pub later : s.calls ≤ t.calls

pub Reads-frame : {F : Type 0} → IsFrame (Reads {F = F})
Reads-frame = record {
  stay = λ s. record { same = refl; later = omega arith };
  chain = λ {s} {t} {u} p q. record {
    same = q.same ∙ ap (λ (x : Store _). record x { calls = u.calls }) p.same;
    later = omega (arith, p.later, q.later);
  };
  ticks = λ s. record { same = refl; later = omega arith };
}

module _ {F : Type 0} {s t : Store F} (r : Reads s t) where
  pub vms-Reads : t.vms ≡ s.vms
  vms-Reads = ap (λ (x : Store F). x.vms) r.same

  pub hosts-Reads : t.hosts ≡ s.hosts
  hosts-Reads = ap (λ (x : Store F). x.hosts) r.same

  pub host_gpus-Reads : t.host_gpus ≡ s.host_gpus
  host_gpus-Reads = ap (λ (x : Store F). x.host_gpus) r.same

  pub tasks-Reads : t.tasks ≡ s.tasks
  tasks-Reads = ap (λ (x : Store F). x.tasks) r.same

  pub jobs-Reads : t.jobs ≡ s.jobs
  jobs-Reads = ap (λ (x : Store F). x.jobs) r.same

module _ {F : Type 0} where
  -- A chain that ended well after a program that only reads.
  pub of_read :
      {A B : Type 0} (m : M F A) (next : A → M F B) (s : Store F) {b : B} {t : Store F}
      → Within Reads-frame m
      → (m >>= next) s ≡ (ok b, t)
      → (a : A) × (u : Store F) × (m s ≡ (ok a, u)) × Reads s u × (next a u ≡ (ok b, t))
  of_read m next s p h =
      let (a, u, e, k) = of_bind m next s h in
      (a, u, e, subst (λ (r : Result _ × Store F). Reads s r.1) e (p s), k)

  pub of_lift :
      {A : Type 0} (r : Result A) (s : Store F) {a : A} {t : Store F}
      → ◌≡◌ {A = Result A × Store F} (lift r s) (ok a, t)
      → r ≡ ok a
  of_lift r s h = ap (λ (p : Result _ × Store F). p.0) h

  pub get_vm-Reads : (w : World) (vm_id : ℕ) → Within Reads-frame (get_vm {F = F} w vm_id)
  unfolding get_vm
  get_vm-Reads w vm_id =
      bind-Within Reads-frame (query w _) _ (query-Within Reads-frame w _)
        (λ found. some_or-Within Reads-frame found _)

  pub host_for_vm-Reads : (w : World) (vm_id : ℕ) → Within Reads-frame (host_for_vm {F = F} w vm_id)
  unfolding host_for_vm
  host_for_vm-Reads w vm_id =
      bind-Within Reads-frame (get_vm w vm_id) _ (get_vm-Reads w vm_id) (λ vm.
        bind-Within Reads-frame (some_or vm.host_id _) _ (some_or-Within Reads-frame vm.host_id _)
          (λ host_id.
            bind-Within Reads-frame (query w _) _ (query-Within Reads-frame w _)
              (λ found. some_or-Within Reads-frame found _)))

pub guard-true : (b : Bool) (e : Error) → guard b e ≡ ok tt → b ≡ true
guard-true true e h = refl
guard-true false e h = cc h
