-- ===== src/Migration/Plan.antt =====
-- What a planned migration guarantees.

use qarax.Base.{
  ℕ, ◌≡◌, ◌≢◌, refl, ap, ◌∙◌, sym, subst, inl, inr, true, false, some, List, Memᴰ, nat_ord, Error,
  Result, ok, err, guard,
}
use qarax.Db.{Vm, Host, HostGpu}
use qarax.Control.{Store, World, lift, get_vm, host_for_vm, find_vm, find_host}
use qarax.Control.Rules.{Within, bind-Within}
use qarax.Control.Reads.{
  Reads-frame, vms-Reads, hosts-Reads, host_gpus-Reads, of_read, of_lift, get_vm-Reads,
  host_for_vm-Reads, guard-true,
}
use qarax.Lifecycle.Frame.{get_vm-cases}
use qarax.Lifecycle.Steps.{host_for_vm-cases}
use qarax.Gpus.{holds}
use qarax.Failover.{Inventory, VmDisk}
use qarax.Migration.Checks.{
  Movable, require_by_id-found, require_by_id-Reads, check_move-Reads, check_move_sound,
}
use qarax.Migration.{
  PlannedVmMigration, plan_vm_migration, require_by_id, is_migratable, is_cloud_hv, check_move,
  migratable_vm,
}

-- What is known where a plan is made. `s` is the state before.
pub record Plans {F : Type 0} (inv : Inventory F) (vm_id target_host_id : ℕ) (s : Store F)
    (plan : PlannedVmMigration F) : Type 0 where
  pub vm : Vm
  pub found : find_vm vm_id s.vms ≡ some vm
  pub migratable : is_migratable vm.status ≡ true
  pub live : is_cloud_hv vm.hypervisor ≡ true
  pub source : some plan.source_host.id ≡ vm.host_id
  pub target : find_host target_host_id s.hosts ≡ some plan.target_host
  pub elsewhere : plan.source_host.id ≢ plan.target_host.id
  pub no_gpu : (g : HostGpu) → Memᴰ g s.host_gpus → holds vm_id g ≡ false
  pub disks :
      (disk : VmDisk)
      → Memᴰ disk inv.vm_disks
      → disk.vm_id ≡ vm_id
      → Movable inv plan.target_host.id disk
  pub original : plan.original_status ≡ vm.status
  pub same_vm : plan.vm_id ≡ vm_id

module _ {F : Type 0} (w : World) (inv : Inventory F) where
  get_vm-found :
      (vm_id : ℕ) (s : Store F) {vm : Vm} {t : Store F}
      → get_vm w vm_id s ≡ (ok vm, t)
      → find_vm vm_id s.vms ≡ some vm
  get_vm-found vm_id s {vm} {t} e = elim (get_vm-cases w vm_id s) [
    | inl g ↦ g.2 ∙ ap some (same (sym g.1 ∙ e))
    | inr f ↦ absurd (differ (sym f.1 ∙ e))
  ]
    where
      same : {a b : Vm} {x y : Store F} → ◌≡◌ {A = Result Vm × Store F} (ok a, x) (ok b, y) → a ≡ b
      same q = cc q

      differ :
          {x : Error} {b : Vm} {y z : Store F}
          → ◌≡◌ {A = Result Vm × Store F} (err x, y) (ok b, z)
          → ⊥
      differ q = cc q

  host_for_vm-found :
      (vm_id : ℕ) (s : Store F) {vm : Vm} {h : Host F} {t : Store F}
      → find_vm vm_id s.vms ≡ some vm
      → host_for_vm w vm_id s ≡ (ok h, t)
      → some h.id ≡ vm.host_id
  host_for_vm-found vm_id s {vm} {h} {t} found e =
      let (u, frame, v, c) = host_for_vm-cases w vm_id vm s found in
      elim c [
        | inl g ↦ ap (λ (x : Host F). some x.id) (sym (same (sym g.1 ∙ e))) ∙ g.2
        | inr f ↦ absurd (differ (sym f.1 ∙ e))
      ]
    where
      same :
          {a b : Host F} {x y : Store F}
          → ◌≡◌ {A = Result (Host F) × Store F} (ok a, x) (ok b, y)
          → a ≡ b
      same q = cc q

      differ :
          {x : Error} {b : Host F} {y z : Store F}
          → ◌≡◌ {A = Result (Host F) × Store F} (err x, y) (ok b, z)
          → ⊥
      differ q = cc q

  migratable_vm-Reads : (vm_id : ℕ) → Within Reads-frame (migratable_vm w inv vm_id)
  unfolding migratable_vm
  migratable_vm-Reads vm_id =
      bind-Within Reads-frame (get_vm w vm_id) _ (get_vm-Reads w vm_id) (λ vm.
        bind-Within Reads-frame (lift (guard (is_migratable vm.status) _)) _ Reads-frame.stay
          (λ ready.
            bind-Within Reads-frame (lift (guard (is_cloud_hv vm.hypervisor) _)) _ Reads-frame.stay
              (λ live. Reads-frame.stay)))

  migratable_vm_sound :
      (vm_id : ℕ) (s : Store F) {vm : Vm} {t : Store F}
      → migratable_vm w inv vm_id s ≡ (ok vm, t)
      → (find_vm vm_id s.vms ≡ some vm)
        × (is_migratable vm.status ≡ true)
        × (is_cloud_hv vm.hypervisor ≡ true)
  unfolding migratable_vm
  migratable_vm_sound vm_id s {vm} h =
      let (x, s1, e1, r1, h1) = of_read (get_vm w vm_id) _ s (get_vm-Reads w vm_id) h in
      let (x2, s2, e2, r2, h2) =
        of_read (lift (guard (is_migratable x.status) _)) _ s1 Reads-frame.stay h1 in
      let (x3, s3, e3, r3, h3) =
        of_read (lift (guard (is_cloud_hv x.hypervisor) _)) _ s2 Reads-frame.stay h2 in
      let same : x ≡ vm = returned h3 in
      (
        get_vm-found vm_id s e1 ∙ ap some same,
        sym (ap (λ (y : Vm). is_migratable y.status) same) ∙ guard-true _ _ (of_lift _ s1 e2),
        sym (ap (λ (y : Vm). is_cloud_hv y.hypervisor) same) ∙ guard-true _ _ (of_lift _ s2 e3),
      )
    where
      returned :
          {a b : Vm} {x y : Store F} → ◌≡◌ {A = Result Vm × Store F} (ok a, x) (ok b, y) → a ≡ b
      returned q = cc q

  pub plan-Reads :
      (vm_id target_host_id : ℕ) → Within Reads-frame (plan_vm_migration w inv vm_id target_host_id)
  unfolding plan_vm_migration
  plan-Reads vm_id target_host_id =
      bind-Within Reads-frame (migratable_vm w inv vm_id) _ (migratable_vm-Reads vm_id) (λ vm.
        bind-Within Reads-frame (host_for_vm w vm_id) _ (host_for_vm-Reads w vm_id) (λ source.
          bind-Within Reads-frame (require_by_id w inv target_host_id) _
            (require_by_id-Reads w inv target_host_id)
            (λ target.
              bind-Within Reads-frame (check_move w inv vm_id vm source target) _
                (check_move-Reads w inv vm_id vm source target) (λ moves. Reads-frame.stay))))

  -- A migration is planned only for a VM that is running or paused under Cloud Hypervisor and holds no
  -- GPU, from its host to another that has the pools of the VM's disks, which are all shared; the plan
  -- knows the status of the VM.
  pub plan_vm_migration-Plans :
      (vm_id target_host_id : ℕ) (s : Store F) {plan : PlannedVmMigration F} {t : Store F}
      → plan_vm_migration w inv vm_id target_host_id s ≡ (ok plan, t)
      → Plans inv vm_id target_host_id s plan
  unfolding plan_vm_migration
  plan_vm_migration-Plans vm_id target_host_id s {plan} h =
      let (vm, s1, e1, r1, h1) =
        of_read (migratable_vm w inv vm_id) _ s (migratable_vm-Reads vm_id) h in
      let (source, s2, e2, r2, h2) =
        of_read (host_for_vm w vm_id) _ s1 (host_for_vm-Reads w vm_id) h1 in
      let (target, s3, e3, r3, h3) =
        of_read (require_by_id w inv target_host_id) _ s2 (require_by_id-Reads w inv target_host_id)
          h2 in
      let (x, s4, e4, r4, h4) =
        of_read (check_move w inv vm_id vm source target) _ s3
          (check_move-Reads w inv vm_id vm source target) h3 in
      let (found, ready, live) = migratable_vm_sound vm_id s e1 in
      let (elsewhere, no_gpu, disks) = check_move_sound w inv vm_id vm source target s3 e4 in
      let gpus_same = host_gpus-Reads r3 ∙ (host_gpus-Reads r2 ∙ host_gpus-Reads r1) in
      subst (λ (p : PlannedVmMigration F). Plans inv vm_id target_host_id s p) (returned h4)
        (record {
          vm = vm;
          found = found;
          migratable = ready;
          live = live;
          source = host_for_vm-found vm_id s1 (ap (find_vm vm_id) (vms-Reads r1) ∙ found) e2;
          target =
              ap (find_host target_host_id) (sym (hosts-Reads r2 ∙ hosts-Reads r1))
              ∙ require_by_id-found w inv target_host_id s2 e3;
          elsewhere = elsewhere;
          no_gpu = λ g m. no_gpu g (subst (λ (gs : List HostGpu). Memᴰ g gs) (sym gpus_same) m);
          disks = disks;
          original = refl;
          same_vm = refl;
        })
    where
      returned :
          {a b : PlannedVmMigration F} {x y : Store F}
          → ◌≡◌ {A = Result (PlannedVmMigration F) × Store F} (ok a, x) (ok b, y)
          → a ≡ b
      returned q = cc q
