-- ===== src/Failover/Touches.antt =====
-- The programs of a failover change the row of one VM.

use qarax.Base.{
  ℕ, ◌≤◌, ◌≡◌, ◌≢◌, refl, ap, ◌∙◌, sym, subst, inl, inr, Bool, false, Option, List, Memᴰ, arith,
  Bool-cases, Result, ok, err, Text, nat_ord, ==_iff, update_where, of_mem-update_where,
  mem-update_where,
}
use qarax.Db.{Vm, VmStatus, Host}
use qarax.Schedule.{Double, GpuRequest}
use qarax.Control.{
  Store, World, M, ◌>>=◌, attempt, lift, throw, query, execute, call_node, get_vm, host_for_vm,
  create_job, mark_running, mark_completed, mark_failed, some_or, tick, JobType,
}
use qarax.Control.Rules.{
  IsFrame, Within, bind-Within, some_or-Within, query-Within, execute-Within, call_node-Within,
}
use qarax.Lifecycle.{
  is_vm, with_vm_status, update_status, start_vm_internal, start_setup, finish_start,
}
use qarax.Lifecycle.Frame.{update_status-cases}
use qarax.Lifecycle.Steps.{start_setup-cases, create_job-cases}
use qarax.Lifecycle.Ending.{mark_running-cases, mark_completed-cases, mark_failed-cases}
use qarax.Failover.{Inventory, shared_disk_pool_ids, gpu_request_for_vm, find_target}
use qarax.Failover.Attempt.{
  with_config, with_host, update_config, update_host_id, revert_failover_state, move_gpus,
  after_gpus, after_start, move_to, execute_failover, conclude_failover, with_job, failover_vm,
}
use qarax.Failover.Quiet.{Quiet-frame, shared-Quiet, gpu-Quiet, find_target-Quiet, move_gpus-Quiet}

-- All rows but those of one identifier stay, and none is added.
pub record Touches {F : Type 0} (id : ℕ) (s t : Store F) : Type 0 where
  pub later : s.calls ≤ t.calls
  pub kept : (v : Vm) → Memᴰ v s.vms → v.id ≢ id → Memᴰ v t.vms
  pub only : (v : Vm) → Memᴰ v t.vms → v.id ≢ id → Memᴰ v s.vms

pub same-Touches :
    {F : Type 0} (id : ℕ) {s t : Store F} → t.vms ≡ s.vms → s.calls ≤ t.calls → Touches id s t
same-Touches id e l = record {
  later = l;
  kept = λ v m away. subst (λ (vms : List Vm). Memᴰ v vms) (sym e) m;
  only = λ v m away. subst (λ (vms : List Vm). Memᴰ v vms) e m;
}

pub Touches-frame : {F : Type 0} (id : ℕ) → IsFrame (Touches {F = F} id)
Touches-frame id = record {
  stay = λ s. same-Touches id refl (omega arith);
  chain = λ p q. record {
    later = omega (arith, p.later, q.later);
    kept = λ v m away. q.kept v (p.kept v m away) away;
    only = λ v m away. p.only v (q.only v m away) away;
  };
  ticks = λ s. same-Touches id refl (omega arith);
}

not_this : (id : ℕ) (v : Vm) → v.id ≢ id → is_vm id v ≡ false
not_this id v away = elim (Bool-cases (is_vm id v)) [
  | inr f ↦ f
  | inl t ↦ absurd (away ((==_iff v.id id).0 t))
]

pub row-Touches :
    {F : Type 0} (id : ℕ) (change : Vm → Vm) {s t : Store F}
    → ((x : Vm) → (change x).id ≡ x.id)
    → t.vms ≡ update_where (is_vm id) change s.vms
    → s.calls ≤ t.calls
    → Touches id s t
row-Touches id change {s} {t} k e l = record {
  later = l;
  kept = λ v m away.
      subst (λ (vms : List Vm). Memᴰ v vms) (sym e)
        (rw (not_this id v away) at (mem-update_where (is_vm id) change m));
  only = λ v m away.
      let (x, n, c) =
        of_mem-update_where (is_vm id) change s.vms (subst (λ (vms : List Vm). Memᴰ v vms) e m) in
      elim c [
        | inr f ↦ subst (λ (y : Vm). Memᴰ y s.vms) (sym f.1) n
        | inl h ↦ absurd (away (ap (λ (y : Vm). y.id) h.1 ∙ (k x ∙ (==_iff x.id id).0 h.0)))
      ];
}

module _ {F : Type 0} (w : World) (id : ℕ) where
  pub write-Touches :
      (change : Vm → Vm)
      → ((x : Vm) → (change x).id ≡ x.id)
      → Within
          (Touches-frame id)
          (execute w (λ (s : Store F). record s { vms = update_where (is_vm id) change s.vms }))
  write-Touches change k =
      execute-Within (Touches-frame id) w
        (λ (s : Store F). record s { vms = update_where (is_vm id) change s.vms })
        (λ s. row-Touches id change k refl (omega arith))

  pub update_status-Touches :
      (status : VmStatus) → Within (Touches-frame id) (update_status {F = F} w id status)
  update_status-Touches status s =
      let (t, frame, c) = update_status-cases w id status s in
      elim c [
        | inl done ↦
            rw done.0 (row-Touches id (with_vm_status status) (λ x. refl) done.1 frame.later)
        | inr lost ↦ rw lost.1 (same-Touches id lost.2 frame.later)
      ]

  pub get_vm-Touches : (vm_id : ℕ) → Within (Touches-frame id) (get_vm {F = F} w vm_id)
  unfolding get_vm
  get_vm-Touches vm_id =
      bind-Within (Touches-frame id) (query w _) _ (query-Within (Touches-frame id) w _)
        (λ found. some_or-Within (Touches-frame id) found _)

  host_for_vm-Touches : (vm_id : ℕ) → Within (Touches-frame id) (host_for_vm {F = F} w vm_id)
  unfolding host_for_vm
  host_for_vm-Touches vm_id =
      bind-Within (Touches-frame id) (get_vm w vm_id) _ (get_vm-Touches vm_id) (λ vm.
        bind-Within (Touches-frame id) (some_or vm.host_id _) _
          (some_or-Within (Touches-frame id) vm.host_id _)
          (λ host_id.
            bind-Within (Touches-frame id) (query w _) _ (query-Within (Touches-frame id) w _)
              (λ found. some_or-Within (Touches-frame id) found _)))

  start_setup-Touches : (vm : Vm) → Within (Touches-frame id) (start_setup {F = F} w id vm)
  start_setup-Touches vm s =
      let (t, v, k, l, r) = start_setup-cases w id vm s in
      elim r [ inl j ↦ rw j.1 (same-Touches id v l) | inr e ↦ rw e.1 (same-Touches id v l) ]

  finish_start-Touches :
      (vm : Vm) (host : Host F) (r : Result (Bool × ℕ))
      → Within (Touches-frame id) (finish_start w id vm host r)
  unfolding finish_start
  finish_start-Touches vm host (err e) = update_status-Touches vm.status
  finish_start-Touches vm host (ok (creates, job_id)) = λ s. same-Touches id refl (omega arith)

  pub start-Touches : Within (Touches-frame id) (start_vm_internal {F = F} w id)
  unfolding start_vm_internal
  start-Touches = bind-Within (Touches-frame id) (get_vm w id) _ (get_vm-Touches id) (λ vm.
      bind-Within (Touches-frame id) (lift _) _ (Touches-frame id).stay (λ startable.
        bind-Within (Touches-frame id) (host_for_vm w id) _ (host_for_vm-Touches id) (λ host.
          bind-Within (Touches-frame id) (lift _) _ (Touches-frame id).stay (λ matches.
            bind-Within (Touches-frame id) (λ (s : Store F). (w.disks_can_start s.calls, tick s)) _
              (Touches-frame id).ticks
              (λ disks.
                bind-Within (Touches-frame id) (update_status w id VmStatus.pending) _
                  (update_status-Touches VmStatus.pending)
                  (λ set. λ s.
                    (Touches-frame id).chain (start_setup-Touches vm s)
                      (finish_start-Touches vm host _ _)))))))

module _ {F : Type 0} (w : World) (id : ℕ) where
  pub create_job-Touches :
      (job_type : JobType) (resource_id : ℕ)
      → Within (Touches-frame id) (create_job {F = F} w job_type resource_id)
  create_job-Touches job_type resource_id s =
      let (t, v, k, l, r) = create_job-cases w job_type resource_id s in
      elim r [ inl j ↦ rw j.1 (same-Touches id v l) | inr e ↦ rw e.1 (same-Touches id v l) ]

  pub mark_running-Touches : (job : ℕ) → Within (Touches-frame id) (mark_running {F = F} w job)
  mark_running-Touches job s =
      let (t, q, c) = mark_running-cases w job s in
      elim c [
        | inl e ↦ rw e (same-Touches id q.same q.later)
        | inr e ↦ rw e.0 (same-Touches id q.same q.later)
      ]

  pub mark_completed-Touches : (job : ℕ) → Within (Touches-frame id) (mark_completed {F = F} w job)
  mark_completed-Touches job s =
      let (r, t, e, q) = mark_completed-cases w job s in rw e (same-Touches id q.same q.later)

  pub mark_failed-Touches :
      (job : ℕ) (message : Text) → Within (Touches-frame id) (mark_failed {F = F} w job message)
  mark_failed-Touches job message s =
      let (r, t, e, q) = mark_failed-cases w job message s in rw e (same-Touches id q.same q.later)

  pub quiet-Touches : {A : Type 0} (m : M F A) → Within Quiet-frame m → Within (Touches-frame id) m
  quiet-Touches m q s = same-Touches id (q s).vms (q s).later

  pub revert-Touches :
      (vm : Vm) (dead_host_id : ℕ)
      → vm.id ≡ id
      → Within (Touches-frame id) (revert_failover_state {F = F} w vm dead_host_id)
  unfolding revert_failover_state update_host_id update_config
  revert-Touches vm dead_host_id e = rw e (λ s.
      (Touches-frame id).chain (write-Touches w id (with_host dead_host_id) (λ x. refl) s) (
        (Touches-frame id).chain (update_status-Touches w id vm.status _)
          (write-Touches w id (with_config vm.config) (λ x. refl) _)))

module _ (d : Double) (inv : Inventory d.F) (w : World) (vm : Vm) (dead_host : Host d.F) where
  open d use {F}

  abbrev frame : IsFrame (Touches {F = F} vm.id)
  frame = Touches-frame vm.id

  after_gpus-Touches : (r : Result (Unit {0})) → Within frame (after_gpus d inv w vm dead_host r)
  unfolding after_gpus
  after_gpus-Touches (ok moved) = frame.stay
  after_gpus-Touches (err e) =
      bind-Within frame (revert_failover_state w vm dead_host.id) (λ done. throw e)
        (revert-Touches w vm.id vm dead_host.id refl) (λ done. frame.stay)

  after_start-Touches :
      (gpu : Option GpuRequest) (r : Result ℕ)
      → Within frame (after_start d inv w vm dead_host gpu r)
  unfolding after_start
  after_start-Touches gpu (ok start_job_id) = frame.stay
  after_start-Touches gpu (err e) =
      bind-Within frame (revert_failover_state w vm dead_host.id)
        (λ done. attempt (move_gpus d inv w vm dead_host.id gpu) >>= λ back. throw e)
        (revert-Touches w vm.id vm dead_host.id refl)
        (λ done.
          quiet-Touches w vm.id (move_gpus d inv w vm dead_host.id gpu)
            (move_gpus-Quiet d inv w vm dead_host.id gpu))

  move_to-Touches :
      (gpu : Option GpuRequest) (target : Host F)
      → Within frame (move_to d inv w vm dead_host gpu target)
  unfolding move_to update_config update_host_id
  move_to-Touches gpu target =
      bind-Within frame (call_node w dead_host.id _) _ (call_node-Within frame w dead_host.id _)
        (λ stopped.
          bind-Within frame (call_node w dead_host.id _) _ (call_node-Within frame w dead_host.id _)
            (λ deleted.
              bind-Within frame (update_config w vm.id _) _
                (write-Touches w vm.id (with_config _) (λ x. refl))
                (λ tagged.
                  bind-Within frame (update_host_id w vm.id target.id) _
                    (write-Touches w vm.id (with_host target.id) (λ x. refl))
                    (λ placed.
                      bind-Within frame (update_status w vm.id VmStatus.created) _
                        (update_status-Touches w vm.id VmStatus.created)
                        (λ created. λ s.
                          frame.chain
                            (quiet-Touches w vm.id (move_gpus d inv w vm target.id gpu)
                              (move_gpus-Quiet d inv w vm target.id gpu) s)
                            (bind-Within frame (after_gpus d inv w vm dead_host _) _
                              (after_gpus-Touches _)
                              (λ kept. λ t.
                                frame.chain (start-Touches w vm.id t) (after_start-Touches gpu _ _))
                              _))))))

  execute_failover-Touches : Within frame (execute_failover d inv w vm dead_host)
  unfolding execute_failover
  execute_failover-Touches =
      bind-Within frame (shared_disk_pool_ids w inv vm) _
        (quiet-Touches w vm.id (shared_disk_pool_ids w inv vm) (shared-Quiet w inv vm))
        (λ required.
          bind-Within frame (gpu_request_for_vm w inv vm) _
            (quiet-Touches w vm.id (gpu_request_for_vm w inv vm) (gpu-Quiet w inv vm))
            (λ gpu.
              bind-Within frame (find_target d inv w vm dead_host.id required gpu) _
                (quiet-Touches w vm.id (find_target d inv w vm dead_host.id required gpu)
                  (find_target-Quiet d inv w vm dead_host.id required gpu))
                (λ target. move_to-Touches gpu target)))

  conclude-Touches : (job_id : ℕ) (r : Result ℕ) → Within frame (conclude_failover d inv w job_id r)
  unfolding conclude_failover
  conclude-Touches job_id (ok start_job_id) = mark_completed-Touches w vm.id job_id
  conclude-Touches job_id (err e) = mark_failed-Touches w vm.id job_id _

  with_job-Touches : (r : Result ℕ) → Within frame (with_job d inv w vm dead_host r)
  unfolding with_job
  with_job-Touches (err e) = frame.stay
  with_job-Touches (ok job_id) = λ s.
      frame.chain (mark_running-Touches w vm.id job_id s)
        (frame.chain (execute_failover-Touches _) (conclude-Touches job_id _ _))

  pub failover_vm-Touches : Within frame (failover_vm d inv w vm dead_host)
  unfolding failover_vm
  failover_vm-Touches = λ s.
      frame.chain (create_job-Touches w vm.id JobType.vm_failover vm.id s) (with_job-Touches _ _)
