-- ===== src/Failover/Outcome.antt =====
-- How an attempt to fail a VM over ends.
use qarax.Base.{
  ℕ, ◌^◌, ◌≤◌, ◌<◌, ◌≡◌, ◌⊎◌, refl, ap, ◌∙◌, sym, subst, inl, inr, Option, some, List, [], ◌∷◌,
  ◌++◌, Memᴰ, count_if, arith, Error, Result, Result-cases, ok, err, nat_ord, update_where,
  update_where_twice, count_if-update_where,
}
use qarax.VmConfig.{set_failed_over_from}
use qarax.Db.{Vm, VmStatus, Host}
use qarax.Schedule.{Double, GpuRequest}
use qarax.Control.{Store, World, M, ◌>>=◌, ◌>>◌, attempt, tick, call_node, find_vm, StartTask}
use qarax.Control.Rules.{run-cases}
use qarax.Lifecycle
use qarax.Lifecycle.{is_vm, set_status, with_vm_status, start_vm_internal, same_status}
use qarax.Lifecycle.Frame.{Lost, update_status-cases}
use qarax.Lifecycle.Start.{Starts, refused, stranded, spawned, start_vm_internal-Starts}
use qarax.Failover.{Inventory, shared_disk_pool_ids, gpu_request_for_vm, find_target}
use qarax.Failover.Attempt.{
  with_config, with_host, move_gpus, after_gpus, after_start, move_to, execute_failover,
  update_config, update_host_id,
}
use qarax.Failover.Quiet.{
  Quiet, Quiet-trans, shared-Quiet, gpu-Quiet, find_target-Quiet, move_gpus-Quiet,
}
use qarax.Failover.Target.{shared-Requires, find_target-Suits}
use qarax.Failover.Changes.{
  Beside, Beside-trans, Frame-Beside, Quiet-Beside, Lost-within, Touched, Touched-same,
  Touched-then, Touched-restored, find_vm-update_where, untouched-Touched, write_row-cases,
  revert-cases, put_back,
}
use qarax.Failover.Touches.{start-Touches}
use qarax.Failover.Ends.{IsTarget, created_on, FailsOver, restored, torn, moved}

some_injective : {a b : Vm} → some a ≡ some b → a ≡ b
some_injective h = cc h

host_injective : {a b : ℕ} → some a ≡ some b → a ≡ b
host_injective h = cc h

there :
    {F : Type 0} (inv : Inventory F) (vm : Vm) (dead_host_id target_id : ℕ) {base xs : List Vm}
    → vm.host_id ≡ some dead_host_id
    → xs ≡ update_where (is_vm vm.id) (created_on inv vm dead_host_id target_id) base
    → Touched vm dead_host_id base xs
there inv vm dead_host_id target_id placed is = record {
  change = created_on inv vm dead_host_id target_id;
  keeps = λ x. refl;
  restorable = ap (λ h. record vm { host_id = h }) (sym placed);
  is = is;
}

module _ (d : Double) (inv : Inventory d.F) (w : World) (vm : Vm) (dead_host : Host d.F)
    (s : Store d.F) (keys : count_if (is_vm vm.id) s.vms ≤ 1)
    (found : find_vm vm.id s.vms ≡ some vm) (placed : vm.host_id ≡ some dead_host.id) where
  open d use {F}

  -- After the revert, whatever follows that leaves the VMs alone.
  reverted :
      {e : Error} (a t u : Store F)
      → Beside s a
      → Beside t u
      → u.vms ≡ t.vms
      → Touched vm dead_host.id s.vms a.vms
      → Beside a t
      → (t.vms ≡ update_where (is_vm vm.id) (put_back vm dead_host.id) a.vms)
        ⊎ (Touched vm dead_host.id s.vms t.vms × Lost w a t)
      → FailsOver inv w vm dead_host s (err e, u)
  reverted a t u b c same p q (inl done) =
      restored (same ∙ Touched-restored keys found p done) (c.tasks ∙ (q.tasks ∙ b.tasks))
  reverted a t u b c same p q (inr (touched, lost)) =
      torn (Touched-same touched same) (c.tasks ∙ (q.tasks ∙ b.tasks)) (Lost-within w b c lost)

  after_start-FailsOver :
      (e : Error) (gpu : Option GpuRequest) (a : Store F)
      → Beside s a
      → Touched vm dead_host.id s.vms a.vms
      → FailsOver inv w vm dead_host s (after_start d inv w vm dead_host gpu (err e) a)
  unfolding after_start
  after_start-FailsOver e gpu a b p =
      let (t, q, ends, c) = revert-cases w vm dead_host.id s.vms a p in
      let quiet = move_gpus-Quiet d inv w vm dead_host.id gpu t in
      rw ends (reverted a t _ b (Quiet-Beside quiet) quiet.vms p q c)

  after_gpus-FailsOver :
      (e : Error) (a : Store F)
      → Beside s a
      → Touched vm dead_host.id s.vms a.vms
      → (t : Store F) × (after_gpus d inv w vm dead_host (err e) a ≡ (err e, t))
        × FailsOver inv w vm dead_host s (err e, t)
  unfolding after_gpus
  after_gpus-FailsOver e a b p =
      let (t, q, ends, c) = revert-cases w vm dead_host.id s.vms a p in
      (t, rw ends refl, reverted a t t b (record { tasks = refl; later = omega arith }) refl p q c)

  module _ (target : Host F) (fit : IsTarget inv s.hosts vm dead_host target)
      (gpu : Option GpuRequest) where
    -- From the row on the target on.
    of_Starts :
        (a : Store F)
        → Beside s a
        → a.vms ≡ update_where (is_vm vm.id) (created_on inv vm dead_host.id target.id) s.vms
        → (r : Result ℕ × Store F) → a.calls ≤ r.1.calls
        → Starts w vm.id a r
        → FailsOver inv w vm dead_host s (after_start d inv w vm dead_host gpu r.0 r.1)
    unfolding qarax.Lifecycle.status_name after_start
    of_Starts a b is r later (refused {e = e} {t = t} v k) =
        after_start-FailsOver e gpu t
          (record { tasks = k ∙ b.tasks; later = omega (arith, b.later, later) })
          (Touched-same (there inv vm dead_host.id target.id placed is) v)
    of_Starts a b is r later (stranded {e = e} {t = t} v k lost) =
        after_start-FailsOver e gpu t
          (record { tasks = k ∙ b.tasks; later = omega (arith, b.later, later) })
          (Touched-then (with_vm_status VmStatus.pending) (λ x. refl) (λ x. refl)
            (there inv vm dead_host.id target.id placed is) v)
    of_Starts a b is r later
          (spawned {job = job} {t = t} x task f startable v k job_id vm_id original creates host) =
        let row = some_injective (
          sym f
          ∙ (ap (find_vm vm.id) is
              ∙ find_vm-update_where vm.id (created_on inv vm dead_host.id target.id) s.vms
                  (λ y. refl) found)) in
        moved target task fit
          (v
            ∙ (ap (set_status vm.id VmStatus.pending) is
                ∙ update_where_twice (is_vm vm.id) _ _ s.vms (λ y. refl)))
          (k ∙ ap (λ (tasks : List StartTask). tasks ++ task ∷ []) b.tasks) job_id vm_id
          (host_injective (host ∙ ap (λ (y : Vm). y.host_id) row))
          (creates ∙ ap (λ (y : Vm). same_status y.status VmStatus.created) row)

    started-FailsOver :
        (a : Store F)
        → Beside s a
        → a.vms ≡ update_where (is_vm vm.id) (created_on inv vm dead_host.id target.id) s.vms
        → FailsOver inv w vm dead_host s (
            after_start d inv w vm dead_host gpu
              (start_vm_internal w vm.id a).0
              (start_vm_internal w vm.id a).1)
    started-FailsOver a b is =
        of_Starts a b is (start_vm_internal w vm.id a) (start-Touches w vm.id a).later (
          start_vm_internal-Starts w vm.id a (
            rw
              (ap (count_if (is_vm vm.id)) is
                ∙ count_if-update_where (is_vm vm.id) (is_vm vm.id)
                    (created_on inv vm dead_host.id target.id) s.vms (λ x. refl))
              keys))

    -- From the status `Created` on.
    abbrev gpus_and_start : M F ℕ
    gpus_and_start = do
      gpus ← attempt (move_gpus d inv w vm target.id gpu)
      after_gpus d inv w vm dead_host gpus
      started ← attempt (start_vm_internal w vm.id)
      after_start d inv w vm dead_host gpu started

    gpus-FailsOver :
        (a : Store F)
        → Beside s a
        → a.vms ≡ update_where (is_vm vm.id) (created_on inv vm dead_host.id target.id) s.vms
        → FailsOver inv w vm dead_host s (gpus_and_start a)
    unfolding after_gpus
    gpus-FailsOver a b is =
        let (gpus, t, ends, q) =
          outcome (move_gpus d inv w vm target.id gpu) a
            (move_gpus-Quiet d inv w vm target.id gpu a) in
        let bt = Beside-trans b (Quiet-Beside q) in
        let there_still = q.vms ∙ is in
        rw ends (elim (Result-cases gpus) [
          | inl good ↦ rw good.1 (settled t bt there_still)
          | inr bad ↦
              let (u, e, f) =
                after_gpus-FailsOver bad.0 t bt
                  (there inv vm dead_host.id target.id placed there_still) in
              rw (bad.1, e) f
        ])
      where
        outcome :
            {A : Type 0} (m : M F A) (x : Store F)
            → Quiet x (m x).1
            → (r : Result A) × (y : Store F) × (m x ≡ (r, y)) × Quiet x y
        outcome m x q = ((m x).0, (m x).1, refl, q)

        settled :
            (t : Store F)
            → Beside s t
            → t.vms ≡ update_where (is_vm vm.id) (created_on inv vm dead_host.id target.id) s.vms
            → FailsOver inv w vm dead_host s (
                (after_gpus d inv w vm dead_host (ok tt)
                    >> (attempt (start_vm_internal w vm.id)
                        >>= after_start d inv w vm dead_host gpu))
                  t)
        settled t b e = started-FailsOver t b e

    move_to-FailsOver :
        (a : Store F)
        → Beside s a
        → a.vms ≡ s.vms
        → FailsOver inv w vm dead_host s (move_to d inv w vm dead_host gpu target a)
    unfolding move_to update_config update_host_id call_node
    move_to-FailsOver a b same =
        let tag = with_config (set_failed_over_from inv.uuid vm.config (some dead_host.id)) in
        let (t, b1, c1) = write_row-cases w vm.id tag (tick (tick a)) in
        let (u, b2, c2) = write_row-cases w vm.id (with_host target.id) t in
        let (v, f3, c3) = update_status-cases w vm.id VmStatus.created u in
        let b0 : Beside s (tick (tick a)) = record {
          tasks = b.tasks;
          later = omega (arith, b.later);
        } in
        let bt = Beside-trans b0 b1 in
        let bu = Beside-trans bt b2 in
        let bv = Beside-trans bu (Frame-Beside f3) in
        elim c1 [
          | inr lost ↦ rw lost.0 (restored (lost.1 ∙ same) (b1.tasks ∙ b.tasks))
          | inl tagged ↦
              let p1 =
                Touched-then tag (λ x. refl) (λ x. refl) (untouched-Touched placed)
                  (tagged.1 ∙ ap (update_where (is_vm vm.id) tag) same) in
              elim c2 [
                | inr lost ↦
                    rw (tagged.0, lost.0)
                      (torn (Touched-same p1 lost.1) bu.tasks (Lost-within w bt (still u) lost.2))
                | inl assigned ↦
                    let p2 =
                      Touched-then (with_host target.id) (λ x. refl) (λ x. refl) p1 assigned.1 in
                    elim c3 [
                      | inr lost ↦
                          rw (tagged.0, assigned.0, lost.1)
                            (torn (Touched-same p2 lost.2) bv.tasks
                              (Lost-within w bu (still v) lost.3))
                      | inl set ↦
                          rw (tagged.0, assigned.0, set.0)
                            (gpus-FailsOver v bv (
                              set.1
                              ∙ (ap (set_status vm.id VmStatus.created) (
                                    assigned.1
                                    ∙ (ap (update_where (is_vm vm.id) (with_host target.id))
                                          (tagged.1 ∙ ap (update_where (is_vm vm.id) tag) same)
                                        ∙ update_where_twice (is_vm vm.id) _ _ s.vms (λ x. refl)))
                                  ∙ update_where_twice (is_vm vm.id) _ _ s.vms (λ x. refl))))
                    ]
              ]
        ]
      where
        still : (x : Store F) → Beside x x
        still x = record { tasks = refl; later = omega arith }

-- An attempt to fail over a VM that stands once in the table, on the host that is dead, either starts
-- it: its row names another host, which is up and has every pool of the VM's disks, all of them
-- shared, with the mark of the dead host, and one task is spawned there that creates the VM. Or it
-- fails and spawns nothing, and then the VMs are as before, unless a statement was lost, and then the
-- row of the VM differs in host, status and config only.
pub execute_failover-FailsOver :
    (d : Double) (inv : Inventory d.F) (bound : inv.scheduling.disk_headroom_bytes < 2 ^ 63)
    (w : World) (vm : Vm) (dead_host : Host d.F) (s : Store d.F)
    → count_if (is_vm vm.id) s.vms ≤ 1
    → find_vm vm.id s.vms ≡ some vm
    → vm.host_id ≡ some dead_host.id
    → FailsOver inv w vm dead_host s (execute_failover d inv w vm dead_host s)
unfolding execute_failover
execute_failover-FailsOver d inv bound w vm dead_host s keys found placed =
    elim (run-cases (shared_disk_pool_ids w inv vm) s) [
      | inr (e, t, ends) ↦
          let q = after_run (shared_disk_pool_ids w inv vm) ends (shared-Quiet w inv vm s) in
          rw ends (restored q.vms q.tasks)
      | inl (required, t, ends) ↦
          let q = after_run (shared_disk_pool_ids w inv vm) ends (shared-Quiet w inv vm s) in
          elim (run-cases (gpu_request_for_vm w inv vm) t) [
            | inr (e, u, ends') ↦
                let q' =
                  Quiet-trans q
                    (after_run (gpu_request_for_vm w inv vm) ends' (gpu-Quiet w inv vm t)) in
                rw (ends, ends') (restored q'.vms q'.tasks)
            | inl (gpu, u, ends') ↦
                let q' =
                  Quiet-trans q
                    (after_run (gpu_request_for_vm w inv vm) ends' (gpu-Quiet w inv vm t)) in
                elim (run-cases (find_target d inv w vm dead_host.id required gpu) u) [
                  | inr (e, v, ends'') ↦
                      let q'' = Quiet-trans q' (
                        after_run (find_target d inv w vm dead_host.id required gpu) ends''
                          (find_target-Quiet d inv w vm dead_host.id required gpu u)) in
                      rw (ends, ends', ends'') (restored q''.vms q''.tasks)
                  | inl (target, v, ends'') ↦
                      let q'' = Quiet-trans q' (
                        after_run (find_target d inv w vm dead_host.id required gpu) ends''
                          (find_target-Quiet d inv w vm dead_host.id required gpu u)) in
                      let suits =
                        find_target-Suits d inv bound w vm dead_host.id gpu required u ends'' in
                      rw (ends, ends', ends'')
                        (move_to-FailsOver d inv w vm dead_host s keys found placed target
                          (record {
                            known =
                                subst (λ (hosts : List (Host d.F)). Memᴰ target hosts) q'.hosts
                                  suits.known;
                            up = suits.up;
                            elsewhere = suits.elsewhere;
                            disks = λ disk m of_vm o n backs.
                                let r = shared-Requires w inv vm s ends disk m of_vm o n backs in
                                (suits.attached o.storage_pool_id r.listed, r.shared);
                          })
                          gpu v (Quiet-Beside q'') q''.vms)
                ]
          ]
    ]
  where
    after_run :
        {F A : Type 0} (m : M F A) {x y : Store F} {r : Result A}
        → m x ≡ (r, y)
        → Quiet x (m x).1
        → Quiet x y
    after_run m {x} e q = subst (λ (p : Result _ × Store _). Quiet x p.1) e q
