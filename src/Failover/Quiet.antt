-- ===== src/Failover/Quiet.antt =====
-- What the steps of a failover leave alone: the VMs, the hosts and the spawned tasks.
use qarax.Base.{ℕ, ◌≤◌, ◌≡◌, refl, ◌∙◌, arith, Bool, Option, none, some, List, [], ◌∷◌}
use qarax.Db.{Vm, HostGpu}
use qarax.Schedule.{Double, GpuRequest}
use qarax.Control.{Store, World, tick, query, execute, lift}
use qarax.Control.Rules.{IsFrame, Within, bind-Within, query-Within, execute-Within}
use qarax.Gpus.{reallocate_vm_gpus}
use qarax.Failover.{
  Inventory, shared_disk_pool_ids, pools_of_objects, gpu_request_for_vm, find_target, request_of,
}
use qarax.Failover.Attempt.{move_gpus}

pub record Quiet {F : Type 0} (s t : Store F) : Type 0 where
  pub vms : t.vms ≡ s.vms
  pub hosts : t.hosts ≡ s.hosts
  pub tasks : t.tasks ≡ s.tasks
  pub later : s.calls ≤ t.calls

pub Quiet-tick : {F : Type 0} (s : Store F) → Quiet s (tick s)
Quiet-tick s = record { vms = refl; hosts = refl; tasks = refl; later = omega arith }

pub Quiet-trans : {F : Type 0} {s t u : Store F} → Quiet s t → Quiet t u → Quiet s u
Quiet-trans p q = record {
  vms = q.vms ∙ p.vms;
  hosts = q.hosts ∙ p.hosts;
  tasks = q.tasks ∙ p.tasks;
  later = omega (arith, p.later, q.later);
}

pub Quiet-frame : {F : Type 0} → IsFrame (Quiet {F = F})
Quiet-frame = record {
  stay = λ s. record { vms = refl; hosts = refl; tasks = refl; later = omega arith };
  chain = Quiet-trans;
  ticks = Quiet-tick;
}

module _ {F : Type 0} (w : World) where
  write_gpus-Quiet :
      (gpus : List HostGpu)
      → Within Quiet-frame (execute {F = F} w (λ s. record s { host_gpus = gpus }))
  write_gpus-Quiet gpus =
      execute-Within Quiet-frame w (λ s. record s { host_gpus = gpus })
        (λ s. record { vms = refl; hosts = refl; tasks = refl; later = omega arith })

  pub reallocate-Quiet :
      (locked : ℕ → ℕ → Bool) (vm_id target : ℕ) (request : GpuRequest)
      → Within Quiet-frame (reallocate_vm_gpus {F = F} w locked vm_id target request)
  unfolding reallocate_vm_gpus
  reallocate-Quiet locked vm_id target request =
      bind-Within Quiet-frame (query w _) _ (query-Within Quiet-frame w _) (λ begun.
        bind-Within Quiet-frame (query w _) _ (query-Within Quiet-frame w _) (λ released.
          bind-Within Quiet-frame (query w _) _ (query-Within Quiet-frame w _) (λ allocated.
            bind-Within Quiet-frame (lift _) _ Quiet-frame.stay
              (λ enough. write_gpus-Quiet allocated.0))))

  module _ (inv : Inventory F) where
    pools-Quiet : (ids : List ℕ) → Within Quiet-frame (pools_of_objects {F = F} w inv ids)
    unfolding pools_of_objects
    pools-Quiet [] = Quiet-frame.stay
    pools-Quiet (id ∷ ids) =
        bind-Within Quiet-frame (query w _) _ (query-Within Quiet-frame w _) (λ objects.
          bind-Within Quiet-frame (query w _) _ (query-Within Quiet-frame w _) (λ pools.
            bind-Within Quiet-frame (lift _) _ Quiet-frame.stay (λ shared. Quiet-frame.stay)))

    pub shared-Quiet : (vm : Vm) → Within Quiet-frame (shared_disk_pool_ids {F = F} w inv vm)
    unfolding shared_disk_pool_ids
    shared-Quiet vm =
        bind-Within Quiet-frame (query w _) _ (query-Within Quiet-frame w _)
          (λ disks. pools-Quiet _)

    pub gpu-Quiet : (vm : Vm) → Within Quiet-frame (gpu_request_for_vm {F = F} w inv vm)
    unfolding gpu_request_for_vm
    gpu-Quiet vm =
        bind-Within Quiet-frame (query w _) _ (query-Within Quiet-frame w _)
          (λ gpus. Quiet-frame.stay)

module _ (d : Double) (inv : Inventory d.F) (w : World) where
  open d use {F}

  pub request-Quiet :
      (vm : Vm) (source : ℕ) (gpu : Option GpuRequest)
      → Within Quiet-frame (request_of d inv w vm source gpu)
  unfolding request_of
  request-Quiet vm source gpu =
      bind-Within Quiet-frame (query w _) _ (query-Within Quiet-frame w _)
        (λ networks. Quiet-frame.stay)

  pub find_target-Quiet :
      (vm : Vm) (source : ℕ) (required : List ℕ) (gpu : Option GpuRequest)
      → Within Quiet-frame (find_target d inv w vm source required gpu)
  unfolding find_target
  find_target-Quiet vm source required gpu =
      bind-Within Quiet-frame (request_of d inv w vm source gpu) _ (request-Quiet vm source gpu)
        (λ request. Quiet-tick)

  pub move_gpus-Quiet :
      (vm : Vm) (target : ℕ) (gpu : Option GpuRequest)
      → Within Quiet-frame (move_gpus d inv w vm target gpu)
  unfolding move_gpus
  move_gpus-Quiet vm target none = Quiet-frame.stay
  move_gpus-Quiet vm target (some request) = reallocate-Quiet w inv.locked_gpus vm.id target request
