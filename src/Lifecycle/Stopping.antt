-- ===== src/Lifecycle/Stopping.antt =====
-- How `stop` and `force_stop` end.
use qarax.Base.{ℕ, ◌≡◌, refl, ap, ◌∙◌, inl, inr, some, arith, Error, Result, ok, err}
use qarax.Db.{Vm, VmStatus}
use qarax.Control.{
  Store, World, pure, attempt, ◌>>=◌, ◌>>◌, call_node, tick, Rpc, Answer, done, absent, failure,
  get_vm, find_vm, host_for_vm,
}
use qarax.Lifecycle.{update_status, set_status}
use qarax.Lifecycle.Frame.{get_vm-cases, update_status-cases}
use qarax.Lifecycle.Steps.{host_for_vm-cases}
use qarax.Lifecycle.Task.{shut_down, deallocate_by_vm, acknowledged}
use qarax.Lifecycle.Ending.{Still, ignored-cases}

-- An answer after which the VM counts as stopped.
abbrev pub IsGone : Answer → Type 0
IsGone done = Unit
IsGone absent = Unit
IsGone (failure message) = ⊥

pub data Stops {F : Type 0} (w : World) (rpc : ℕ → Rpc) (vm_id : ℕ) (s : Store F)
    : Result (Unit {0}) × Store F → Type 0 where
  stopped :
      {t : Store F} (vm : Vm) (host_id n : ℕ)
      → find_vm vm_id s.vms ≡ some vm
      → some host_id ≡ vm.host_id
      → IsGone (w.node n host_id (rpc vm_id))
      → t.vms ≡ set_status vm_id VmStatus.shutdown s.vms
      → Stops w rpc vm_id s (ok tt, t)
  unchanged : {e : Error} {t : Store F} → t.vms ≡ s.vms → Stops w rpc vm_id s (err e, t)

module _ {F : Type 0} (w : World) where
  deallocate-cases :
      (vm_id : ℕ) (s : Store F)
      → (r : Result (Unit {0})) × (t : Store F) × (deallocate_by_vm w vm_id s ≡ (r, t)) × Still s t
  unfolding deallocate_by_vm
  deallocate-cases vm_id s = ignored-cases w _ s (record { same = refl; later = omega arith })

  -- The host of a VM that cannot be read is not found.
  host_for_vm_lost :
      (vm_id : ℕ) (s : Store F) {e : Error}
      → get_vm w vm_id s ≡ (err e, tick s)
      → host_for_vm w vm_id s ≡ (err e, tick s)
  unfolding host_for_vm
  host_for_vm_lost vm_id s h = rw h refl

  -- A stop succeeds only where the host of the VM answers that it has stopped the VM or does not know
  -- it, and then the status is shutdown, whatever it was before; where it fails no VM changes.
  pub shut_down-Stops :
      (rpc : ℕ → Rpc) (vm_id : ℕ) (s : Store F) → Stops w rpc vm_id s (shut_down w rpc vm_id s)
  unfolding shut_down call_node
  shut_down-Stops rpc vm_id s = elim (get_vm-cases w vm_id s) [
    | inr e ↦ rw (host_for_vm_lost vm_id s e.1) (unchanged refl)
    | inl g ↦
        let (a, frame, v, c) = host_for_vm-cases w vm_id g.0 s g.2 in
        elim c [
          | inr e ↦ rw e.1 (unchanged v)
          | inl h ↦
              rw h.1 (answered g.0 a v g.2 h.0.id h.2 (w.node a.calls h.0.id (rpc vm_id)) refl)
        ]
  ]
    where
      marked :
          (vm : Vm) (a : Store F) (v : a.vms ≡ s.vms)
          → find_vm vm_id s.vms ≡ some vm
          → (host_id : ℕ) → some host_id ≡ vm.host_id
          → IsGone (w.node a.calls host_id (rpc vm_id))
          → Stops w rpc vm_id s (
              (update_status w vm_id VmStatus.shutdown
                  >> (attempt (deallocate_by_vm w vm_id) >>= λ released. pure tt))
                (tick a))
      marked vm a v found host_id placed gone =
          let (t, frame, c) = update_status-cases w vm_id VmStatus.shutdown (tick a) in
          elim c [
            | inr missed ↦ rw missed.1 (unchanged (missed.2 ∙ v))
            | inl written ↦
                let (r, u, e, q) = deallocate-cases vm_id t in
                rw (written.0, e)
                  (stopped vm host_id a.calls found placed gone
                    (q.same ∙ (written.1 ∙ ap (set_status vm_id VmStatus.shutdown) v)))
          ]

      answered :
          (vm : Vm) (a : Store F) (v : a.vms ≡ s.vms)
          → find_vm vm_id s.vms ≡ some vm
          → (host_id : ℕ) → some host_id ≡ vm.host_id
          → (answer : Answer) → w.node a.calls host_id (rpc vm_id) ≡ answer
          → Stops w rpc vm_id s (
              (acknowledged w answer
                  >> (update_status w vm_id VmStatus.shutdown
                      >> (attempt (deallocate_by_vm w vm_id) >>= λ released. pure tt)))
                (tick a))
      answered vm a v found host_id placed done d = marked vm a v found host_id placed (rw d tt)
      answered vm a v found host_id placed absent d = marked vm a v found host_id placed (rw d tt)
      answered vm a v found host_id placed (failure message) d = unchanged v
