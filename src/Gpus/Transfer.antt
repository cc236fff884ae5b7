-- ===== src/Gpus/Transfer.antt =====
-- How the move of a VM's GPUs ends.

use qarax.Base.{
  ℕ, ◌+◌, ◌<◌, ◌≤◌, ◌≡◌, sym, ==_refl, refl, ap, ◌∙◌, inl, inr, Bool, true, false, List, Memᴰ,
  length, count_if, nat_ord, arith, Bool-cases, leb, of_mem-update_where, mem-update_where,
  count_if-update_where, Error, ok, err, Result, leb→le,
}
use qarax.Db.{HostGpu}
use qarax.Schedule.{GpuRequest, is_unset}
use qarax.Rows.{HasKeys, has_key}
use qarax.Control.{Store, World, query, execute}
use qarax.Lifecycle.Frame.{Lost}
use qarax.Gpus.{
  gpu_id, holds, allocatable, give_to, release, allocate_gpus, deallocate_by_vm_tx,
  reallocate_vm_gpus,
}
use qarax.Gpus.Allocation.{free, Allocates, allocate_gpus-Allocates}

-- The VM holds as many GPUs as asked. Each one was a free row of the table without the VM's former
-- GPUs: one of the target that meets the request and is neither held nor locked. The rows that the VM
-- does not hold are rows of that table, and what other VMs hold they keep.
pub record Holds (locked : ℕ → Bool) (vm_id target : ℕ) (request : GpuRequest)
    (old new : List HostGpu) : Type 0 where
  pub exact : count_if (holds vm_id) new ≡ request.count
  pub fits :
      (g : HostGpu)
      → Memᴰ g new
      → holds vm_id g ≡ true
      → (f : HostGpu) × Memᴰ f (deallocate_by_vm_tx vm_id old)
        × (free locked target request f ≡ true)
        × (g ≡ give_to vm_id f)
  pub rest :
      (g : HostGpu) → Memᴰ g new → holds vm_id g ≡ false → Memᴰ g (deallocate_by_vm_tx vm_id old)
  pub others :
      (g : HostGpu) → Memᴰ g old → holds vm_id g ≡ false → is_unset g.vm_id ≡ false → Memᴰ g new

-- How the move ends.
pub data Transfers {F : Type 0} (w : World) (locked : ℕ → ℕ → Bool) (vm_id target : ℕ)
    (request : GpuRequest) (s : Store F) : Result (Unit {0}) × Store F → Type 0 where
  lost :
      {e : Error} {t : Store F}
      → t.host_gpus ≡ s.host_gpus
      → Lost w s t
      → Transfers w locked vm_id target request s (err e, t)
  too_few :
      {e : Error} {t : Store F} (n : ℕ)
      → s.calls ≤ n
      → n < t.calls
      → t.host_gpus ≡ s.host_gpus
      → count_if (free (locked n) target request) (deallocate_by_vm_tx vm_id s.host_gpus)
        < request.count
      → Transfers w locked vm_id target request s (err e, t)
  moved :
      {t : Store F} (n : ℕ)
      → s.calls ≤ n
      → n < t.calls
      → Holds (locked n) vm_id target request s.host_gpus t.host_gpus
      → Transfers w locked vm_id target request s (ok tt, t)

module _ (vm_id : ℕ) (gpus : List HostGpu) where
  released-fresh : (g : HostGpu) → Memᴰ g (deallocate_by_vm_tx vm_id gpus) → holds vm_id g ≡ false
  unfolding deallocate_by_vm_tx
  released-fresh g m =
      let (f, k, c) = of_mem-update_where (holds vm_id) release gpus m in
      elim c [ inl t ↦ ap (holds vm_id) t.1 | inr u ↦ ap (holds vm_id) u.1 ∙ u.0 ]

  released-HasKeys : HasKeys gpu_id gpus → HasKeys gpu_id (deallocate_by_vm_tx vm_id gpus)
  unfolding deallocate_by_vm_tx
  released-HasKeys keys id = omega (
    arith,
    keys id,
    count_if-update_where (has_key gpu_id id) (holds vm_id) release gpus (λ g. refl),
  )

  released-mem :
      (g : HostGpu) → Memᴰ g gpus → holds vm_id g ≡ false → Memᴰ g (deallocate_by_vm_tx vm_id gpus)
  unfolding deallocate_by_vm_tx
  released-mem g m away = (rw away at (mem-update_where (holds vm_id) release m))

taken-away :
    (target : ℕ) (request : GpuRequest) (g : HostGpu)
    → is_unset g.vm_id ≡ false
    → allocatable target request g ≡ false
unfolding allocatable
taken-away target request g taken = ground (arith, taken)

Holds-after :
    {locked : ℕ → Bool} {vm_id target : ℕ} {request : GpuRequest} (old : List HostGpu)
    {new allocated : List HostGpu}
    → Allocates locked target vm_id request (deallocate_by_vm_tx vm_id old) new allocated
    → leb request.count (length allocated) ≡ true
    → Holds locked vm_id target request old new
Holds-after {vm_id = vm_id} {target} {request} old {new} {allocated} a enough = record {
  exact = omega (arith, a.held, a.bounded, leb→le request.count (length allocated) enough);
  fits =
      λ g m mine. elim (a.row g m) [ inl k ↦ cc (released-fresh vm_id old g k, mine) | inr r ↦ r ];
  rest = λ g m other. elim (a.row g m) [
    | inl k ↦ k
    | inr r ↦ absurd (differ (sym (ap (holds vm_id) r.3 ∙ ==_refl vm_id) ∙ other))
  ];
  others = λ g m away taken.
      a.kept g (released-mem vm_id old g m away) (taken-away target request g taken);
}
  where
    differ : true ≡ false → ⊥
    differ q = cc q

module _ {F : Type 0} (w : World) (locked : ℕ → ℕ → Bool) (vm_id target : ℕ)
    (request : GpuRequest) where
  -- Where the GPUs have keys, the move either gives the VM as many GPUs of the target as asked, all
  -- of which were free, once the VM's former ones are released, were not locked at some call of the
  -- move and meet the request, and no other VM loses one; or it changes no GPU, and then a statement
  -- was lost or the target had fewer free ones.
  pub reallocate_vm_gpus-Transfers :
      (s : Store F)
      → HasKeys gpu_id s.host_gpus
      → Transfers w locked vm_id target request s
          (reallocate_vm_gpus w locked vm_id target request s)
  unfolding reallocate_vm_gpus query execute
  reallocate_vm_gpus-Transfers s keys =
      let released = deallocate_by_vm_tx vm_id s.host_gpus in
      let n = s.calls + 1 + 1 in
      let a =
        allocate_gpus-Allocates (locked n) target vm_id request released
          (released-HasKeys vm_id s.host_gpus keys) (released-fresh vm_id s.host_gpus) in
      let (gpus, allocated) = allocate_gpus (locked n) target vm_id request released in
      elim (Bool-cases (w.db_answers s.calls)) [
        | inr f ↦ rw f (lost refl (s.calls, omega arith, omega arith, f))
        | inl b ↦ elim (Bool-cases (w.db_answers (s.calls + 1))) [
          | inr f ↦ rw (b, f) (lost refl (s.calls + 1, omega arith, omega arith, f))
          | inl r ↦ elim (Bool-cases (w.db_answers n)) [
            | inr f ↦ rw (b, r, f) (lost refl (n, omega arith, omega arith, f))
            | inl u ↦ elim (Bool-cases (leb request.count (length allocated))) [
              | inr f ↦
                  rw (b, r, u, f)
                    (too_few n (omega arith) (omega arith) refl (a.short (ground (arith, f))))
              | inl enough ↦ elim (Bool-cases (w.db_answers (n + 1))) [
                | inr f ↦ rw (b, r, u, enough, f) (lost refl (n + 1, omega arith, omega arith, f))
                | inl c ↦
                    rw (b, r, u, enough, c)
                      (moved n (omega arith) (omega arith) (Holds-after s.host_gpus a enough))
              ]
            ]
          ]
        ]
      ]
