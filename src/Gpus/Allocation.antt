-- ===== src/Gpus/Allocation.antt =====
-- What one allocation takes from the table of GPUs.

use qarax.Base.{
  ℕ, ◌≤◌, ◌<◌, ◌≡◌, refl, ◌∙◌, sym, subst, inl, inr, ◌⊎◌, Bool, true, false, not, ◌&&◌, List, Memᴰ,
  filter, length, count_if, nat_ord, text_ord, and_true, arith, of_mem-filter, Bool-cases, sort_by,
  length-take, of_mem-take, length-take_of_lt, length-sort_by, of_mem-sort_by, update_where,
  of_mem-update_where, mem-update_where, count_if-filter-le, count_if-take-le, count_if-sort_by,
  count_if-update_where, count_if_fresh, ==_refl,
}
use qarax.Db.{HostGpu}
use qarax.Schedule.{GpuRequest}
use qarax.Rows.{is_chosen, has_key, HasKeys, count_chosen, mem_of_chosen}
use qarax.Gpus.{gpu_id, by_pci_address, holds, allocatable, give_to, picked_gpus, allocate_gpus}

abbrev pub free : (ℕ → Bool) → ℕ → GpuRequest → HostGpu → Bool
free locked host_id request g = not (locked g.id) && allocatable host_id request g

-- What an allocation does to a table where the VM holds nothing.
pub record Allocates (locked : ℕ → Bool) (host_id vm_id : ℕ) (request : GpuRequest)
    (old new allocated : List HostGpu) : Type 0 where
  pub held : count_if (holds vm_id) new ≡ length allocated
  pub bounded : length allocated ≤ request.count
  pub short :
      length allocated < request.count → count_if (free locked host_id request) old < request.count
  pub row :
      (g : HostGpu)
      → Memᴰ g new
      → Memᴰ g old
        ⊎ ((f : HostGpu) × Memᴰ f old
            × (free locked host_id request f ≡ true)
            × (g ≡ give_to vm_id f))
  pub kept : (g : HostGpu) → Memᴰ g old → allocatable host_id request g ≡ false → Memᴰ g new

module _ (locked : ℕ → Bool) (host_id vm_id : ℕ) (request : GpuRequest) (gpus : List HostGpu)
    (keys : HasKeys gpu_id gpus) (fresh : (g : HostGpu) → Memᴰ g gpus → holds vm_id g ≡ false) where
  abbrev candidates : List HostGpu
  candidates = filter (free locked host_id request) gpus

  abbrev rows : List HostGpu
  rows = picked_gpus locked host_id request gpus

  abbrev updated : List HostGpu
  updated = update_where (is_chosen gpu_id rows) (give_to vm_id) gpus

  mem-rows : (g : HostGpu) → Memᴰ g rows → Memᴰ g gpus × (free locked host_id request g ≡ true)
  unfolding picked_gpus
  mem-rows g m = of_mem-filter (free locked host_id request) gpus (
      of_mem-sort_by by_pci_address candidates
        (of_mem-take request.count (sort_by by_pci_address candidates) m))

  rows-HasKeys : HasKeys gpu_id rows
  unfolding picked_gpus
  rows-HasKeys id = omega (
    arith,
    keys id,
    count_if-filter-le (has_key gpu_id id) (free locked host_id request) gpus,
    count_if-sort_by (has_key gpu_id id) by_pci_address candidates,
    count_if-take-le (has_key gpu_id id) request.count (sort_by by_pci_address candidates),
  )

  chosen_count : count_if (is_chosen gpu_id rows) gpus ≡ length rows
  chosen_count = count_chosen gpu_id rows gpus keys rows-HasKeys (λ g m. (mem-rows g m).0)

  length-allocated : length (filter (is_chosen gpu_id rows) updated) ≡ length rows
  length-allocated =
      count_if-update_where (is_chosen gpu_id rows) (is_chosen gpu_id rows) (give_to vm_id) gpus
        (λ g. refl)
      ∙ chosen_count

  rows_short :
      length rows < request.count → count_if (free locked host_id request) gpus < request.count
  unfolding picked_gpus
  rows_short h = omega (
    arith,
    h,
    length-take_of_lt request.count (sort_by by_pci_address candidates) h,
    length-sort_by by_pci_address candidates,
  )

  rows_bounded : length rows ≤ request.count
  unfolding picked_gpus
  rows_bounded = length-take request.count (sort_by by_pci_address candidates)

  chosen-free :
      (g : HostGpu)
      → Memᴰ g gpus
      → is_chosen gpu_id rows g ≡ true
      → free locked host_id request g ≡ true
  chosen-free g m h = (mem-rows g (mem_of_chosen gpu_id g keys (λ r k. (mem-rows r k).0) m h)).1

  chosen-allocatable :
      (g : HostGpu)
      → Memᴰ g gpus
      → is_chosen gpu_id rows g ≡ true
      → allocatable host_id request g ≡ true
  chosen-allocatable g m h = ((and_true _ _).0 (chosen-free g m h)).1

  pub allocate_gpus-Allocates :
      Allocates locked host_id vm_id request gpus
        (allocate_gpus locked host_id vm_id request gpus).0
        (allocate_gpus locked host_id vm_id request gpus).1
  unfolding allocate_gpus
  allocate_gpus-Allocates = record {
    held =
        count_if_fresh (holds vm_id) (is_chosen gpu_id rows) (give_to vm_id) gpus fresh
          (λ g. ==_refl vm_id)
        ∙ (chosen_count ∙ sym length-allocated);
    bounded = rw length-allocated rows_bounded;
    short = λ h. rows_short (rw length-allocated at h);
    row = λ g m.
        let (f, k, c) = of_mem-update_where (is_chosen gpu_id rows) (give_to vm_id) gpus m in
        elim c [
          | inl t ↦ inr (f, k, chosen-free f k t.0, t.1)
          | inr u ↦ inl (subst (λ (x : HostGpu). Memᴰ x gpus) (sym u.1) k)
        ];
    kept = λ g m away.
        let k = mem-update_where (is_chosen gpu_id rows) (give_to vm_id) m in
        elim (Bool-cases (is_chosen gpu_id rows g)) [
          | inr f ↦ (rw f at k)
          | inl t ↦ cc (chosen-allocatable g m t)
        ];
  }
