-- ===== src/Hooks/Claim.antt =====
-- What one claim takes from the queue.

use qarax.Base.{
  ℕ, ◌≤◌, ◌≡◌, refl, ap, ◌∙◌, sym, subst, ◌⊎◌, inl, inr, ◌↔◌, Bool, true, false, ltb, ltb→lt,
  leb→le, le→leb, List, Memᴰ, filter, length, count_if, nat_ord, and_true, arith, mem-filter_of,
  of_mem-filter, Bool-cases, sort_by, length-take, of_mem-take, mem-take_of_lt, take-IsSorted,
  mem-sort_by, of_mem-sort_by, sort_by-IsSorted, IsPreorder, compare-IsPreorder, on-IsPreorder,
  update_where, of_mem-update_where, mem-update_where, count_if-filter-le, count_if-take-le,
  count_if-sort_by, count_if-update_where,
}
use qarax.Schedule.Tests.{not-true_iff}
use qarax.Rows
use qarax.Rows.{count_chosen, mem_of_chosen, chosen_of_mem}
use qarax.Hooks.{
  HookExecution, HookExecutionStatus, claimable, by_retry, selected, has_id, is_selected,
  with_status, claim_pending_executions, is_pending,
}

-- The primary key.
abbrev pub HasKeys : List HookExecution → Type 0
HasKeys = Rows.HasKeys (λ (e : HookExecution). e.id)

by_retry-IsPreorder : IsPreorder by_retry
by_retry-IsPreorder = on-IsPreorder (λ (e : HookExecution). e.next_retry_at) compare-IsPreorder

-- What a claim asks of a row.
pub record IsDue (now : ℕ) (locked : ℕ → Bool) (e : HookExecution) : Type 0 where
  pub pending : e.status ≡ HookExecutionStatus.pending
  pub due : e.next_retry_at ≤ now
  pub unlocked : locked e.id ≡ false

is_pending-eq : (s : HookExecutionStatus) → is_pending s ≡ true → s ≡ HookExecutionStatus.pending
is_pending-eq HookExecutionStatus.pending h = refl
is_pending-eq HookExecutionStatus.processing h = cc
is_pending-eq HookExecutionStatus.delivered h = cc
is_pending-eq HookExecutionStatus.failed h = cc

claimable-IsDue :
    (now : ℕ) (locked : ℕ → Bool) (e : HookExecution)
    → (claimable now locked e ≡ true) ↔ IsDue now locked e
unfolding claimable
claimable-IsDue now locked e = (
  λ h.
      let (p, h') = (and_true _ _).0 h in
      let (d, l) = (and_true _ _).0 h' in
      record {
        pending = is_pending-eq e.status p;
        due = leb→le e.next_retry_at now d;
        unlocked = (not-true_iff _).0 l;
      },
  λ r. (and_true _ _).1 (
    ap is_pending r.pending,
    (and_true _ _).1 (le→leb e.next_retry_at now r.due, (not-true_iff _).1 r.unlocked),
  ),
)

abbrev pub processing : HookExecution → HookExecution
processing = with_status HookExecutionStatus.processing

-- What a claim does to the queue.
pub record Claims (now : ℕ) (locked : ℕ → Bool) (limit : ℕ) (old new claimed : List HookExecution)
    : Type 0 where
  pub taken :
      (c : HookExecution)
      → Memᴰ c claimed
      → Memᴰ c new × ((e : HookExecution) × Memᴰ e old × IsDue now locked e × (c ≡ processing e))
  pub bounded : length claimed ≤ limit
  pub left_out :
      (e : HookExecution)
      → Memᴰ e old
      → IsDue now locked e
      → ¬ Memᴰ (processing e) claimed
      → (limit ≤ length claimed)
        × ((c : HookExecution) → Memᴰ c claimed → c.next_retry_at ≤ e.next_retry_at)
  pub row : (e : HookExecution) → Memᴰ e old → Memᴰ e new ⊎ Memᴰ (processing e) claimed
  pub no_other : (c : HookExecution) → Memᴰ c new → Memᴰ c old ⊎ Memᴰ c claimed
  pub same_ids : (id : ℕ) → count_if (has_id id) new ≡ count_if (has_id id) old
  pub once : HasKeys claimed

module _ (now : ℕ) (locked : ℕ → Bool) (limit : ℕ) (xs : List HookExecution)
    (keys : HasKeys xs) where
  abbrev due_rows : List HookExecution
  due_rows = filter (claimable now locked) xs

  abbrev rows : List HookExecution
  rows = selected now locked limit xs

  abbrev updated : List HookExecution
  updated = update_where (is_selected rows) processing xs

  mem-rows : (e : HookExecution) → Memᴰ e rows → Memᴰ e xs × IsDue now locked e
  unfolding selected
  mem-rows e m =
      let r =
        of_mem-filter (claimable now locked) xs
          (of_mem-sort_by by_retry due_rows (of_mem-take limit (sort_by by_retry due_rows) m)) in
      (r.0, (claimable-IsDue now locked e).0 r.1)

  rows-HasKeys : HasKeys rows
  unfolding selected
  rows-HasKeys id = omega (
    arith,
    keys id,
    count_if-filter-le (has_id id) (claimable now locked) xs,
    count_if-sort_by (has_id id) by_retry due_rows,
    count_if-take-le (has_id id) limit (sort_by by_retry due_rows),
  )

  selected_row : (e : HookExecution) → Memᴰ e xs → is_selected rows e ≡ true → Memᴰ e rows
  selected_row e m h =
      mem_of_chosen (λ (x : HookExecution). x.id) e keys (λ r k. (mem-rows r k).0) m h

  row_selected : (e : HookExecution) → Memᴰ e rows → is_selected rows e ≡ true
  row_selected e m = chosen_of_mem (λ (x : HookExecution). x.id) e m

  of_claimed :
      (c : HookExecution)
      → Memᴰ c (filter (is_selected rows) updated)
      → (e : HookExecution) × Memᴰ e rows × (c ≡ processing e)
  of_claimed c m =
      let r = of_mem-filter (is_selected rows) updated m in
      let s = of_mem-update_where (is_selected rows) processing xs r.0 in
      elim s.2 [
        | inl t ↦ (s.0, selected_row s.0 s.1 t.0, t.1)
        | inr f ↦ absurd (true_false (sym r.1 ∙ (ap (is_selected rows) f.1 ∙ f.0)))
      ]
    where
      true_false : true ≡ false → ⊥
      true_false h = cc h

  mem_claimed :
      (e : HookExecution) → Memᴰ e rows → Memᴰ (processing e) (filter (is_selected rows) updated)
  mem_claimed e m =
      let k = mem-update_where (is_selected rows) processing (mem-rows e m).0 in
      mem-filter_of (is_selected rows) (rw (row_selected e m) at k) (row_selected e m)

  length-claimed : length (filter (is_selected rows) updated) ≡ length rows
  length-claimed =
      count_if-update_where (is_selected rows) (is_selected rows) processing xs (λ e. refl)
      ∙ count_chosen (λ (x : HookExecution). x.id) rows xs keys rows-HasKeys
          (λ e m. (mem-rows e m).0)

  updated_ids : (id : ℕ) → count_if (has_id id) updated ≡ count_if (has_id id) xs
  updated_ids id = count_if-update_where (has_id id) (is_selected rows) processing xs (λ e. refl)

  rows_bounded : length rows ≤ limit
  unfolding selected
  rows_bounded = length-take limit (sort_by by_retry due_rows)

  in_order :
      (e : HookExecution) → Memᴰ e xs → IsDue now locked e → Memᴰ e (sort_by by_retry due_rows)
  in_order e m d =
      mem-sort_by by_retry due_rows
        (mem-filter_of (claimable now locked) m ((claimable-IsDue now locked e).1 d))

  full : (e : HookExecution) → Memᴰ e xs → IsDue now locked e → ¬ Memᴰ e rows → limit ≤ length rows
  unfolding selected
  full e m d away = elim (Bool-cases (ltb (length rows) limit)) [
    | inl t ↦
        absurd
          (away (mem-take_of_lt limit (sort_by by_retry due_rows) (ltb→lt _ _ t) (in_order e m d)))
    | inr f ↦ ground (arith, f)
  ]

  earlier :
      (e : HookExecution)
      → Memᴰ e xs
      → IsDue now locked e
      → ¬ Memᴰ e rows
      → (r : HookExecution) → Memᴰ r rows
      → r.next_retry_at ≤ e.next_retry_at
  unfolding selected
  earlier e m d away r k =
      let le =
        take-IsSorted by_retry limit (sort_by by_retry due_rows)
          (sort_by-IsSorted by_retry by_retry-IsPreorder due_rows) k (in_order e m d) away in
      ground (arith, le)

  -- With unique identifiers a claim takes at most the limit of pending rows that are due and not
  -- locked and marks these as being processed, each once. It leaves one out only where the limit is reached,
  -- and then no row that it took is due later. The other rows stay.
  pub claim_pending_executions-Claims :
      Claims now locked limit xs
        (claim_pending_executions now locked limit xs).0
        (claim_pending_executions now locked limit xs).1
  unfolding claim_pending_executions
  claim_pending_executions-Claims = record {
    taken = λ c m.
        let r = of_claimed c m in
        let s = mem-rows r.0 r.1 in
        ((of_mem-filter (is_selected rows) updated m).0, (r.0, s.0, s.1, r.2));
    bounded = rw length-claimed (rows_bounded);
    left_out = λ e m d out.
        let away = λ (k : Memᴰ e rows). out (mem_claimed e k) in
        (
          rw length-claimed (full e m d away),
          λ c k.
              let r = of_claimed c k in
              subst (λ (n : ℕ). n ≤ e.next_retry_at)
                (sym (ap (λ (x : HookExecution). x.next_retry_at) r.2))
                (earlier e m d away r.0 r.1),
        );
    row = λ e m. elim (Bool-cases (is_selected rows e)) [
      | inl t ↦ inr (mem_claimed e (selected_row e m t))
      | inr f ↦ inl (rw f at (mem-update_where (is_selected rows) processing m))
    ];
    no_other = λ c m.
        let r = of_mem-update_where (is_selected rows) processing xs m in
        elim r.2 [
          | inl t ↦ inr (
              subst (λ (x : HookExecution). Memᴰ x (filter (is_selected rows) updated)) (sym t.1)
                (mem_claimed r.0 (selected_row r.0 r.1 t.0)))
          | inr f ↦ inl (subst (λ (x : HookExecution). Memᴰ x xs) (sym f.1) r.1)
        ];
    same_ids = updated_ids;
    once = λ id.
        omega (
          arith,
          keys id,
          updated_ids id,
          count_if-filter-le (has_id id) (is_selected rows) updated,
        );
  }
