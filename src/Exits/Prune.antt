-- ===== src/Exits/Prune.antt =====
-- What `prune_completed_exits` leaves.
use mathlib.Core.List.Memᴰ
use qarax.Base.{
  ℕ, suc, ◌+◌, ◌-◌, ◌≤◌, ◌<◌, ◌≡◌, refl, ap, ◌∙◌, sym, inl, inr, Bool, true, false, not, some, none,
  List, [], ◌∷◌, Memᴰ, filter, length, take, sort_by, count_if, leb, nat_ord, arith, Bool-cases,
  IsSorted, IsPreorder, compare-IsPreorder, on-IsPreorder, sort_by-IsSorted, length-take,
  length-take_of_lt, length-sort_by, count_if-filter-le, count_if-take-le, count_if-sort_by,
  of_mem-take, of_mem-sort_by, is_le, zero, ltb,
}
use qarax.Rows.{HasKeys, has_key, is_chosen, count_chosen, mem_of_chosen}
use qarax.Exits.Lookup.{get-filter, absent-filter, mem_of_get, length-not}
use qarax.Exits.{
  CompletedExit, pid_of, get, is_recent, by_time, surplus, prune_rows, max_completed_exit_records,
}

by_time-IsPreorder : IsPreorder by_time
by_time-IsPreorder =
    on-IsPreorder (λ (row : ℕ × CompletedExit). row.1.recorded_at) compare-IsPreorder

-- Recorded at the time or later.
abbrev pub is_since : ℕ → ℕ × CompletedExit → Bool
is_since time row = leb time row.1.recorded_at

all_since :
    (time : ℕ) (rows : List (ℕ × CompletedExit))
    → ((row : ℕ × CompletedExit) → Memᴰ row rows → is_since time row ≡ true)
    → count_if (is_since time) rows ≡ length rows
all_since time [] h = refl
all_since time (row ∷ rows) h =
    rw (h row (Memᴰ.head refl)) (ap suc (all_since time rows (λ r m. h r (Memᴰ.tail m))))

-- In a sorted list, all from a row of the first `n` on were recorded at its time or later.
since_first :
    (n : ℕ) (row : ℕ × CompletedExit) (rows : List (ℕ × CompletedExit))
    → IsSorted by_time rows
    → Memᴰ row (take n rows)
    → length rows < count_if (is_since row.1.recorded_at) rows + n
unfolding take
since_first zero row rows s m = absurd (Memᴰ.not-nil m)
since_first (suc n) row [] s m = absurd (Memᴰ.not-nil m)
since_first (suc n) row (r ∷ rows) s m = elim (Memᴰ.cases_cons m) [
  | inl e ↦
      let later = all_since row.1.recorded_at (r ∷ rows) (λ x k. elim (Memᴰ.cases_cons k) [
        | inl q ↦ rw (q ∙ sym e) (ground arith)
        | inr q ↦ rw e (of_le r x (s.0 x q))
      ]) in
      omega (arith, later)
  | inr k ↦ omega (arith, since_first n row rows s.1 k, more r rows)
]
  where
    of_le :
        (a b : ℕ × CompletedExit) → is_le (by_time a b) ≡ true → is_since a.1.recorded_at b ≡ true
    of_le a b h = ground arith

    more :
        (r : ℕ × CompletedExit) (rows : List (ℕ × CompletedExit))
        → count_if (is_since row.1.recorded_at) rows
          ≤ count_if (is_since row.1.recorded_at) (r ∷ rows)
    more r rows = elim (Bool-cases (is_since row.1.recorded_at r)) [
      | inl t ↦ rw t (omega arith)
      | inr f ↦ rw f (omega arith)
    ]

module _ (now : ℕ) (rows : List (ℕ × CompletedExit)) where
  abbrev recent : List (ℕ × CompletedExit)
  recent = filter (is_recent now) rows

  pub count-prune_rows :
      (q : ℕ × CompletedExit → Bool) → count_if q (prune_rows now rows) ≤ count_if q rows
  unfolding prune_rows
  count-prune_rows q = elim (Bool-cases (leb (length recent) max_completed_exit_records)) [
    | inl t ↦ rw t (count_if-filter-le q (is_recent now) rows)
    | inr f ↦ rw f (
        omega (
          arith,
          count_if-filter-le q (λ row. not (is_chosen pid_of (surplus recent) row)) recent,
          count_if-filter-le q (is_recent now) rows,
        ))
  ]

  pub prune_rows-HasKeys : HasKeys pid_of rows → HasKeys pid_of (prune_rows now rows)
  prune_rows-HasKeys keys id = omega (arith, keys id, count-prune_rows (has_key pid_of id))

  pub absent-prune_rows : (pid : ℕ) → get pid rows ≡ none → get pid (prune_rows now rows) ≡ none
  unfolding prune_rows
  absent-prune_rows pid h = elim (Bool-cases (leb (length recent) max_completed_exit_records)) [
    | inl t ↦ rw t (absent-filter (is_recent now) pid rows h)
    | inr f ↦ rw f (absent-filter _ pid recent (absent-filter (is_recent now) pid rows h))
  ]

  surplus_of : (row : ℕ × CompletedExit) → Memᴰ row (surplus recent) → Memᴰ row recent
  unfolding surplus
  surplus_of row m = of_mem-sort_by by_time recent (of_mem-take _ (sort_by by_time recent) m)

  recent-HasKeys : HasKeys pid_of rows → HasKeys pid_of recent
  recent-HasKeys keys id =
      omega (arith, keys id, count_if-filter-le (has_key pid_of id) (is_recent now) rows)

  surplus-HasKeys : HasKeys pid_of rows → HasKeys pid_of (surplus recent)
  unfolding surplus
  surplus-HasKeys keys id = omega (
    arith,
    recent-HasKeys keys id,
    count_if-sort_by (has_key pid_of id) by_time recent,
    count_if-take-le (has_key pid_of id) (length recent - max_completed_exit_records)
        (sort_by by_time recent),
  )

  length-surplus : length (surplus recent) ≡ length recent - max_completed_exit_records
  unfolding surplus
  length-surplus =
      let n = length recent - max_completed_exit_records in
      let sorted = sort_by by_time recent in
      elim (Bool-cases (ltb (length (take n sorted)) n)) [
        | inl t ↦ ground (arith, t, length-take_of_lt n sorted, length-sort_by by_time recent)
        | inr f ↦ ground (arith, f, length-take n sorted)
      ]

  -- At most 128 rows are left.
  pub length-prune_rows :
      HasKeys pid_of rows → length (prune_rows now rows) ≤ max_completed_exit_records
  unfolding prune_rows
  length-prune_rows keys = elim (Bool-cases (leb (length recent) max_completed_exit_records)) [
    | inl t ↦ rw t (ground arith)
    | inr f ↦ rw f (
        omega (
          arith,
          length-not (is_chosen pid_of (surplus recent)) recent,
          count_chosen pid_of (surplus recent) recent (recent-HasKeys keys) (surplus-HasKeys keys)
              surplus_of,
          length-surplus,
        ))
  ]

  -- A row that is recent is left, unless 128 others were recorded at its time or later.
  pub get-prune_rows :
      (pid : ℕ) {row : CompletedExit}
      → HasKeys pid_of rows
      → get pid rows ≡ some row
      → is_recent now (pid, row) ≡ true
      → count_if (is_since row.recorded_at) rows ≤ max_completed_exit_records
      → get pid (prune_rows now rows) ≡ some row
  unfolding prune_rows surplus
  get-prune_rows pid {row} keys found young few =
      elim (Bool-cases (leb (length recent) max_completed_exit_records)) [
        | inl t ↦ rw t (get-filter (is_recent now) pid rows found young)
        | inr f ↦ rw f (
            get-filter _ pid recent here
              (elim (Bool-cases (is_chosen pid_of (surplus recent) (pid, row))) [
                | inr g ↦ rw g refl
                | inl t ↦ absurd (
                    too_many f (
                      mem_of_chosen pid_of (pid, row) (recent-HasKeys keys) surplus_of
                        (mem_of_get pid recent here) t))
              ]))
      ]
    where
      here : get pid recent ≡ some row
      here = get-filter (is_recent now) pid rows found young

      too_many :
          leb (length recent) max_completed_exit_records ≡ false
          → Memᴰ (pid, row) (surplus recent)
          → ⊥
      too_many f m =
          let n = length recent - max_completed_exit_records in
          let first =
            since_first n (pid, row) (sort_by by_time recent)
              (sort_by-IsSorted by_time by_time-IsPreorder recent) m in
          let counted = count_if-sort_by (is_since row.recorded_at) by_time recent in
          let fewer = count_if-filter-le (is_since row.recorded_at) (is_recent now) rows in
          let same = length-sort_by by_time recent in
          let larger : max_completed_exit_records < length recent = ground arith in
          omega (arith, first, counted, fewer, same, larger, few)
