-- ===== src/Rows.antt =====
-- `UPDATE … WHERE id IN (SELECT id … LIMIT n) RETURNING …`: the rows that a statement picks by their
-- keys, as the queue of hooks (qarax/src/model/lifecycle_hooks.rs) and the table of GPUs
-- (qarax/src/model/host_gpus.rs) use it.
use mathlib.Core.List.Memᴰ
use qarax.Base.{
  ℕ, suc, ◌≤◌, ◌≡◌, refl, ◌∙◌, sym, subst, inl, inr, Bool, true, false, List, [], ◌∷◌, Memᴰ, length,
  count_if, nat_ord, arith, Bool-cases, count_if_pos, count_if_or, eq_of_count_if, ==_iff, ==_refl,
  ◌==◌, map,
}
use qarax.Schedule.{elem}
use qarax.Schedule.Tests.{elem_iff}

module _ {ℓ} {A : Type ℓ} (key : A → ℕ) where
  abbrev pub has_key : ℕ → A → Bool
  has_key id x = id == key x

  abbrev pub is_chosen : List A → A → Bool
  is_chosen rows x = elem (key x) (map key rows)

  -- The primary key.
  abbrev pub HasKeys : List A → Type 0
  HasKeys xs = (id : ℕ) → count_if (has_key id) xs ≤ 1

  count_head :
      (r : A) (rs : List A)
      → count_if (has_key (key r)) (r ∷ rs) ≡ suc (count_if (has_key (key r)) rs)
  count_head r rs = rw (==_refl (key r)) refl

  -- Rows with keys are found once each.
  pub count_chosen :
      (rows xs : List A)
      → HasKeys xs
      → HasKeys rows
      → ((e : A) → Memᴰ e rows → Memᴰ e xs)
      → count_if (is_chosen rows) xs ≡ length rows
  count_chosen [] xs keys own sub = none_chosen xs
    where
      none_chosen : (ys : List A) → count_if (is_chosen []) ys ≡ 0
      none_chosen [] = refl
      none_chosen (y ∷ ys) = none_chosen ys
  count_chosen (r ∷ rs) xs keys own sub =
      count_if_or (has_key (key r)) (is_chosen rs) xs disjoint
      ∙ omega (
        arith,
        keys (key r),
        count_if_pos (has_key (key r)) (sub r (Memᴰ.head refl)) (==_refl (key r)),
        count_chosen rs xs keys own_rest (λ e m. sub e (Memᴰ.tail m)),
      )
    where
      own_rest : HasKeys rs
      own_rest id = ground (arith, own id)

      disjoint : (e : A) → Memᴰ e xs → has_key (key r) e ≡ true → is_chosen rs e ≡ false
      disjoint e m h = elim (Bool-cases (is_chosen rs e)) [
        | inr f ↦ f
        | inl t ↦
            let q = Memᴰ.of_map key rs ((elem_iff (key e) _).0 t) in
            let same = (==_iff (key r) (key e)).0 h ∙ sym q.2 in
            absurd (
              omega (
                arith,
                own (key r),
                count_head r rs,
                count_if_pos (has_key (key r)) q.1 (rw same (==_refl (key q.0))),
              ))
      ]

  -- A row of the table whose key is among those of the chosen rows is one of them.
  pub mem_of_chosen :
      {rows xs : List A} (e : A)
      → HasKeys xs
      → ((r : A) → Memᴰ r rows → Memᴰ r xs)
      → Memᴰ e xs
      → is_chosen rows e ≡ true
      → Memᴰ e rows
  mem_of_chosen {rows} {xs} e keys sub m h =
      let q = Memᴰ.of_map key rows ((elem_iff (key e) _).0 h) in
      let same =
        eq_of_count_if (has_key (key e)) xs (keys (key e)) (sub q.0 q.1) m
          ((==_iff (key e) (key q.0)).1 (sym q.2)) (==_refl (key e)) in
      subst (λ (x : A). Memᴰ x rows) same q.1

  pub chosen_of_mem : {rows : List A} (e : A) → Memᴰ e rows → is_chosen rows e ≡ true
  chosen_of_mem e m = (elem_iff (key e) _).1 (Memᴰ.map key m)
