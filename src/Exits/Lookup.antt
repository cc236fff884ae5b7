-- ===== src/Exits/Lookup.antt =====
-- Looking a process up in the maps of the registry.

use qarax.Base.{
  ℕ, ◌+◌, ◌≡◌, refl, ap, ◌∙◌, sym, inl, inr, Bool, true, not, some, none, List, [], ◌∷◌, Memᴰ,
  filter, length, count_if, ◌==◌, nat_ord, ==_iff, arith, Bool-cases, count_if-filter-le,
}
use qarax.Rows.{HasKeys, has_key}
use qarax.Exits.{pid_of, get, remove, insert}

module _ {ℓ} {A : Type ℓ} where
  pub get-filter :
      (p : ℕ × A → Bool) (pid : ℕ) (rows : List (ℕ × A)) {a : A}
      → get pid rows ≡ some a
      → p (pid, a) ≡ true
      → get pid (filter p rows) ≡ some a
  unfolding get
  get-filter p pid [] h k = cc h
  get-filter p pid ((q, b) ∷ rows) {a} h k = elim (Bool-cases (pid == q)) [
    | inl t ↦
        let same : b ≡ a = injective (rw t at h) in
        let kept : p (q, b) ≡ true = rw (sym ((==_iff pid q).0 t), same) k in
        rw kept (rw t (ap some same))
    | inr f ↦ elim (Bool-cases (p (q, b))) [
      | inl t ↦ rw t (rw f (get-filter p pid rows (rw f at h) k))
      | inr g ↦ rw g (get-filter p pid rows (rw f at h) k)
    ]
  ]
    where
      injective : {x y : A} → some x ≡ some y → x ≡ y
      injective e = cc e

  pub absent-filter :
      (p : ℕ × A → Bool) (pid : ℕ) (rows : List (ℕ × A))
      → get pid rows ≡ none
      → get pid (filter p rows) ≡ none
  unfolding get
  absent-filter p pid [] h = refl
  absent-filter p pid (row ∷ rows) h = elim (Bool-cases (pid == row.0)) [
    | inl t ↦ absurd (differ (rw t at h))
    | inr f ↦ elim (Bool-cases (p row)) [
      | inl t ↦ rw t (rw f (absent-filter p pid rows (rw f at h)))
      | inr g ↦ rw g (absent-filter p pid rows (rw f at h))
    ]
  ]
    where
      differ : {x : A} → some x ≡ none → ⊥
      differ e = cc e

  pub mem_of_get :
      (pid : ℕ) (rows : List (ℕ × A)) {a : A} → get pid rows ≡ some a → Memᴰ (pid, a) rows
  unfolding get
  mem_of_get pid [] h = cc h
  mem_of_get pid ((q, b) ∷ rows) {a} h = elim (Bool-cases (pid == q)) [
    | inl t ↦ Memᴰ.head (
        ap (λ (i : ℕ). (i, a)) ((==_iff pid q).0 t)
        ∙ ap (λ (x : A). (q, x)) (sym (injective (rw t at h))))
    | inr f ↦ Memᴰ.tail (mem_of_get pid rows (rw f at h))
  ]
    where
      injective : {x y : A} → some x ≡ some y → x ≡ y
      injective e = cc e

  -- No row has a key that the list does not give a value.
  pub count_of_none :
      (pid : ℕ) (rows : List (ℕ × A)) → get pid rows ≡ none → count_if (has_key pid_of pid) rows ≡ 0
  unfolding get
  count_of_none pid [] h = refl
  count_of_none pid (row ∷ rows) h = elim (Bool-cases (pid == row.0)) [
    | inl t ↦ absurd (differ (rw t at h))
    | inr f ↦ rw f (count_of_none pid rows (rw f at h))
  ]
    where
      differ : {x : A} → some x ≡ none → ⊥
      differ e = cc e

  pub get-remove : (pid : ℕ) (rows : List (ℕ × A)) → get pid (remove pid rows) ≡ none
  unfolding get
  get-remove pid [] = refl
  get-remove pid (row ∷ rows) = elim (Bool-cases (pid == row.0)) [
    | inl t ↦ rw t (get-remove pid rows)
    | inr f ↦ rw f (rw f (get-remove pid rows))
  ]

  pub insert-HasKeys :
      (pid : ℕ) (a : A) (rows : List (ℕ × A))
      → HasKeys pid_of rows
      → HasKeys pid_of (insert pid a rows)
  insert-HasKeys pid a rows keys id = elim (Bool-cases (id == pid)) [
    | inr f ↦ rw f (
        omega
          (arith, keys id, count_if-filter-le (has_key pid_of id) (λ row. not (pid == row.0)) rows))
    | inl t ↦ rw t (
        omega (
          arith,
          ap (λ (i : ℕ). count_if (has_key pid_of i) (remove pid rows)) ((==_iff id pid).0 t)
              ∙ count_of_none pid (remove pid rows) (get-remove pid rows),
        ))
  ]

  pub filter-HasKeys :
      (p : ℕ × A → Bool) (rows : List (ℕ × A))
      → HasKeys pid_of rows
      → HasKeys pid_of (filter p rows)
  filter-HasKeys p rows keys id =
      omega (arith, keys id, count_if-filter-le (has_key pid_of id) p rows)

  pub length-not :
      (p : ℕ × A → Bool) (rows : List (ℕ × A))
      → length (filter (λ row. not (p row)) rows) + count_if p rows ≡ length rows
  length-not p [] = refl
  length-not p (row ∷ rows) = elim (Bool-cases (p row)) [
    | inl t ↦ rw t (omega (arith, length-not p rows))
    | inr f ↦ rw f (omega (arith, length-not p rows))
  ]
