-- ===== src/Base/Update.antt =====
-- `UPDATE … WHERE`, and how often an identifier stands in a table.
use Prim.Native.Nat.{ℕ, zero, suc, ◌+◌, ◌≤◌, ◌<◌, Ordering}
use mathlib.Core.Path.{◌≡◌, refl, sym, ◌∙◌, ap}
use mathlib.Core.Logic.{◌⊎◌, inl, inr}
use mathlib.Core.Bool.{Bool, true, false, ◌||◌}
use mathlib.Core.List.{List, [], ◌∷◌, ◌++◌, Memᴰ}
use mathlib.Core.List.Memᴰ
use native.Mathlib.Omega.{arith}
use qarax.Base.Tests.{if◌then◌else◌, Bool-cases}
use qarax.Base.Lists.{filter, count_if}
use qarax.Base.Sort.{take, insert_by, sort_by}

unfoldable pub update_where {ℓ} : {A : Type ℓ} → (A → Bool) → (A → A) → List A → List A
update_where p change [] = []
update_where p change (x ∷ xs) = (if p x then change x else x) ∷ update_where p change xs

module _ {ℓ} {A : Type ℓ} where
  -- A row of the updated table is an old one, changed where the condition holds of it.
  pub of_mem-update_where :
      (p : A → Bool) (change : A → A) {y : A} (xs : List A)
      → Memᴰ y (update_where p change xs)
      → (x : A) × Memᴰ x xs × (((p x ≡ true) × (y ≡ change x)) ⊎ ((p x ≡ false) × (y ≡ x)))
  unfolding update_where
  of_mem-update_where p change [] m = absurd (Memᴰ.not-nil m)
  of_mem-update_where p change (x ∷ xs) m = elim (Memᴰ.cases_cons m) [
    | inl e ↦ elim (Bool-cases (p x)) [
      | inl t ↦ (x, Memᴰ.head refl, inl (t, (rw t at e)))
      | inr f ↦ (x, Memᴰ.head refl, inr (f, (rw f at e)))
    ]
    | inr r ↦ let s = of_mem-update_where p change xs r in (s.0, Memᴰ.tail s.1, s.2)
  ]

  pub mem-update_where :
      (p : A → Bool) (change : A → A) {x : A} {xs : List A}
      → Memᴰ x xs
      → Memᴰ (if p x then change x else x) (update_where p change xs)
  unfolding update_where
  mem-update_where p change (Memᴰ.head {x = x} {xs = r} e) =
      Memᴰ.head (ap (λ z. if p z then change z else z) e)
  mem-update_where p change (Memᴰ.tail {x = x} {xs = r} m) = Memᴰ.tail (mem-update_where p change m)

  pub update_where_none :
      (p : A → Bool) (change : A → A) (xs : List A)
      → ((x : A) → Memᴰ x xs → p x ≡ false)
      → update_where p change xs ≡ xs
  unfolding update_where
  update_where_none p change [] h = refl
  update_where_none p change (x ∷ xs) h =
      rw (h x (Memᴰ.head refl))
        (ap (λ r. x ∷ r) (update_where_none p change xs (λ y m. h y (Memᴰ.tail m))))

  pub update_where_id : (p : A → Bool) (xs : List A) → update_where p (λ x. x) xs ≡ xs
  unfolding update_where
  update_where_id p [] = refl
  update_where_id p (x ∷ xs) = ground (arith, update_where_id p xs)

  pub update_where_twice :
      (p : A → Bool) (f g : A → A) (xs : List A)
      → ((x : A) → p (f x) ≡ p x)
      → update_where p g (update_where p f xs) ≡ update_where p (λ x. g (f x)) xs
  unfolding update_where
  update_where_twice p f g [] h = refl
  update_where_twice p f g (x ∷ xs) h = ground (arith, h x, update_where_twice p f g xs h)

  -- Counts of the rows that a test finds.
  pub count_if-update_where :
      (q p : A → Bool) (change : A → A) (xs : List A)
      → ((x : A) → q (change x) ≡ q x)
      → count_if q (update_where p change xs) ≡ count_if q xs
  unfolding update_where
  count_if-update_where q p change [] h = refl
  count_if-update_where q p change (x ∷ xs) h =
      ground (arith, h x, count_if-update_where q p change xs h)

  -- An update that makes a test hold which held nowhere before.
  pub count_if_fresh :
      (q p : A → Bool) (change : A → A) (xs : List A)
      → ((x : A) → Memᴰ x xs → q x ≡ false)
      → ((x : A) → q (change x) ≡ true)
      → count_if q (update_where p change xs) ≡ count_if p xs
  unfolding update_where
  count_if_fresh q p change [] h k = refl
  count_if_fresh q p change (x ∷ xs) h k =
      ground (
        arith,
        h x (Memᴰ.head refl),
        k x,
        count_if_fresh q p change xs (λ y m. h y (Memᴰ.tail m)) k,
      )

  pub count_if-filter-le : (q p : A → Bool) (xs : List A) → count_if q (filter p xs) ≤ count_if q xs
  count_if-filter-le q p [] = omega arith
  count_if-filter-le q p (x ∷ xs) = ground (arith, count_if-filter-le q p xs)

  pub count_if-append :
      (q : A → Bool) (xs ys : List A) → count_if q (xs ++ ys) ≡ count_if q xs + count_if q ys
  count_if-append q [] ys = omega arith
  count_if-append q (x ∷ xs) ys = ground (arith, count_if-append q xs ys)

  pub count_if-take-le :
      (q : A → Bool) (n : ℕ) (xs : List A) → count_if q (take n xs) ≤ count_if q xs
  unfolding take
  count_if-take-le q zero xs = omega arith
  count_if-take-le q (suc n) [] = omega arith
  count_if-take-le q (suc n) (x ∷ xs) = ground (arith, count_if-take-le q n xs)

  count_if-insert_by :
      (q : A → Bool) (cmp : A → A → Ordering) (x : A) (ys : List A)
      → count_if q (insert_by cmp x ys) ≡ count_if q (x ∷ ys)
  unfolding insert_by
  count_if-insert_by q cmp x [] = refl
  count_if-insert_by q cmp x (y ∷ ys) = ground (arith, count_if-insert_by q cmp x ys)

  pub count_if-sort_by :
      (q : A → Bool) (cmp : A → A → Ordering) (xs : List A)
      → count_if q (sort_by cmp xs) ≡ count_if q xs
  unfolding sort_by
  count_if-sort_by q cmp [] = refl
  count_if-sort_by q cmp (x ∷ xs) =
      ground (arith, count_if-insert_by q cmp x (sort_by cmp xs), count_if-sort_by q cmp xs)

  pub count_if_pos :
      (q : A → Bool) {x : A} {xs : List A} → Memᴰ x xs → q x ≡ true → 0 < count_if q xs
  count_if_pos q (Memᴰ.head {x = x} {xs = r} e) h = rw (sym (ap q e) ∙ h) (omega arith)
  count_if_pos q (Memᴰ.tail {x = x} {xs = r} m) h = ground (arith, count_if_pos q m h)

  pub mem_of_count_if :
      (q : A → Bool) (xs : List A) → 0 < count_if q xs → (x : A) × Memᴰ x xs × (q x ≡ true)
  mem_of_count_if q [] h = absurd (omega arith)
  mem_of_count_if q (x ∷ xs) h = elim (Bool-cases (q x)) [
    | inl t ↦ (x, Memᴰ.head refl, t)
    | inr f ↦ let r = mem_of_count_if q xs (rw f at h) in (r.0, Memᴰ.tail r.1, r.2)
  ]

  -- Two disjoint tests count separately.
  pub count_if_or :
      (p q : A → Bool) (xs : List A)
      → ((x : A) → Memᴰ x xs → p x ≡ true → q x ≡ false)
      → count_if (λ x. p x || q x) xs ≡ count_if p xs + count_if q xs
  count_if_or p q [] h = refl
  count_if_or p q (x ∷ xs) h =
      ground (arith, h x (Memᴰ.head refl), count_if_or p q xs (λ y m. h y (Memᴰ.tail m)))

  -- Where a test finds one row only, two rows of which it holds are the same.
  pub eq_of_count_if :
      (q : A → Bool) {x y : A} (xs : List A)
      → count_if q xs ≤ 1
      → Memᴰ x xs
      → Memᴰ y xs
      → q x ≡ true
      → q y ≡ true
      → x ≡ y
  eq_of_count_if q [] h m n s t = absurd (Memᴰ.not-nil m)
  eq_of_count_if q {x} {y} (z ∷ zs) h m n s t = elim (Memᴰ.cases_cons m) [
    | inl a ↦ elim (Memᴰ.cases_cons n) [
      | inl b ↦ a ∙ sym b
      | inr b ↦ absurd (ground (arith, h, count_if_pos q b t, sym (ap q a) ∙ s))
    ]
    | inr a ↦ elim (Memᴰ.cases_cons n) [
      | inl b ↦ absurd (ground (arith, h, count_if_pos q a s, sym (ap q b) ∙ t))
      | inr b ↦ eq_of_count_if q zs (ground (arith, h)) a b s t
    ]
  ]
