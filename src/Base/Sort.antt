-- ===== src/Base/Sort.antt =====
-- `ORDER BY … LIMIT n`: insertion sort by a comparator, and the first rows of a list.
use Prim.Native.Nat.{ℕ, zero, suc, ◌≤◌, ◌<◌, Ordering}
use mathlib.Core.Path.{◌≡◌, refl, ◌∙◌, ap}
use mathlib.Core.Logic.{inl, inr}
use mathlib.Core.Bool.{true}
use mathlib.Core.List.{List, [], ◌∷◌, Memᴰ}
use mathlib.Core.List.Memᴰ
use native.Mathlib.Omega.{arith}
use qarax.Base.Tests.{if◌then◌else◌, Bool-cases}
use qarax.Base.Lists.{length}
use qarax.Base.Order.{is_le, IsPreorder}

unfoldable pub take {ℓ} : {A : Type ℓ} → ℕ → List A → List A
take zero xs = []
take (suc n) [] = []
take (suc n) (x ∷ xs) = x ∷ take n xs

module _ {ℓ} {A : Type ℓ} (cmp : A → A → Ordering) where
  unfoldable pub insert_by : A → List A → List A
  insert_by x [] = x ∷ []
  insert_by x (y ∷ ys) = if is_le (cmp x y) then x ∷ y ∷ ys else y ∷ insert_by x ys

  unfoldable pub sort_by : List A → List A
  sort_by [] = []
  sort_by (x ∷ xs) = insert_by x (sort_by xs)

-- Each element stands before all that it follows in the list.
abbrev pub IsSorted {ℓ} : {A : Type ℓ} → (A → A → Ordering) → List A → Type ℓ
IsSorted cmp [] = Unit
IsSorted {A = A} cmp (x ∷ xs) = ((y : A) → Memᴰ y xs → is_le (cmp x y) ≡ true) × IsSorted cmp xs

module _ {ℓ} {A : Type ℓ} where
  pub length-take : (n : ℕ) (xs : List A) → length (take n xs) ≤ n
  unfolding take
  length-take zero xs = omega arith
  length-take (suc n) [] = omega arith
  length-take (suc n) (x ∷ xs) = omega (arith, length-take n xs)

  pub length-take_of_lt :
      (n : ℕ) (xs : List A) → length (take n xs) < n → length (take n xs) ≡ length xs
  unfolding take
  length-take_of_lt zero xs h = absurd (omega arith)
  length-take_of_lt (suc n) [] h = refl
  length-take_of_lt (suc n) (x ∷ xs) h = ap suc (length-take_of_lt n xs (omega arith))

  pub of_mem-take : {x : A} (n : ℕ) (xs : List A) → Memᴰ x (take n xs) → Memᴰ x xs
  unfolding take
  of_mem-take zero xs m = absurd (Memᴰ.not-nil m)
  of_mem-take (suc n) [] m = absurd (Memᴰ.not-nil m)
  of_mem-take (suc n) (y ∷ ys) m = elim (Memᴰ.cases_cons m) [
    | inl e ↦ Memᴰ.head e
    | inr r ↦ Memᴰ.tail (of_mem-take n ys r)
  ]

  -- A short `take` leaves nothing out.
  pub mem-take_of_lt :
      {x : A} (n : ℕ) (xs : List A) → length (take n xs) < n → Memᴰ x xs → Memᴰ x (take n xs)
  unfolding take
  mem-take_of_lt zero xs h m = absurd (omega arith)
  mem-take_of_lt (suc n) [] h m = m
  mem-take_of_lt (suc n) (y ∷ ys) h m = elim (Memᴰ.cases_cons m) [
    | inl e ↦ Memᴰ.head e
    | inr r ↦ Memᴰ.tail (mem-take_of_lt n ys (omega arith) r)
  ]

  -- What `take` leaves out follows what it keeps.
  pub take-IsSorted :
      (cmp : A → A → Ordering) {x y : A} (n : ℕ) (xs : List A)
      → IsSorted cmp xs
      → Memᴰ x (take n xs)
      → Memᴰ y xs
      → ¬ Memᴰ y (take n xs)
      → is_le (cmp x y) ≡ true
  unfolding take
  take-IsSorted cmp zero xs s m k out = absurd (Memᴰ.not-nil m)
  take-IsSorted cmp (suc n) [] s m k out = absurd (Memᴰ.not-nil m)
  take-IsSorted cmp {x} {y} (suc n) (z ∷ zs) s m k out = elim (Memᴰ.cases_cons k) [
    | inl e ↦ absurd (out (Memᴰ.head e))
    | inr r ↦ elim (Memᴰ.cases_cons m) [
      | inl e ↦ rw e (s.0 y r)
      | inr t ↦ take-IsSorted cmp n zs s.1 t r (λ q. out (Memᴰ.tail q))
    ]
  ]

module _ {ℓ} {A : Type ℓ} (cmp : A → A → Ordering) where
  mem-insert_by : {z : A} (x : A) (ys : List A) → Memᴰ z (x ∷ ys) → Memᴰ z (insert_by cmp x ys)
  unfolding insert_by
  mem-insert_by x [] m = m
  mem-insert_by x (y ∷ ys) m = elim (Bool-cases (is_le (cmp x y))) [
    | inl t ↦ rw t m
    | inr f ↦ rw f (elim (Memᴰ.cases_cons m) [
      | inl e ↦ Memᴰ.tail (mem-insert_by x ys (Memᴰ.head e))
      | inr r ↦ elim (Memᴰ.cases_cons r) [
        | inl e ↦ Memᴰ.head e
        | inr s ↦ Memᴰ.tail (mem-insert_by x ys (Memᴰ.tail s))
      ]
    ])
  ]

  of_mem-insert_by : {z : A} (x : A) (ys : List A) → Memᴰ z (insert_by cmp x ys) → Memᴰ z (x ∷ ys)
  unfolding insert_by
  of_mem-insert_by x [] m = m
  of_mem-insert_by {z} x (y ∷ ys) m = elim (Bool-cases (is_le (cmp x y))) [
    | inl t ↦ (rw t at m)
    | inr f ↦ elim (Memᴰ.cases_cons (rw f at m)) [
      | inl e ↦ Memᴰ.tail (Memᴰ.head e)
      | inr r ↦ elim (Memᴰ.cases_cons (of_mem-insert_by x ys r)) [
        | inl e ↦ Memᴰ.head e
        | inr s ↦ Memᴰ.tail (Memᴰ.tail s)
      ]
    ]
  ]

  length-insert_by : (x : A) (ys : List A) → length (insert_by cmp x ys) ≡ suc (length ys)
  unfolding insert_by
  length-insert_by x [] = refl
  length-insert_by x (y ∷ ys) = ground (arith, length-insert_by x ys)

  pub length-sort_by : (xs : List A) → length (sort_by cmp xs) ≡ length xs
  unfolding sort_by
  length-sort_by [] = refl
  length-sort_by (x ∷ xs) = length-insert_by x (sort_by cmp xs) ∙ ap suc (length-sort_by xs)

  pub mem-sort_by : {z : A} (xs : List A) → Memᴰ z xs → Memᴰ z (sort_by cmp xs)
  unfolding sort_by
  mem-sort_by [] m = m
  mem-sort_by (x ∷ xs) m = elim (Memᴰ.cases_cons m) [
    | inl e ↦ mem-insert_by x (sort_by cmp xs) (Memᴰ.head e)
    | inr r ↦ mem-insert_by x (sort_by cmp xs) (Memᴰ.tail (mem-sort_by xs r))
  ]

  pub of_mem-sort_by : {z : A} (xs : List A) → Memᴰ z (sort_by cmp xs) → Memᴰ z xs
  unfolding sort_by
  of_mem-sort_by [] m = m
  of_mem-sort_by (x ∷ xs) m = elim (Memᴰ.cases_cons (of_mem-insert_by x (sort_by cmp xs) m)) [
    | inl e ↦ Memᴰ.head e
    | inr r ↦ Memᴰ.tail (of_mem-sort_by xs r)
  ]

  insert_by-IsSorted :
      (p : IsPreorder cmp) (x : A) (ys : List A)
      → IsSorted cmp ys
      → IsSorted cmp (insert_by cmp x ys)
  unfolding insert_by
  insert_by-IsSorted p x [] s = (λ y m. absurd (Memᴰ.not-nil m), tt)
  insert_by-IsSorted p x (y ∷ ys) s = elim (Bool-cases (is_le (cmp x y))) [
    | inl t ↦
        rw t (
          λ z m. elim (Memᴰ.cases_cons m) [ inl e ↦ rw e t | inr r ↦ p.trans x y z t (s.0 z r) ],
          s,
        )
    | inr f ↦ rw f (
      λ z m. elim (Memᴰ.cases_cons (of_mem-insert_by x ys m)) [
        | inl e ↦ rw e (ground (arith, f, p.flip x y))
        | inr r ↦ s.0 z r
      ],
      insert_by-IsSorted p x ys s.1,
    )
  ]

  pub sort_by-IsSorted : (p : IsPreorder cmp) (xs : List A) → IsSorted cmp (sort_by cmp xs)
  unfolding sort_by
  sort_by-IsSorted p [] = tt
  sort_by-IsSorted p (x ∷ xs) = insert_by-IsSorted p x (sort_by cmp xs) (sort_by-IsSorted p xs)
