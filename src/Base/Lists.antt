-- ===== src/Base/Lists.antt =====
-- Lists under Boolean tests: lengths over the native numbers, filters, quantifiers and membership.
use Prim.Native.Nat.{ℕ, suc, ◌≤◌}
use mathlib.Core.Path.{◌≡◌, refl, ◌∙◌, ap}
use mathlib.Core.Logic.{◌⊎◌, inl, inr}
use mathlib.Core.Bool.{Bool, true, false, ◌&&◌, ◌||◌}
use mathlib.Core.List.{List, [], ◌∷◌, ◌++◌, Memᴰ}
use mathlib.Core.List.Memᴰ
use native.Mathlib.Omega.{arith}
use qarax.Base.Tests.{if◌then◌else◌, Bool-cases, and_true}

module _ {ℓ} {A : Type ℓ} where
  abbrev pub length : List A → ℕ
  length [] = 0
  length (x ∷ xs) = suc (length xs)

  -- `iter().filter(p).collect()`
  abbrev pub filter : (A → Bool) → List A → List A
  filter p [] = []
  filter p (x ∷ xs) = if p x then x ∷ filter p xs else filter p xs

  -- `iter().any(p)` and `iter().all(p)`
  abbrev pub any : (A → Bool) → List A → Bool
  any p [] = false
  any p (x ∷ xs) = p x || any p xs

  abbrev pub all : (A → Bool) → List A → Bool
  all p [] = true
  all p (x ∷ xs) = p x && all p xs

  abbrev pub count_if : (A → Bool) → List A → ℕ
  count_if p xs = length (filter p xs)

  pub length-filter-le : (p : A → Bool) (xs : List A) → length (filter p xs) ≤ length xs
  length-filter-le p [] = omega arith
  length-filter-le p (x ∷ xs) = ground (arith, length-filter-le p xs)

  pub mem-filter_of :
      (p : A → Bool) {a : A} {xs : List A} → Memᴰ a xs → p a ≡ true → Memᴰ a (filter p xs)
  mem-filter_of p {a} (Memᴰ.head {x = x} {xs = r} e) h = rw (← e) (rw h (Memᴰ.head refl))
  mem-filter_of p {a} (Memᴰ.tail {x = x} {xs = r} m) h = elim (Bool-cases (p x)) [
    | inl t ↦ rw t (Memᴰ.tail (mem-filter_of p m h))
    | inr f ↦ rw f (mem-filter_of p m h)
  ]

  pub of_mem-filter :
      (p : A → Bool) {a : A} (xs : List A) → Memᴰ a (filter p xs) → Memᴰ a xs × (p a ≡ true)
  of_mem-filter p {a} [] m = absurd (Memᴰ.not-nil m)
  of_mem-filter p {a} (x ∷ xs) m = elim (Bool-cases (p x)) [
    | inl t ↦ elim (Memᴰ.cases_cons (rw t at m)) [
      | inl e ↦ (Memᴰ.head e, ap p e ∙ t)
      | inr r ↦ (Memᴰ.tail (of_mem-filter p xs r).0, (of_mem-filter p xs r).1)
    ]
    | inr f ↦ (Memᴰ.tail (of_mem-filter p xs (rw f at m)).0, (of_mem-filter p xs (rw f at m)).1)
  ]

  pub any_of_mem : (p : A → Bool) {a : A} {xs : List A} → Memᴰ a xs → p a ≡ true → any p xs ≡ true
  any_of_mem p (Memᴰ.head {x = x} {xs = r} e) h = rw (← e) (rw h)
  any_of_mem p (Memᴰ.tail {x = x} {xs = r} m) h = ground (arith, any_of_mem p m h)

  pub mem_of_any :
      (p : A → Bool) (xs : List A) → any p xs ≡ true → (a : A) × Memᴰ a xs × (p a ≡ true)
  mem_of_any p [] h = cc
  mem_of_any p (x ∷ xs) h = elim (Bool-cases (p x)) [
    | inl t ↦ (x, Memᴰ.head refl, t)
    | inr f ↦ let r = mem_of_any p xs (rw f at h) in (r.0, Memᴰ.tail r.1, r.2)
  ]

  pub all_of_mem : (p : A → Bool) {a : A} {xs : List A} → Memᴰ a xs → all p xs ≡ true → p a ≡ true
  all_of_mem p (Memᴰ.head {x = x} {xs = r} e) h = ap p e ∙ ((and_true (p x) (all p r)).0 h).0
  all_of_mem p (Memᴰ.tail {x = x} {xs = r} m) h = all_of_mem p m ((and_true (p x) (all p r)).0 h).1

  pub all-true : (p : A → Bool) (xs : List A) → ((a : A) → Memᴰ a xs → p a ≡ true) → all p xs ≡ true
  all-true p [] h = refl
  all-true p (x ∷ xs) h = rw (h x (Memᴰ.head refl)) (all-true p xs (λ a m. h a (Memᴰ.tail m)))

  pub mem-append_left : {a : A} {xs : List A} (ys : List A) → Memᴰ a xs → Memᴰ a (xs ++ ys)
  mem-append_left ys m = Memᴰ.append_left ys m

  -- `Option` chains in the order of `?`.
  pub any-false_of :
      (p : A → Bool) {a : A} {xs : List A} → any p xs ≡ false → Memᴰ a xs → p a ≡ false
  any-false_of p {a} {xs} h m = elim (Bool-cases (p a)) [
    | inl t ↦ cc (any_of_mem p m t)
    | inr f ↦ f
  ]

  pub cases_append : {a : A} (xs ys : List A) → Memᴰ a (xs ++ ys) → Memᴰ a xs ⊎ Memᴰ a ys
  cases_append [] ys m = inr m
  cases_append (x ∷ xs) ys m = elim (Memᴰ.cases_cons m) [
    | inl e ↦ inl (Memᴰ.head e)
    | inr r ↦ elim (cases_append xs ys r) [ inl l ↦ inl (Memᴰ.tail l) | inr q ↦ inr q ]
  ]
