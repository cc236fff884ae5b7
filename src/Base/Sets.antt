-- ===== src/Base/Sets.antt =====
-- `BTreeSet` and `BTreeMap` as the sorted lists that their iterators return.
use Prim.Native.Nat.Ordering.{lt, eq, gt}
use mathlib.Core.Path.{◌≡◌, refl, sym, ap₂}
use mathlib.Core.Logic.{◌⊎◌, inl, inr}
use mathlib.Core.List.{List, [], ◌∷◌, Memᴰ}
use mathlib.Core.List.Memᴰ
use native.Mathlib.Omega.{arith}
use qarax.Base.Order.{Ord, cmp_refl, eq_trans, less, equal, greater, trichotomy}

module _ {ℓ} {K : Type ℓ} ⦃o : Ord K⦄ where
  -- `BTreeSet::insert`
  unfoldable pub insert : K → List K → List K
  insert k [] = k ∷ []
  insert k (x ∷ xs) = elim (o.cmp k x) [ lt ↦ k ∷ x ∷ xs | eq ↦ x ∷ xs | gt ↦ x ∷ insert k xs ]

  -- `collect::<BTreeSet<_>>().into_iter().collect()`
  unfoldable pub collect : List K → List K
  unfolding insert
  collect [] = []
  collect (x ∷ xs) = insert x (collect xs)

  -- Strictly increasing, so without repetition.
  abbrev pub Above : K → List K → Type ℓ
  Above k [] = Unit
  Above k (x ∷ xs) = (o.cmp k x ≡ lt) × Above k xs

  abbrev pub IsStrict : List K → Type ℓ
  IsStrict [] = Unit
  IsStrict (x ∷ xs) = Above x xs × IsStrict xs

  pub lt_trans : (a b c : K) → o.cmp a b ≡ lt → o.cmp b c ≡ lt → o.cmp a c ≡ lt
  lt_trans a b c h k = ground (arith, o.preorder.trans a b c, eq_trans o.preorder a b c)

  Above-trans : (a b : K) (xs : List K) → o.cmp a b ≡ lt → Above b xs → Above a xs
  Above-trans a b [] h s = tt
  Above-trans a b (x ∷ xs) h s = (lt_trans a b x h s.0, Above-trans a b xs h s.1)

  insert-Above : (a k : K) (xs : List K) → o.cmp a k ≡ lt → Above a xs → Above a (insert k xs)
  unfolding insert
  insert-Above a k [] h s = (h, tt)
  insert-Above a k (x ∷ xs) h s = ground (arith, insert-Above a k xs h)

  pub insert-IsStrict : (k : K) (xs : List K) → IsStrict xs → IsStrict (insert k xs)
  unfolding insert
  insert-IsStrict k [] s = (tt, tt)
  insert-IsStrict k (x ∷ xs) s = ground (
    arith,
    insert-IsStrict k xs s.1,
    insert-Above x k xs,
    Above-trans k x xs,
    o.preorder.flip k x,
  )

  pub collect-IsStrict : (xs : List K) → IsStrict (collect xs)
  unfolding collect
  collect-IsStrict [] = tt
  collect-IsStrict (x ∷ xs) = insert-IsStrict x (collect xs) (collect-IsStrict xs)

  pub mem-insert_self : (k : K) (xs : List K) → Memᴰ k (insert k xs)
  unfolding insert
  mem-insert_self k [] = Memᴰ.head refl
  mem-insert_self k (x ∷ xs) = elim (trichotomy (o.cmp k x)) [
    | less e ↦ rw (e, insert) (Memᴰ.head refl)
    | equal e ↦ rw (e, insert) (Memᴰ.head (o.eq_of_cmp k x e))
    | greater e ↦ rw (e, insert) (Memᴰ.tail (mem-insert_self k xs))
  ]

  pub mem-insert_of : {a : K} (k : K) {xs : List K} → Memᴰ a xs → Memᴰ a (insert k xs)
  unfolding insert
  mem-insert_of {a} k (Memᴰ.head {x = x} {xs = xs} m) = elim (trichotomy (o.cmp k x)) [
    | less e ↦ rw (e, insert) (Memᴰ.tail (Memᴰ.head m))
    | equal e ↦ rw (e, insert) (Memᴰ.head m)
    | greater e ↦ rw (e, insert) (Memᴰ.head m)
  ]
  mem-insert_of {a} k (Memᴰ.tail {x = x} {xs = xs} m) = elim (trichotomy (o.cmp k x)) [
    | less e ↦ rw (e, insert) (Memᴰ.tail (Memᴰ.tail m))
    | equal e ↦ rw (e, insert) (Memᴰ.tail m)
    | greater e ↦ rw (e, insert) (Memᴰ.tail (mem-insert_of k m))
  ]

  pub of_mem-insert : {a : K} (k : K) (xs : List K) → Memᴰ a (insert k xs) → (a ≡ k) ⊎ Memᴰ a xs
  unfolding insert
  of_mem-insert k [] m = inl (Memᴰ.eq_of_singleton m)
  of_mem-insert {a} k (x ∷ xs) m = elim (trichotomy (o.cmp k x)) [
    | less e ↦ Memᴰ.cases_cons (rw (e, insert) at m)
    | equal e ↦ inr (rw (e, insert) at m)
    | greater e ↦ elim (Memᴰ.cases_cons (rw (e, insert) at m)) [
      | inl h ↦ inr (Memᴰ.head h)
      | inr r ↦ elim (of_mem-insert k xs r) [ inl h ↦ inl h | inr t ↦ inr (Memᴰ.tail t) ]
    ]
  ]

  -- The set has the members of the list.
  pub mem-collect : {a : K} {xs : List K} → Memᴰ a xs → Memᴰ a (collect xs)
  unfolding collect
  mem-collect {a} (Memᴰ.head {x = x} {xs = xs} e) = rw e (mem-insert_self x (collect xs))
  mem-collect {a} (Memᴰ.tail {x = x} {xs = xs} m) = mem-insert_of x (mem-collect m)

  pub of_mem-collect : {a : K} (xs : List K) → Memᴰ a (collect xs) → Memᴰ a xs
  unfolding collect
  of_mem-collect [] m = m
  of_mem-collect (x ∷ xs) m = elim (of_mem-insert x (collect xs) m) [
    | inl e ↦ Memᴰ.head e
    | inr r ↦ Memᴰ.tail (of_mem-collect xs r)
  ]

  Above-lt : {a k : K} {xs : List K} → Memᴰ a xs → Above k xs → o.cmp k a ≡ lt
  Above-lt (Memᴰ.head {x = x} {xs = xs} e) s = rw e s.0
  Above-lt (Memᴰ.tail {x = x} {xs = xs} m) s = Above-lt m s.1

  not_mem-Above : (k : K) (xs : List K) → Above k xs → ¬ Memᴰ k xs
  not_mem-Above k xs s m = ground (arith, Above-lt m s, cmp_refl k)

  heads_equal :
      (x y : K) (xs ys : List K)
      → Above x xs
      → Above y ys
      → Memᴰ x (y ∷ ys)
      → Memᴰ y (x ∷ xs)
      → x ≡ y
  heads_equal x y xs ys s t m n = elim (Memᴰ.cases_cons m) [
    | inl e ↦ e
    | inr m' ↦ elim (Memᴰ.cases_cons n) [
      | inl e ↦ sym e
      | inr n' ↦ absurd (ground (arith, Above-lt m' t, Above-lt n' s, o.preorder.flip x y))
    ]
  ]

  abbrev pub SameMembers : List K → List K → Type ℓ
  SameMembers xs ys = ((a : K) → Memᴰ a xs → Memᴰ a ys) × ((a : K) → Memᴰ a ys → Memᴰ a xs)

  tails_within :
      (x : K) (xs ys : List K)
      → Above x xs
      → ((a : K) → Memᴰ a (x ∷ xs) → Memᴰ a (x ∷ ys))
      → (a : K) → Memᴰ a xs
      → Memᴰ a ys
  tails_within x xs ys s h a m = elim (Memᴰ.cases_cons (h a (Memᴰ.tail m))) [
    | inl e ↦ absurd (not_mem-Above x xs s (Memᴰ.cast (sym e) m))
    | inr r ↦ r
  ]

  -- A set is determined by its members.
  pub strict_ext : (xs ys : List K) → IsStrict xs → IsStrict ys → SameMembers xs ys → xs ≡ ys
  strict_ext [] [] s t h = refl
  strict_ext [] (y ∷ ys) s t h = absurd (Memᴰ.not-nil (h.1 y (Memᴰ.head refl)))
  strict_ext (x ∷ xs) [] s t h = absurd (Memᴰ.not-nil (h.0 x (Memᴰ.head refl)))
  strict_ext (x ∷ xs) (y ∷ ys) s t h =
      let e = heads_equal x y xs ys s.0 t.0 (h.0 x (Memᴰ.head refl)) (h.1 y (Memᴰ.head refl)) in
      ap₂ (λ a as'. a ∷ as') e
        (strict_ext xs ys s.1 t.1 (
          tails_within x xs ys s.0 (λ a m. rw e (h.0 a m)),
          tails_within y ys xs t.0 (λ a m. rw (sym e) (h.1 a m)),
        ))

  pub collect_ext : (xs ys : List K) → SameMembers xs ys → collect xs ≡ collect ys
  collect_ext xs ys h =
      strict_ext (collect xs) (collect ys) (collect-IsStrict xs) (collect-IsStrict ys) (
        λ a m. mem-collect (h.0 a (of_mem-collect xs m)),
        λ a m. mem-collect (h.1 a (of_mem-collect ys m)),
      )
