-- ===== src/Schedule/Tests.antt =====
-- What the tests of the query mean: membership in the tables, and statements about every value of a
-- nullable column.
use qarax.Base.{
  ◌≡◌, refl, ◌↔◌, inl, inr, Bool, true, false, ◌&&◌, not, Option, none, some, List, Memᴰ, any, all,
  Text, ◌==◌, Ord, text_ord, nat_ord, ==_iff, ==_refl, mem_of_any, any_of_mem, all_of_mem, all-true,
  arith, and_true, ap, subst, Bool-cases,
}
use qarax.Db.{Labels}
use qarax.Schedule.{if_some, null_or, elem, has_label, contains_labels, overlaps_tags}

pub iff_trans {ℓ κ μ} : {A : Type ℓ} {B : Type κ} {C : Type μ} → A ↔ B → B ↔ C → A ↔ C
iff_trans p q = (λ a. q.0 (p.0 a), λ c. p.1 (q.1 c))

pub null_or_iff {ℓ} :
    {A : Type ℓ} (p : A → Bool) (o : Option A)
    → (null_or p o ≡ true) ↔ ((a : A) → o ≡ some a → p a ≡ true)
null_or_iff p none = (λ h a e. cc, λ h. refl)
null_or_iff p (some a) = (λ h b e. subst (λ (o : Option _). null_or p o ≡ true) e h, λ h. h a refl)

pub null_or_iff_of {ℓ κ} :
    {A : Type ℓ} {P : A → Type κ} (p : A → Bool) (o : Option A)
    → ((a : A) → (p a ≡ true) ↔ P a)
    → (null_or p o ≡ true) ↔ ((a : A) → o ≡ some a → P a)
null_or_iff_of p o i = (
  λ h a e. (i a).0 ((null_or_iff p o).0 h a e),
  λ k. (null_or_iff p o).1 (λ a e. (i a).1 (k a e)),
)

pub and_iff {ℓ κ} :
    {P : Type ℓ} {Q : Type κ} {a b : Bool}
    → (a ≡ true) ↔ P
    → (b ≡ true) ↔ Q
    → (a && b ≡ true) ↔ (P × Q)
and_iff {a = a} {b = b} i j = (
  λ h. (i.0 ((and_true a b).0 h).0, j.0 ((and_true a b).0 h).1),
  λ t. (and_true a b).1 (i.1 t.0, j.1 t.1),
)

pub all_iff {ℓ} :
    {A : Type ℓ} (p : A → Bool) (xs : List A)
    → (all p xs ≡ true) ↔ ((a : A) → Memᴰ a xs → p a ≡ true)
all_iff p xs = (λ h a m. all_of_mem p m h, λ h. all-true p xs h)

module _ {ℓ} {K : Type ℓ} ⦃o : Ord K⦄ where
  pub elem_iff : (a : K) (xs : List K) → (elem a xs ≡ true) ↔ Memᴰ a xs
  elem_iff a xs = (found, λ m. any_of_mem (λ x. x == a) m (==_refl a))
    where
      found : elem a xs ≡ true → Memᴰ a xs
      found h =
          let r = mem_of_any (λ x. x == a) xs h in subst (λ b. Memᴰ b xs) ((==_iff r.0 a).0 r.2) r.1

  pub if_some_eq_iff : (o : Option K) (a : K) → (if_some (λ x. x == a) o ≡ true) ↔ (o ≡ some a)
  if_some_eq_iff none a = (λ h. cc, λ h. cc)
  if_some_eq_iff (some x) a = (λ h. ap some ((==_iff x a).0 h), λ h. (==_iff x a).1 (cc h))

module _ {ℓ κ} {K : Type ℓ} {L : Type κ} ⦃o : Ord K⦄ ⦃o' : Ord L⦄ where
  pub row_iff :
      (k : K) (l : L) (rows : List (K × L))
      → (any (λ row. (row.0 == k) && (row.1 == l)) rows ≡ true) ↔ Memᴰ (k, l) rows
  row_iff k l rows = (
    found,
    λ m.
        any_of_mem (λ (row : K × L). (row.0 == k) && (row.1 == l)) m
          ((and_true _ _).1 (==_refl k, ==_refl l)),
  )
    where
      found : any (λ row. (row.0 == k) && (row.1 == l)) rows ≡ true → Memᴰ (k, l) rows
      found h =
          let r = mem_of_any (λ (row : K × L). (row.0 == k) && (row.1 == l)) rows h in
          let t = (and_true (r.0.0 == k) (r.0.1 == l)).0 r.2 in
          subst (λ (b : K × L). Memᴰ b rows)
            (λ i. ((==_iff r.0.0 k).0 t.0 i, (==_iff r.0.1 l).0 t.1 i)) r.1

pub contains_labels_iff :
    (labels wanted : Labels)
    → (contains_labels labels wanted ≡ true) ↔ ((e : Text × Text) → Memᴰ e wanted → Memᴰ e labels)
contains_labels_iff labels wanted = (
  λ h e m. (row_iff e.0 e.1 labels).0 ((all_iff (has_label labels) wanted).0 h e m),
  λ h. (all_iff (has_label labels) wanted).1 (λ e m. (row_iff e.0 e.1 labels).1 (h e m)),
)

pub overlaps_tags_iff :
    (tags wanted : List Text)
    → (overlaps_tags tags wanted ≡ true) ↔ ((t : Text) × Memᴰ t wanted × Memᴰ t tags)
overlaps_tags_iff tags wanted = (
  λ h. let r = mem_of_any (λ t. elem t tags) wanted h in (r.0, r.1, (elem_iff r.0 tags).0 r.2),
  λ r. any_of_mem (λ t. elem t tags) r.1 ((elem_iff r.0 tags).1 r.2),
)

pub not-true_iff : (b : Bool) → (not b ≡ true) ↔ (b ≡ false)
not-true_iff b = ground arith

pub false_iff {ℓ} : {P : Type ℓ} (b : Bool) → (b ≡ true) ↔ P → (b ≡ false) ↔ (¬ P)
false_iff b i =
    (λ h p. cc (i.1 p), λ n. elim (Bool-cases b) [ inl t ↦ absurd (n (i.0 t)) | inr f ↦ f ])
