-- ===== src/Base/Order.antt =====
-- Comparators, `cmp::Ord` and the lexicographic composition of comparators (`Ordering::then`).
use Prim.Native.Nat.{ℕ, compare, Ordering}
use Prim.Native.Nat.Ordering.{lt, eq, gt}
use mathlib.Core.Path.{◌≡◌, refl}
use mathlib.Core.Logic.{◌↔◌}
use mathlib.Core.Bool.{Bool, true, false}
use mathlib.Core.List.{List, [], ◌∷◌}
use native.Mathlib.Omega.{arith}

abbrev pub swap : Ordering → Ordering
swap lt = gt
swap eq = eq
swap gt = lt

abbrev pub then_cmp : Ordering → Ordering → Ordering
then_cmp eq second = second
then_cmp first _ = first

abbrev pub is_le : Ordering → Bool
is_le gt = false
is_le _ = true

abbrev pub is_eq : Ordering → Bool
is_eq eq = true
is_eq _ = false

-- To split on a comparison and keep the equation.
pub data Trichotomy (c : Ordering) : Type 0 where
  less : c ≡ lt → Trichotomy c
  equal : c ≡ eq → Trichotomy c
  greater : c ≡ gt → Trichotomy c

pub trichotomy : (c : Ordering) → Trichotomy c
trichotomy lt = less refl
trichotomy eq = equal refl
trichotomy gt = greater refl

-- A total preorder by its comparator.
pub record IsPreorder {ℓ} {A : Type ℓ} (cmp : A → A → Ordering) : Type ℓ where
  pub flip : (a b : A) → cmp b a ≡ swap (cmp a b)
  pub trans : (a b c : A) → is_le (cmp a b) ≡ true → is_le (cmp b c) ≡ true → is_le (cmp a c) ≡ true

-- The bound `K: Ord`, whose `==` is read as `≡`.
pub record Ord {ℓ} (K : Type ℓ) : Type ℓ where
  pub cmp : K → K → Ordering
  pub preorder : IsPreorder cmp
  pub eq_of_cmp : (a b : K) → cmp a b ≡ eq → a ≡ b

infix 50 ◌==◌
abbrev pub ◌==◌ {ℓ} : {K : Type ℓ} ⦃o : Ord K⦄ → K → K → Bool
◌==◌ ⦃o⦄ a b = is_eq (o.cmp a b)

pub compare-IsPreorder : IsPreorder compare
compare-IsPreorder = record { flip = λ a b. ground arith; trans = λ a b c h k. ground arith }

pub eq_of_compare : (a b : ℕ) → compare a b ≡ eq → a ≡ b
eq_of_compare a b h = ground arith

instance abbrev pub nat_ord : Ord ℕ
nat_ord = record { cmp = compare; preorder = compare-IsPreorder; eq_of_cmp = eq_of_compare }

pub eq_of_eq-swap : (c : Ordering) → c ≡ swap c → c ≡ eq
eq_of_eq-swap lt h = ground arith
eq_of_eq-swap eq h = refl
eq_of_eq-swap gt h = ground arith

module _ {ℓ} {A : Type ℓ} where
  -- Transitivity also holds of the comparator's own result.
  pub eq_trans :
      {cmp : A → A → Ordering} (p : IsPreorder cmp) (a b c : A)
      → is_le (cmp a b) ≡ true
      → is_le (cmp b c) ≡ true
      → cmp a c ≡ eq
      → (cmp a b ≡ eq) × (cmp b c ≡ eq)
  eq_trans {cmp} p a b c h k e =
      ground (arith, p.flip a b, p.flip b c, p.flip a c, p.trans b c a, p.trans c a b)

  pub then_cmp-IsPreorder :
      {f g : A → A → Ordering}
      → IsPreorder f
      → IsPreorder g
      → IsPreorder {A = A} (λ a b. then_cmp (f a b) (g a b))
  then_cmp-IsPreorder {f} {g} p q = record {
    flip = λ a b. ground (arith, p.flip a b, q.flip a b);
    trans = λ a b c h k. ground (arith, p.trans a b c, q.trans a b c, eq_trans p a b c);
  }

  pub flip-IsPreorder : {f : A → A → Ordering} → IsPreorder f → IsPreorder {A = A} (λ a b. f b a)
  flip-IsPreorder {f} p = record {
    flip = λ a b. p.flip b a;
    trans = λ a b c h k. p.trans c b a k h;
  }

  pub on-IsPreorder {κ} :
      {B : Type κ} {f : B → B → Ordering} (key : A → B)
      → IsPreorder f
      → IsPreorder {A = A} (λ a b. f (key a) (key b))
  on-IsPreorder key p = record {
    flip = λ a b. p.flip (key a) (key b);
    trans = λ a b c h k. p.trans (key a) (key b) (key c) h k;
  }

  pub trivial-IsPreorder : IsPreorder {A = A} (λ a b. eq)
  trivial-IsPreorder = record { flip = λ a b. refl; trans = λ a b c h k. refl }

-- A text is the list of its bytes; `str` and `String` compare byte by byte.
abbrev pub Text : Type 0
Text = List ℕ

abbrev pub cmp_text : Text → Text → Ordering
cmp_text [] [] = eq
cmp_text [] (y ∷ ys) = lt
cmp_text (x ∷ xs) [] = gt
cmp_text (x ∷ xs) (y ∷ ys) = then_cmp (compare x y) (cmp_text xs ys)

cmp_text-flip : (a b : Text) → cmp_text b a ≡ swap (cmp_text a b)
cmp_text-flip [] [] = refl
cmp_text-flip [] (y ∷ ys) = refl
cmp_text-flip (x ∷ xs) [] = refl
cmp_text-flip (x ∷ xs) (y ∷ ys) = ground (arith, cmp_text-flip xs ys)

cmp_text_trans :
    (a b c : Text)
    → is_le (cmp_text a b) ≡ true
    → is_le (cmp_text b c) ≡ true
    → is_le (cmp_text a c) ≡ true
cmp_text_trans [] [] [] h k = refl
cmp_text_trans [] [] (z ∷ zs) h k = refl
cmp_text_trans [] (y ∷ ys) [] h k = refl
cmp_text_trans [] (y ∷ ys) (z ∷ zs) h k = refl
cmp_text_trans (x ∷ xs) [] c h k = ground arith
cmp_text_trans (x ∷ xs) (y ∷ ys) [] h k = ground arith
cmp_text_trans (x ∷ xs) (y ∷ ys) (z ∷ zs) h k = ground (arith, cmp_text_trans xs ys zs)

pub eq_of_cmp_text : (a b : Text) → cmp_text a b ≡ eq → a ≡ b
eq_of_cmp_text [] [] h = refl
eq_of_cmp_text [] (y ∷ ys) h = ground arith
eq_of_cmp_text (x ∷ xs) [] h = ground arith
eq_of_cmp_text (x ∷ xs) (y ∷ ys) h = ground (arith, eq_of_cmp_text xs ys)

pub cmp_text-IsPreorder : IsPreorder cmp_text
cmp_text-IsPreorder = record { flip = cmp_text-flip; trans = cmp_text_trans }

instance abbrev pub text_ord : Ord Text
text_ord = record { cmp = cmp_text; preorder = cmp_text-IsPreorder; eq_of_cmp = eq_of_cmp_text }

module _ {ℓ} {K : Type ℓ} ⦃o : Ord K⦄ where
  pub cmp_refl : (a : K) → o.cmp a a ≡ eq
  cmp_refl a = eq_of_eq-swap (o.cmp a a) (o.preorder.flip a a)

  pub ==_iff : (a b : K) → ((a == b) ≡ true) ↔ (a ≡ b)
  ==_iff a b = (λ h. o.eq_of_cmp a b (ground arith), λ e. rw e (rw (cmp_refl b)))

  pub ==_refl : (a : K) → (a == a) ≡ true
  ==_refl a = (==_iff a a).1 refl

  pub ==_sym : (a b : K) → (a == b) ≡ (b == a)
  ==_sym a b = ground (arith, o.preorder.flip a b)

-- Tuples compare lexicographically.
module _ {ℓ κ} {A : Type ℓ} {B : Type κ} ⦃a : Ord A⦄ ⦃b : Ord B⦄ where
  abbrev pub cmp_pair : A × B → A × B → Ordering
  cmp_pair x y = then_cmp (a.cmp x.0 y.0) (b.cmp x.1 y.1)

  pub cmp_pair-IsPreorder : IsPreorder {A = A × B} cmp_pair
  cmp_pair-IsPreorder =
      then_cmp-IsPreorder (on-IsPreorder (λ (x : A × B). x.0) a.preorder)
        (on-IsPreorder (λ (x : A × B). x.1) b.preorder)

  pub eq_of_cmp_pair : (x y : A × B) → cmp_pair x y ≡ eq → x ≡ y
  eq_of_cmp_pair x y h =
      let p = a.eq_of_cmp x.0 y.0 (ground arith) in
      let q = b.eq_of_cmp x.1 y.1 (ground arith) in λ i. (p i, q i)

  instance abbrev pub pair_ord : Ord (A × B)
  pair_ord = record { cmp = cmp_pair; preorder = cmp_pair-IsPreorder; eq_of_cmp = eq_of_cmp_pair }
