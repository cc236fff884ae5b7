-- ===== src/Control/Rules.antt =====
-- The rules for what a handler keeps: a relation between the state before and the state after, which
-- each statement of the handler respects.
use qarax.Base.{
  ℕ, ◌≡◌, refl, ◌⊎◌, Option, some, none, Error, sqlx, Result, ok, err, inl, inr, Bool-cases,
}
use qarax.Control.{
  Store, World, M, pure, throw, lift, attempt, ◌>>=◌, after, some_or, query, execute, call_node,
  tick, Rpc,
}

-- A relation that a statement which changes nothing respects, and that passes from one statement to
-- the next.
pub record IsFrame {F : Type 0} (R : Store F → Store F → Type 0) : Type 0 where
  pub stay : (s : Store F) → R s s
  pub chain : {s t u : Store F} → R s t → R t u → R s u
  pub ticks : (s : Store F) → R s (tick s)

module _ {F : Type 0} {R : Store F → Store F → Type 0} (frame : IsFrame R) where
  abbrev pub Within : {A : Type 0} → M F A → Type 0
  Within m = (s : Store F) → R s (m s).1

  after-Within :
      {A B : Type 0} {s : Store F} (next : A → M F B) (r : Result A × Store F)
      → R s r.1
      → ((a : A) → Within (next a))
      → R s (after next r).1
  after-Within next (ok a, t) p k = frame.chain p (k a t)
  after-Within next (err e, t) p k = p

  pub bind-Within :
      {A B : Type 0} (m : M F A) (next : A → M F B)
      → Within m
      → ((a : A) → Within (next a))
      → Within (m >>= next)
  bind-Within m next p k s = after-Within next (m s) (p s) k

  pub attempt-Within : {A : Type 0} (m : M F A) → Within m → Within (attempt m)
  attempt-Within m p s = p s

  pub pure-Within : {A : Type 0} (a : A) → Within (pure a)
  pure-Within a s = frame.stay s

  pub throw-Within : (A : Type 0) (e : Error) → Within (throw {A = A} e)
  throw-Within A e s = frame.stay s

  pub lift-Within : {A : Type 0} (r : Result A) → Within (lift r)
  lift-Within r s = frame.stay s

  pub some_or-Within : {A : Type 0} (o : Option A) (e : Error) → Within (some_or o e)
  some_or-Within none e s = frame.stay s
  some_or-Within (some a) e s = frame.stay s

  module _ (w : World) where
    pub query-Within : {A : Type 0} (read : Store F → A) → Within (query w read)
    unfolding query
    query-Within read s = elim (Bool-cases (w.db_answers s.calls)) [
      | inl t ↦ rw t (frame.ticks s)
      | inr f ↦ rw f (frame.ticks s)
    ]

    pub execute-Within :
        (write : Store F → Store F)
        → ((s : Store F) → R s (tick (write s)))
        → Within (execute w write)
    unfolding execute
    execute-Within write p s = elim (Bool-cases (w.db_answers s.calls)) [
      | inl t ↦ rw t (p s)
      | inr f ↦ rw f (frame.ticks s)
    ]

    pub call_node-Within : (host_id : ℕ) (rpc : Rpc) → Within (call_node w host_id rpc)
    unfolding call_node
    call_node-Within host_id rpc s = frame.ticks s

-- How a program ends, with the equation kept.
pub run-cases :
    {F A : Type 0} (m : M F A) (s : Store F)
    → ((a : A) × (t : Store F) × (m s ≡ (ok a, t)))
      ⊎ ((e : Error) × (t : Store F) × (m s ≡ (err e, t)))
run-cases {F} {A} m s = of_result (m s)
  where
    of_result :
        (r : Result A × Store F)
        → ((a : A) × (t : Store F) × (r ≡ (ok a, t)))
          ⊎ ((e : Error) × (t : Store F) × (r ≡ (err e, t)))
    of_result (ok a, t) = inl (a, t, refl)
    of_result (err e, t) = inr (e, t, refl)

-- A chain that ended well went through.
pub of_bind :
    {F A B : Type 0} (m : M F A) (next : A → M F B) (s : Store F) {b : B} {t : Store F}
    → (m >>= next) s ≡ (ok b, t)
    → (a : A) × (u : Store F) × (m s ≡ (ok a, u)) × (next a u ≡ (ok b, t))
of_bind {F} {A} {B} m next s {b} {t} h = of_result (m s) h
  where
    of_result :
        (r : Result A × Store F)
        → after next r ≡ (ok b, t)
        → (a : A) × (u : Store F) × (r ≡ (ok a, u)) × (next a u ≡ (ok b, t))
    of_result (ok a, u) k = (a, u, refl, k)
    of_result (err e, u) k = cc k

pub of_query :
    {F A : Type 0} (w : World) (read : Store F → A) (s : Store F) {a : A} {t : Store F}
    → query w read s ≡ (ok a, t)
    → a ≡ read s
unfolding query
of_query {A = A} w read s h = elim (Bool-cases (w.db_answers s.calls)) [
  | inl u ↦ same (rw u at h)
  | inr f ↦ absurd (differ (rw f at h))
]
  where
    same :
        {F : Type 0} {x y : A} {u v : Store F}
        → ◌≡◌ {A = Result A × Store F} (ok x, u) (ok y, v)
        → y ≡ x
    same q = cc q

    differ :
        {F : Type 0} {x : A} {u v : Store F}
        → ◌≡◌ {A = Result A × Store F} (err sqlx, u) (ok x, v)
        → ⊥
    differ q = cc q
