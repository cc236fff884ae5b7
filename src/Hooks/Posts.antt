-- ===== src/Hooks/Posts.antt =====
-- How often an execution is posted by one executor process.
use mathlib.Core.List.Memᴰ
use qarax.Base.{
  ℕ, suc, ◌+◌, ◌≤◌, ◌<◌, ◌≡◌, refl, ap, ◌∙◌, sym, subst, ◌⊎◌, inl, inr, Bool, false, List, ◌++◌,
  Memᴰ, count_if, ◌==◌, nat_ord, arith, count_if-append, count_if_pos, mem_of_count_if,
  eq_of_count_if, ==_refl, cases_append, ltb, ltb→lt, Bool-cases, Text,
}
use qarax.Hooks.{
  LifecycleHook, HookExecution, HookExecutionStatus, has_id, claim_pending_executions,
}
use qarax.Hooks.Claim.{HasKeys, Claims, claim_pending_executions-Claims, processing}
use qarax.Hooks.Delivery.{Process, count, post, is_open, HasBudget}

-- The attempts that stay for an execution which is pending or in flight.
abbrev pub Waits : Process → HookExecution → Type 0
Waits s e = (e.status ≡ HookExecutionStatus.pending) ⊎ Memᴰ e s.in_flight

pub record IsSound (s : Process) : Type 0 where
  pub keys : HasKeys s.executions
  pub flight_keys : HasKeys s.in_flight
  pub flying :
      (e : HookExecution)
      → Memᴰ e s.in_flight
      → Memᴰ e s.executions × (e.status ≡ HookExecutionStatus.processing)
  pub budget : (e : HookExecution) → Memᴰ e s.executions → HasBudget e
  pub waiting :
      (e : HookExecution) → Memᴰ e s.executions → Waits s e → count e.id s.posts ≤ e.attempt_count
  pub posted : (e : HookExecution) → Memᴰ e s.executions → count e.id s.posts ≤ e.max_attempts
  pub known : (id : ℕ) → 0 < count id s.posts → 0 < count_if (has_id id) s.executions

pub count-post-le :
    (id n : ℕ) (hook : Text ⊎ LifecycleHook) (posts : List ℕ)
    → count id (post n hook posts) ≤ suc (count id posts)
count-post-le id n (inl e) posts = omega arith
count-post-le id n (inr hook) posts = ground arith

pub count-post_other :
    (id n : ℕ) (hook : Text ⊎ LifecycleHook) (posts : List ℕ)
    → (id == n) ≡ false
    → count id (post n hook posts) ≡ count id posts
count-post_other id n (inl e) posts h = refl
count-post_other id n (inr hook) posts h = rw h refl

-- The insertion of new rows.
pub enqueue-IsSound :
    (s : Process) (new : List HookExecution) (rows : List HookExecution)
    → new ≡ s.executions ++ rows
    → ((e : HookExecution)
        → Memᴰ e rows
        → (e.status ≡ HookExecutionStatus.pending) × (e.attempt_count ≡ 0) × (e.max_attempts ≡ 5))
    → HasKeys new
    → IsSound s
    → IsSound (record s { executions = new })
enqueue-IsSound s new rows appended queued keys sound = record {
  keys = keys;
  flight_keys = sound.flight_keys;
  flying = λ e m. (old_row (sound.flying e m).0, (sound.flying e m).1);
  budget = λ e m. elim (split e m) [
    | inl k ↦ sound.budget e k
    | inr k ↦ let (p, a, x) = queued e k in record { within = omega arith; left = λ o. omega arith }
  ];
  waiting = λ e m w. elim (split e m) [
    | inl k ↦ sound.waiting e k w
    | inr k ↦ omega (arith, unposted e k)
  ];
  posted =
      λ e m. elim (split e m) [ inl k ↦ sound.posted e k | inr k ↦ omega (arith, unposted e k) ];
  known = λ id h. omega (arith, sound.known id h, counts id);
}
  where
    old_row : {e : HookExecution} → Memᴰ e s.executions → Memᴰ e new
    old_row m = rw appended (Memᴰ.append_left rows m)

    split : (e : HookExecution) → Memᴰ e new → Memᴰ e s.executions ⊎ Memᴰ e rows
    split e m = cases_append s.executions rows (rw appended at m)

    counts :
        (id : ℕ)
        → count_if (has_id id) new ≡ count_if (has_id id) s.executions + count_if (has_id id) rows
    counts id = ap (count_if (has_id id)) appended ∙ count_if-append (has_id id) s.executions rows

    unposted : (e : HookExecution) → Memᴰ e rows → count e.id s.posts ≡ 0
    unposted e k = elim (Bool-cases (ltb 0 (count e.id s.posts))) [
      | inl t ↦ absurd (
          omega (
            arith,
            keys e.id,
            counts e.id,
            sound.known e.id (ltb→lt _ _ t),
            count_if_pos (has_id e.id) k (==_refl e.id),
          ))
      | inr f ↦ ground (arith, f)
    ]

-- The identifiers and the budget of a row do not change when it is claimed.
module _ (s : Process) (now limit : ℕ) (locked : ℕ → Bool) (sound : IsSound s) where
  abbrev pub claimed : List HookExecution
  claimed = (claim_pending_executions now locked limit s.executions).1

  abbrev pub after_claim : Process
  after_claim = record s {
    executions = (claim_pending_executions now locked limit s.executions).0;
    in_flight = s.in_flight ++ claimed;
  }

  claims : Claims now locked limit s.executions after_claim.executions claimed
  claims = claim_pending_executions-Claims now locked limit s.executions sound.keys

  claimed_row :
      (c : HookExecution)
      → Memᴰ c claimed
      → (e : HookExecution) × Memᴰ e s.executions
        × (e.status ≡ HookExecutionStatus.pending)
        × (c ≡ processing e)
  claimed_row c m = let r = (claims.taken c m).1 in (r.0, r.1, r.2.pending, r.3)

  -- A row that was in flight is not claimed.
  flight_apart :
      (id : ℕ) → 0 < count_if (has_id id) s.in_flight → 0 < count_if (has_id id) claimed → ⊥
  flight_apart id p q =
      let a = mem_of_count_if (has_id id) s.in_flight p in
      let b = mem_of_count_if (has_id id) claimed q in
      let r = claimed_row b.0 b.1 in
      let f = sound.flying a.0 a.1 in
      let same =
        eq_of_count_if (has_id id) s.executions (sound.keys id) f.0 r.1 a.2
          (ap (has_id id) (sym r.3) ∙ b.2) in
      pending_processing (sym r.2 ∙ (ap (λ (e : HookExecution). e.status) (sym same) ∙ f.1))
    where
      pending_processing : HookExecutionStatus.pending ≡ HookExecutionStatus.processing → ⊥
      pending_processing h = cc h

  claimed_waiting : (c : HookExecution) → Memᴰ c claimed → count c.id s.posts ≤ c.attempt_count
  claimed_waiting c m =
      let r = claimed_row c m in
      subst (λ (x : HookExecution). count x.id s.posts ≤ x.attempt_count) (sym r.3)
        (sound.waiting r.0 r.1 (inl r.2))

  claimed-HasBudget : (c : HookExecution) → Memᴰ c claimed → HasBudget c
  claimed-HasBudget c m =
      let r = claimed_row c m in
      let b = sound.budget r.0 r.1 in
      subst (λ (x : HookExecution). HasBudget x) (sym r.3)
        (record { within = b.within; left = λ o. b.left (ap is_open r.2) })

  flight_once : (id : ℕ) → count_if (has_id id) (s.in_flight ++ claimed) ≤ 1
  flight_once id = elim (Bool-cases (ltb 0 (count_if (has_id id) s.in_flight))) [
    | inl t ↦ elim (Bool-cases (ltb 0 (count_if (has_id id) claimed))) [
      | inl u ↦ absurd (flight_apart id (ltb→lt _ _ t) (ltb→lt _ _ u))
      | inr g ↦ omega (
        arith,
        count_if-append (has_id id) s.in_flight claimed,
        sound.flight_keys id,
        not_lt _ _ g,
      )
    ]
    | inr f ↦
        omega (arith, count_if-append (has_id id) s.in_flight claimed, claims.once id, not_lt _ _ f)
  ]
    where
      not_lt : (a b : ℕ) → ltb a b ≡ false → b ≤ a
      not_lt a b h = ground arith

  pub claim-IsSound : IsSound after_claim
  claim-IsSound = record {
    keys = λ id. omega (arith, claims.same_ids id, sound.keys id);
    flight_keys = flight_once;
    flying = λ e m. elim (cases_append s.in_flight claimed m) [
      | inl k ↦ (
        elim (claims.row e (sound.flying e k).0) [
          | inl n ↦ n
          | inr c ↦ absurd (
              flight_apart e.id (count_if_pos (has_id e.id) k (==_refl e.id))
                (count_if_pos (has_id e.id) c (==_refl e.id)))
        ],
        (sound.flying e k).1,
      )
      | inr k ↦ ((claims.taken e k).0, ap (λ (r : HookExecution). r.status) (claimed_row e k).3)
    ];
    budget = λ e m. elim (claims.no_other e m) [
      | inl k ↦ sound.budget e k
      | inr k ↦ claimed-HasBudget e k
    ];
    waiting = λ e m w. elim (claims.no_other e m) [
      | inr k ↦ claimed_waiting e k
      | inl k ↦ elim w [
        | inl p ↦ sound.waiting e k (inl p)
        | inr g ↦ elim (cases_append s.in_flight claimed g) [
          | inl n ↦ sound.waiting e k (inr n)
          | inr c ↦ claimed_waiting e c
        ]
      ]
    ];
    posted = λ e m. elim (claims.no_other e m) [
      | inl k ↦ sound.posted e k
      | inr k ↦ omega (arith, claimed_waiting e k, (claimed-HasBudget e k).within)
    ];
    known = λ id h. omega (arith, claims.same_ids id, sound.known id h);
  }
