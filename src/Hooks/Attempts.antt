-- ===== src/Hooks/Attempts.antt =====
-- The end of a delivery, and the runs of one executor process.
use mathlib.Core.List.Memᴰ
use qarax.Base.{
  ℕ, ◌+◌, ◌≤◌, ◌<◌, ◌≡◌, refl, ap, ◌∙◌, sym, subst, ◌⊎◌, inl, inr, true, false, List, [], ◌∷◌, ◌++◌,
  Memᴰ, count_if, ◌==◌, nat_ord, arith, update_where, of_mem-update_where, mem-update_where,
  count_if-update_where, count_if-append, count_if_pos, eq_of_count_if, ==_refl, cases_append,
  Bool-cases, Text,
}
use qarax.Hooks.{LifecycleHook, HookExecution, HookExecutionStatus, has_id}
use qarax.Hooks.Executor.{Mark, Network, deliver_hook}
use qarax.Hooks.Matching.{enqueue_matching-Enqueues}
use qarax.Hooks.Claim.{HasKeys}
use qarax.Hooks.Delivery.{
  Process, count, post, Step, enqueue, claim, finish, unwritten, Reach, here, next, HasBudget,
  marked, apply_mark-update, marked-keeps, marked-HasBudget,
}
use qarax.Hooks.Posts.{
  Waits, IsSound, count-post-le, count-post_other, enqueue-IsSound, claim-IsSound,
}

module _ (s : Process) (before after : List HookExecution) (e : HookExecution)
    (hook : Text ⊎ LifecycleHook) (flight : s.in_flight ≡ before ++ e ∷ after)
    (sound : IsSound s) where
  e-flies : Memᴰ e s.in_flight
  e-flies = rw flight (Memᴰ.append_right before (Memᴰ.head refl))

  e-row : Memᴰ e s.executions
  e-row = (sound.flying e e-flies).0

  e-left : e.attempt_count < e.max_attempts
  e-left = (sound.budget e e-row).left (rw (sound.flying e e-flies).1 refl)

  e-waiting : count e.id s.posts ≤ e.attempt_count
  e-waiting = sound.waiting e e-row (inr e-flies)

  rest_flies : {x : HookExecution} → Memᴰ x (before ++ after) → Memᴰ x s.in_flight
  rest_flies m = rw flight (elim (cases_append before after m) [
    | inl k ↦ Memᴰ.append_left (e ∷ after) k
    | inr k ↦ Memᴰ.append_right before (Memᴰ.tail k)
  ])

  flight_count :
      (id : ℕ)
      → count_if (has_id id) s.in_flight
        ≡ count_if (has_id id) (before ++ after) + count_if (has_id id) (e ∷ [])
  flight_count id = omega (
    arith,
    ap (count_if (has_id id)) flight,
    count_if-append (has_id id) before (e ∷ after),
    count_if-append (has_id id) before after,
    count_if-append (has_id id) (e ∷ []) after,
  )

  rest-HasKeys : HasKeys (before ++ after)
  rest-HasKeys id = omega (arith, flight_count id, sound.flight_keys id)

  -- No other delivery of the same execution is in flight.
  rest_other : {x : HookExecution} → Memᴰ x (before ++ after) → (e.id == x.id) ≡ false
  rest_other {x} m = elim (Bool-cases (e.id == x.id)) [
    | inr f ↦ f
    | inl t ↦ absurd (
        omega (
          arith,
          flight_count e.id,
          sound.flight_keys e.id,
          count_if_pos (has_id e.id) m t,
          count_if_pos (has_id e.id) {xs = e ∷ []} (Memᴰ.head refl) (==_refl e.id),
        ))
  ]

  same_row : {x : HookExecution} → Memᴰ x s.executions → (e.id == x.id) ≡ true → x ≡ e
  same_row m h =
      eq_of_count_if (has_id e.id) s.executions (sound.keys e.id) m e-row h (==_refl e.id)

  other_count :
      (id : ℕ) → (e.id == id) ≡ false → count id (post e.id hook s.posts) ≡ count id s.posts
  other_count id f = count-post_other id e.id hook s.posts (swapped e.id id f)
    where
      swapped : (a b : ℕ) → (a == b) ≡ false → (b == a) ≡ false
      swapped a b h = ground arith

  post_known :
      (xs : List HookExecution)
      → ((id : ℕ) → count_if (has_id id) xs ≡ count_if (has_id id) s.executions)
      → (id : ℕ) → 0 < count id (post e.id hook s.posts)
      → 0 < count_if (has_id id) xs
  post_known xs same id h = elim (Bool-cases (id == e.id)) [
    | inl t ↦ omega (arith, same id, count_if_pos (has_id id) e-row t)
    | inr f ↦
        omega (arith, same id, sound.known id (rw (count-post_other id e.id hook s.posts f) at h))
  ]

  abbrev unwritten_after : Process
  unwritten_after = record {
    executions = s.executions;
    in_flight = before ++ after;
    posts = post e.id hook s.posts;
  }

  unwritten-waiting :
      (x : HookExecution) → Memᴰ x s.executions → Waits unwritten_after x → (e.id == x.id) ≡ false
  unwritten-waiting x m (inr k) = rest_other k
  unwritten-waiting x m (inl p) = elim (Bool-cases (e.id == x.id)) [
    | inr f ↦ f
    | inl t ↦ absurd (
        pending_processing (
          sym p
          ∙ (ap (λ (r : HookExecution). r.status) (same_row m t) ∙ (sound.flying e e-flies).1)))
  ]
    where
      pending_processing : HookExecutionStatus.pending ≡ HookExecutionStatus.processing → ⊥
      pending_processing h = cc h

  unwritten-IsSound : IsSound unwritten_after
  unwritten-IsSound = record {
    keys = sound.keys;
    flight_keys = rest-HasKeys;
    flying = λ x m. sound.flying x (rest_flies m);
    budget = sound.budget;
    waiting = λ x m w.
        rw (other_count x.id (unwritten-waiting x m w))
          (sound.waiting x m (elim w [ inl p ↦ inl p | inr k ↦ inr (rest_flies k) ]));
    posted = λ x m. elim (Bool-cases (e.id == x.id)) [
      | inr f ↦ rw (other_count x.id f) (sound.posted x m)
      | inl t ↦
          subst (λ (r : HookExecution). count r.id (post e.id hook s.posts) ≤ r.max_attempts)
            (sym (same_row m t))
            (omega (arith, count-post-le e.id e.id hook s.posts, e-waiting, e-left))
    ];
    known = post_known s.executions (λ id. refl);
  }

  module _ (net : Network) (now : ℕ) where
    abbrev mark : Mark
    mark = deliver_hook net now e hook

    abbrev finished : List HookExecution
    finished = update_where (has_id e.id) (marked now mark) s.executions

    abbrev finish_after : Process
    finish_after = record {
      executions = finished;
      in_flight = before ++ after;
      posts = post e.id hook s.posts;
    }

    finished_ids : (id : ℕ) → count_if (has_id id) finished ≡ count_if (has_id id) s.executions
    finished_ids id =
        count_if-update_where (has_id id) (has_id e.id) (marked now mark) s.executions
          (λ x. ap (λ n. id == n) (marked-keeps now mark x).0)

    -- A row after the delivery is the delivered one or an old one with another identifier.
    finished_row :
        (x : HookExecution)
        → Memᴰ x finished
        → (x ≡ marked now mark e) ⊎ (Memᴰ x s.executions × ((e.id == x.id) ≡ false))
    finished_row x m =
        let r = of_mem-update_where (has_id e.id) (marked now mark) s.executions m in
        elim r.2 [
          | inl t ↦ inl (t.1 ∙ ap (marked now mark) (same_row r.1 t.0))
          | inr f ↦ inr (
              subst (λ (z : HookExecution). Memᴰ z s.executions × ((e.id == z.id) ≡ false))
                (sym f.1) (r.1, f.0))
        ]

    delivered_count :
        (x : HookExecution)
        → x ≡ marked now mark e
        → (count x.id (post e.id hook s.posts) ≤ x.attempt_count)
          × (x.attempt_count ≤ x.max_attempts)
    delivered_count x q =
        let k = marked-keeps now mark e in
        let b = marked-HasBudget net now e hook e-left in
        subst
          (λ (r : HookExecution).
            (count r.id (post e.id hook s.posts) ≤ r.attempt_count)
            × (r.attempt_count ≤ r.max_attempts))
          (sym q)
          (rw k.0 (omega (arith, k.1, count-post-le e.id e.id hook s.posts, e-waiting)), b.within)

    finish-IsSound : IsSound finish_after
    finish-IsSound = record {
      keys = λ id. omega (arith, finished_ids id, sound.keys id);
      flight_keys = rest-HasKeys;
      flying = λ x m. (
        (rw (rest_other m) at
            (mem-update_where (has_id e.id) (marked now mark) (sound.flying x (rest_flies m)).0)),
        (sound.flying x (rest_flies m)).1,
      );
      budget = λ x m. elim (finished_row x m) [
        | inl q ↦
            subst (λ (r : HookExecution). HasBudget r) (sym q)
              (marked-HasBudget net now e hook e-left)
        | inr r ↦ sound.budget x r.0
      ];
      waiting = λ x m w. elim (finished_row x m) [
        | inl q ↦ (delivered_count x q).0
        | inr r ↦
            rw (other_count x.id r.1)
              (sound.waiting x r.0 (elim w [ inl p ↦ inl p | inr k ↦ inr (rest_flies k) ]))
      ];
      posted = λ x m. elim (finished_row x m) [
        | inl q ↦ omega (arith, delivered_count x q)
        | inr r ↦ rw (other_count x.id r.1) (sound.posted x r.0)
      ];
      known = post_known finished finished_ids;
    }

Step-IsSound : (net : Network) {s t : Process} → Step net s t → IsSound s → IsSound t
Step-IsSound net (enqueue s hooks vm_id machine previous_status new_status now fresh keys) sound =
    let q =
      enqueue_matching-Enqueues hooks vm_id machine previous_status new_status now fresh
        s.executions in
    enqueue-IsSound s _ q.rows q.appended
      (λ e m. let k = q.queued e m in (k.pending, k.untried, k.retries)) keys sound
Step-IsSound net (claim s now locked) sound = claim-IsSound s now 20 locked sound
Step-IsSound net (finish s before after e now hook flight) sound =
    subst
      (λ (xs : List HookExecution).
        IsSound
          (record { executions = xs; in_flight = before ++ after; posts = post e.id hook s.posts }))
      (sym (apply_mark-update now e.id (deliver_hook net now e hook) s.executions))
      (finish-IsSound s before after e hook flight sound net now)
Step-IsSound net (unwritten s before after e hook flight) sound =
    unwritten-IsSound s before after e hook flight sound

Reach-IsSound : (net : Network) {s t : Process} → IsSound s → Reach net s t → IsSound t
Reach-IsSound net h here = h
Reach-IsSound net h (next r st) = Step-IsSound net st (Reach-IsSound net h r)

abbrev pub started : Process
started = record { executions = []; in_flight = []; posts = [] }

started-IsSound : IsSound started
started-IsSound = record {
  keys = λ id. omega arith;
  flight_keys = λ id. omega arith;
  flying = λ e m. absurd (Memᴰ.not-nil m);
  budget = λ e m. absurd (Memᴰ.not-nil m);
  waiting = λ e m w. absurd (Memᴰ.not-nil m);
  posted = λ e m. absurd (Memᴰ.not-nil m);
  known = λ id h. absurd (omega arith);
}

-- What holds of an executor process whose queue was empty when it started.
pub record DeliversOnce (s : Process) : Type 0 where
  pub alone : (id : ℕ) → count_if (has_id id) s.in_flight ≤ 1
  pub being_processed :
      (e : HookExecution)
      → Memᴰ e s.in_flight
      → Memᴰ e s.executions × (e.status ≡ HookExecutionStatus.processing)
  pub posted : (e : HookExecution) → Memᴰ e s.executions → count e.id s.posts ≤ e.max_attempts
  pub attempts : (e : HookExecution) → Memᴰ e s.executions → e.attempt_count ≤ e.max_attempts

-- In every run of one executor process from an empty queue, with status changes, claims, deliveries
-- and lost writes in any order, an execution is never in delivery twice at a time, the copy that is
-- in delivery is its row in the table, and it is posted at most `max_attempts` times.
pub Reach-DeliversOnce : (net : Network) {s : Process} → Reach net started s → DeliversOnce s
Reach-DeliversOnce net r =
    let sound = Reach-IsSound net started-IsSound r in
    record {
      alone = sound.flight_keys;
      being_processed = sound.flying;
      posted = sound.posted;
      attempts = λ e m. (sound.budget e m).within;
    }
