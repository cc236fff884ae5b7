-- ===== src/Exits/Registry.antt =====
-- The registry in every run of the init process.
use qarax.Base.{
  ℕ, suc, ◌+◌, ◌-◌, ◌%◌, ◌^◌, ◌≤◌, ◌<◌, ◌≡◌, refl, ap, ◌∙◌, subst, inl, inr, ◌⊎◌, false, Option,
  some, none, List, [], length, ◌==◌, nat_ord, ==_iff, arith, Bool-cases, ltb,
}
use qarax.Rows.{HasKeys}
use qarax.Exits.{
  CompletedExit, ExitRegistryState, begin, register, cancel, exit, pid_of, get, remove, insert,
  prune_completed_exits, begin_exec_registration, cancel_exec_registration, register_exec_waiter,
  take_completed, notify, record_child_exit, call, default_registry, max_completed_exit_records,
}
use qarax.Exits.Lookup.{absent-filter, insert-HasKeys, length-not, filter-HasKeys}
use qarax.Exits.Prune.{prune_rows-HasKeys, absent-prune_rows, length-prune_rows}

-- The registry after some calls, with the number of threads that have begun a registration and not
-- ended it. A process has fewer than 2^64 threads.
pub data Reach : ℕ → ExitRegistryState → Type 0 where
  starts : Reach 0 default_registry
  begins :
      {n : ℕ} {r : ExitRegistryState} (now : ℕ)
      → suc n < 2 ^ 64
      → Reach n r
      → Reach (suc n) (call now begin r).0
  registers :
      {n : ℕ} {r : ExitRegistryState} (now pid tx : ℕ)
      → Reach (suc n) r
      → Reach n (call now (register pid tx) r).0
  cancels :
      {n : ℕ} {r : ExitRegistryState} (now : ℕ) → Reach (suc n) r → Reach n (call now cancel r).0
  exits :
      {n : ℕ} {r : ExitRegistryState} (now pid exit_code : ℕ)
      → Reach n r
      → Reach n (call now (exit pid exit_code) r).0

pub record Sound (n : ℕ) (r : ExitRegistryState) : Type 0 where
  pub pending : r.pending_registrations ≡ n
  pub waiter_keys : HasKeys pid_of r.waiters
  pub completed_keys : HasKeys pid_of r.completed
  -- A child is not waited for and recorded at once.
  pub apart : (pid : ℕ) → (get pid r.waiters ≡ none) ⊎ (get pid r.completed ≡ none)
  pub few : length r.completed ≤ suc max_completed_exit_records

-- As above, after the old rows are gone.
abbrev Pruned : ℕ → ExitRegistryState → Type 0
Pruned n r = Sound n r × (length r.completed ≤ max_completed_exit_records)

absent-insert :
    {A : Type 0} (q pid : ℕ) (a : A) (rows : List (ℕ × A))
    → (q == pid) ≡ false
    → get q rows ≡ none
    → get q (insert pid a rows) ≡ none
unfolding get
absent-insert q pid a rows f h = rw f (absent-filter _ q rows h)

length-remove :
    {A : Type 0} (pid : ℕ) (rows : List (ℕ × A)) → length (remove pid rows) ≤ length rows
length-remove pid rows = omega (arith, length-not (λ row. pid == row.0) rows)

module _ {n : ℕ} {r : ExitRegistryState} (sound : Sound n r) where
  -- The number of registrations is the caller's.
  prune-Pruned :
      (now m : ℕ) → Pruned m (prune_completed_exits now (record r { pending_registrations = m }))
  unfolding prune_completed_exits
  prune-Pruned now m =
      let few = length-prune_rows now r.completed sound.completed_keys in
      (
        record {
          pending = refl;
          waiter_keys = sound.waiter_keys;
          completed_keys = prune_rows-HasKeys now r.completed sound.completed_keys;
          apart = λ pid. elim (sound.apart pid) [
            | inl waits ↦ inl waits
            | inr gone ↦ inr (absent-prune_rows now r.completed pid gone)
          ];
          few = omega (arith, few);
        },
        few,
      )

module _ {n : ℕ} {r : ExitRegistryState} (pruned : Pruned n r) where
  abbrev sound : Sound n r
  sound = pruned.0

  take_completed-Sound :
      (pid tx : ℕ) (o : Option CompletedExit)
      → get pid r.completed ≡ o
      → Sound n (take_completed pid tx r o).0
  unfolding take_completed
  take_completed-Sound pid tx (some completed) e = record {
    pending = sound.pending;
    waiter_keys = sound.waiter_keys;
    completed_keys = filter-HasKeys _ r.completed sound.completed_keys;
    apart = λ q. elim (sound.apart q) [
      | inl waits ↦ inl waits
      | inr gone ↦ inr (absent-filter _ q r.completed gone)
    ];
    few = omega (arith, length-remove pid r.completed, sound.few);
  }
  take_completed-Sound pid tx none e = record {
    pending = sound.pending;
    waiter_keys = insert-HasKeys pid tx r.waiters sound.waiter_keys;
    completed_keys = sound.completed_keys;
    apart = λ q. elim (Bool-cases (q == pid)) [
      | inl t ↦ inr (ap (λ i. get i r.completed) ((==_iff q pid).0 t) ∙ e)
      | inr f ↦ elim (sound.apart q) [
        | inl waits ↦ inl (absent-insert q pid tx r.waiters f waits)
        | inr gone ↦ inr gone
      ]
    ];
    few = sound.few;
  }

  notify-Sound :
      (now pid exit_code : ℕ) (o : Option ℕ)
      → get pid r.waiters ≡ o
      → Sound n (notify now pid exit_code r o).0
  unfolding notify
  notify-Sound now pid exit_code (some tx) e = record {
    pending = sound.pending;
    waiter_keys = filter-HasKeys _ r.waiters sound.waiter_keys;
    completed_keys = sound.completed_keys;
    apart = λ q. elim (sound.apart q) [
      | inl waits ↦ inl (absent-filter _ q r.waiters waits)
      | inr gone ↦ inr gone
    ];
    few = sound.few;
  }
  notify-Sound now pid exit_code none e = elim (Bool-cases (ltb 0 r.pending_registrations)) [
    | inr f ↦ rw f sound
    | inl t ↦ rw t (record {
      pending = sound.pending;
      waiter_keys = sound.waiter_keys;
      completed_keys = insert-HasKeys pid _ r.completed sound.completed_keys;
      apart = λ q. elim (Bool-cases (q == pid)) [
        | inl t ↦ inl (ap (λ i. get i r.waiters) ((==_iff q pid).0 t) ∙ e)
        | inr f ↦ elim (sound.apart q) [
          | inl waits ↦ inl waits
          | inr gone ↦ inr (absent-insert q pid _ r.completed f gone)
        ]
      ];
      few = omega (arith, length-remove pid r.completed, pruned.1);
    })
  ]

get-empty : {A : Type 0} (pid : ℕ) → get {A = A} pid [] ≡ none
unfolding get
get-empty pid = refl

wrap_lt : (n : ℕ) → suc n < 2 ^ 64 → (n + 1) % 2 ^ 64 ≡ suc n
wrap_lt n h = omega arith

-- In every run of calls, `pending_registrations` is the number of threads between the begin and the
-- end of a registration, no process has two waiters or two recorded exits or one of each, and at most
-- 129 exits are recorded.
pub Reach-Sound : {n : ℕ} {r : ExitRegistryState} → Reach n r → Sound n r
unfolding call begin_exec_registration cancel_exec_registration register_exec_waiter
    record_child_exit
Reach-Sound starts = record {
  pending = refl;
  waiter_keys = λ id. omega arith;
  completed_keys = λ id. omega arith;
  apart = λ pid. inl (get-empty pid);
  few = omega arith;
}
Reach-Sound (begins {n} {r} now h p) =
    let s = Reach-Sound p in
    subst (λ m. Sound m (call now begin r).0) (ap (λ m. (m + 1) % 2 ^ 64) s.pending ∙ wrap_lt n h)
      (prune-Pruned s now _).0
Reach-Sound (cancels {n} {r} now p) =
    let s = Reach-Sound p in
    subst (λ m. Sound m (call now cancel r).0) (ap (λ m. m - 1) s.pending ∙ omega arith)
      (prune-Pruned s now _).0
Reach-Sound (registers {n} {r} now pid tx p) =
    let s = Reach-Sound p in
    subst (λ m. Sound m (call now (register pid tx) r).0) (ap (λ m. m - 1) s.pending ∙ omega arith)
      (take_completed-Sound (prune-Pruned s now _) pid tx _ refl)
Reach-Sound (exits {n} {r} now pid exit_code p) =
    let s = Reach-Sound p in
    subst (λ m. Sound m (call now (exit pid exit_code) r).0) s.pending
      (notify-Sound (prune-Pruned s now r.pending_registrations) now pid exit_code _ refl)
