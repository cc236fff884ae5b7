-- ===== src/Exits/Waiting.antt =====
-- The exit code of a child reaches the thread that has registered for it.

use qarax.Base.{
  ℕ, ◌-◌, ◌≤◌, ◌≡◌, refl, inl, inr, Bool, true, false, not, Option, some, none, List, [], ◌∷◌, Memᴰ,
  ◌==◌, nat_ord, ==_refl, arith, Bool-cases, ltb,
}
use qarax.Exits.{
  CompletedExit, ExitRegistryState, RegistryCall, begin, register, cancel, exit, get, remove,
  insert, prune_completed_exits, begin_exec_registration, cancel_exec_registration,
  register_exec_waiter, take_completed, notify, record_child_exit, call, run,
  max_completed_exit_age,
}
use qarax.Exits.Lookup.{get-filter}
use qarax.Exits.Prune.{absent-prune_rows}

-- The call is about the process.
abbrev pub concerns : ℕ → RegistryCall → Bool
concerns pid begin = false
concerns pid (register q tx) = pid == q
concerns pid cancel = false
concerns pid (exit q exit_code) = pid == q

abbrev pub is_exit : ℕ × RegistryCall → Bool
is_exit (now, exit pid exit_code) = true
is_exit _ = false

-- Calls about other processes.
abbrev pub Elsewhere : ℕ → List (ℕ × RegistryCall) → Type 0
Elsewhere pid calls = (c : ℕ × RegistryCall) → Memᴰ c calls → concerns pid c.1 ≡ false

-- Calls within 30 seconds of the time.
abbrev pub Soon : ℕ → List (ℕ × RegistryCall) → Type 0
Soon time calls = (c : ℕ × RegistryCall) → Memᴰ c calls → c.0 - time ≤ max_completed_exit_age

module _ {A : Type 0} where
  pub get-insert : (pid : ℕ) (a : A) (rows : List (ℕ × A)) → get pid (insert pid a rows) ≡ some a
  unfolding get
  get-insert pid a rows = rw (==_refl pid) refl

  pub get-remove_other :
      (pid q : ℕ) (rows : List (ℕ × A)) {a : A}
      → (pid == q) ≡ false
      → get pid rows ≡ some a
      → get pid (remove q rows) ≡ some a
  get-remove_other pid q rows f h =
      get-filter (λ row. not (q == row.0)) pid rows h (rw (flipped f) refl)
    where
      flipped : (pid == q) ≡ false → (q == pid) ≡ false
      flipped f = ground arith

  pub get-insert_other :
      (pid q : ℕ) (b : A) (rows : List (ℕ × A)) {a : A}
      → (pid == q) ≡ false
      → get pid rows ≡ some a
      → get pid (insert q b rows) ≡ some a
  unfolding get
  get-insert_other pid q b rows f h = rw f (get-remove_other pid q rows f h)

-- A thread waits for the process.
module _ (pid tx : ℕ) where
  take_completed-waits :
      (q tx' : ℕ) (r : ExitRegistryState) (o : Option CompletedExit)
      → (pid == q) ≡ false
      → get pid r.waiters ≡ some tx
      → get pid (take_completed q tx' r o).0.waiters ≡ some tx
  unfolding take_completed
  take_completed-waits q tx' r (some completed) f h = h
  take_completed-waits q tx' r none f h = get-insert_other pid q tx' r.waiters f h

  notify-waits :
      (now q exit_code : ℕ) (r : ExitRegistryState) (o : Option ℕ)
      → (pid == q) ≡ false
      → get pid r.waiters ≡ some tx
      → get pid (notify now q exit_code r o).0.waiters ≡ some tx
  unfolding notify
  notify-waits now q exit_code r (some x) f h = get-remove_other pid q r.waiters f h
  notify-waits now q exit_code r none f h = elim (Bool-cases (ltb 0 r.pending_registrations)) [
    | inl t ↦ rw t h
    | inr g ↦ rw g h
  ]

  call-waits :
      (now : ℕ) (c : RegistryCall) (r : ExitRegistryState)
      → concerns pid c ≡ false
      → get pid r.waiters ≡ some tx
      → get pid (call now c r).0.waiters ≡ some tx
  unfolding call begin_exec_registration cancel_exec_registration register_exec_waiter
      record_child_exit prune_completed_exits
  call-waits now begin r f h = h
  call-waits now cancel r f h = h
  call-waits now (register q tx') r f h = take_completed-waits q tx' _ _ f h
  call-waits now (exit q exit_code) r f h = notify-waits now q exit_code _ _ f h

  run-waits :
      (calls : List (ℕ × RegistryCall)) (r : ExitRegistryState)
      → Elsewhere pid calls
      → get pid r.waiters ≡ some tx
      → get pid (run calls r).waiters ≡ some tx
  unfolding run
  run-waits [] r away h = h
  run-waits (timed ∷ calls) r away h =
      run-waits calls _ (λ c m. away c (Memᴰ.tail m))
        (call-waits timed.0 timed.1 r (away timed (Memᴰ.head refl)) h)

-- The exit of a process that a thread has registered for, and of which no exit is on record, is sent
-- to that thread, whatever calls about other processes come in between.
pub registered_waiter-Delivers :
    (r : ExitRegistryState) (pid tx exit_code registered_at now : ℕ)
    (calls : List (ℕ × RegistryCall))
    → get pid r.completed ≡ none
    → Elsewhere pid calls
    → (call now (exit pid exit_code) (run calls (call registered_at (register pid tx) r).0)).1
      ≡ (tx, exit_code) ∷ []
unfolding call register_exec_waiter record_child_exit prune_completed_exits take_completed notify
registered_waiter-Delivers r pid tx exit_code registered_at now calls absent away =
    let pruned =
      prune_completed_exits registered_at
        (record r { pending_registrations = r.pending_registrations - 1 }) in
    rw (absent-prune_rows registered_at r.completed pid absent) (
      rw
        (run-waits pid tx calls (take_completed pid tx pruned none).0 away
          (get-insert pid tx r.waiters))
        refl)
