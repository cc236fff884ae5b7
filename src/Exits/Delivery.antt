-- ===== src/Exits/Delivery.antt =====
-- The exit code of a child that exits early reaches the thread that registers for it.

use qarax.Base.{
  ℕ, suc, ◌+◌, ◌-◌, ◌≤◌, ◌<◌, ◌≡◌, refl, inl, inr, true, false, not, Option, some, none, List, [],
  ◌∷◌, Memᴰ, count_if, ◌==◌, nat_ord, arith, Bool-cases, ltb, leb, count_if-filter-le,
}
use qarax.Rows.{HasKeys}
use qarax.Exits.{
  CompletedExit, ExitRegistryState, RegistryCall, begin, register, cancel, exit, pid_of, get,
  insert, prune_rows, prune_completed_exits, begin_exec_registration, cancel_exec_registration,
  register_exec_waiter, take_completed, notify, record_child_exit, call, run,
  max_completed_exit_records, max_completed_exit_age,
}
use qarax.Exits.Lookup.{insert-HasKeys, filter-HasKeys}
use qarax.Exits.Prune.{prune_rows-HasKeys, get-prune_rows, count-prune_rows, is_since}
use qarax.Exits.Registry.{Reach, Reach-Sound}
use qarax.Exits.Waiting.{
  concerns, is_exit, Elsewhere, Soon, get-insert, get-remove_other, get-insert_other,
}

-- The exit of a process is on record.
module _ (pid : ℕ) (row : CompletedExit) where
  record Recorded (crowd : ℕ) (r : ExitRegistryState) : Type 0 where
    keys : HasKeys pid_of r.completed
    found : get pid r.completed ≡ some row
    few : count_if (is_since row.recorded_at) r.completed ≤ crowd

  prune-Recorded :
      {crowd : ℕ} (now m : ℕ) {r : ExitRegistryState}
      → crowd ≤ max_completed_exit_records
      → now - row.recorded_at ≤ max_completed_exit_age
      → Recorded crowd r
      → Recorded crowd (prune_completed_exits now (record r { pending_registrations = m }))
  unfolding prune_completed_exits
  prune-Recorded now m {r} bound young p = record {
    keys = prune_rows-HasKeys now r.completed p.keys;
    found =
        get-prune_rows now r.completed pid p.keys p.found (ground arith)
          (omega (arith, p.few, bound));
    few = omega (arith, p.few, count-prune_rows now r.completed (is_since row.recorded_at));
  }

  take_completed-Recorded :
      {crowd : ℕ} (q tx : ℕ) {r : ExitRegistryState} (o : Option CompletedExit)
      → (pid == q) ≡ false
      → Recorded crowd r
      → Recorded crowd (take_completed q tx r o).0
  unfolding take_completed
  take_completed-Recorded q tx {r} (some completed) f p = record {
    keys = filter-HasKeys _ r.completed p.keys;
    found = get-remove_other pid q r.completed f p.found;
    few = omega (
      arith,
      p.few,
      count_if-filter-le (is_since row.recorded_at) (λ x. not (q == x.0)) r.completed,
    );
  }
  take_completed-Recorded q tx none f p = record { keys = p.keys; found = p.found; few = p.few }

  insert-Recorded :
      {crowd : ℕ} (q : ℕ) (other : CompletedExit) {r : ExitRegistryState}
      → (pid == q) ≡ false
      → Recorded crowd r
      → Recorded (suc crowd) (record r { completed = insert q other r.completed })
  insert-Recorded q other {r} f p =
      let fewer = count_if-filter-le (is_since row.recorded_at) (λ x. not (q == x.0)) r.completed in
      record {
        keys = insert-HasKeys q other r.completed p.keys;
        found = get-insert_other pid q other r.completed f p.found;
        few = elim (Bool-cases (is_since row.recorded_at (q, other))) [
          | inl t ↦ rw t (omega (arith, p.few, fewer))
          | inr g ↦ rw g (omega (arith, p.few, fewer))
        ];
      }

  widen : {m : ℕ} (k : ℕ) {r : ExitRegistryState} → m ≤ k → Recorded m r → Recorded k r
  widen k h p = record { keys = p.keys; found = p.found; few = omega (arith, p.few, h) }

  notify-Recorded :
      {crowd : ℕ} (now q exit_code : ℕ) {r : ExitRegistryState} (o : Option ℕ)
      → (pid == q) ≡ false
      → Recorded crowd r
      → Recorded (suc crowd) (notify now q exit_code r o).0
  unfolding notify
  notify-Recorded now q exit_code (some tx) f p = record {
    keys = p.keys;
    found = p.found;
    few = omega (arith, p.few);
  }
  notify-Recorded now q exit_code {r} none f p = elim (Bool-cases (ltb 0 r.pending_registrations)) [
    | inl t ↦ rw t (insert-Recorded q _ f p)
    | inr g ↦ rw g (widen _ (omega arith) p)
  ]

  call-Recorded :
      {crowd : ℕ} (c : ℕ × RegistryCall) {r : ExitRegistryState}
      → crowd ≤ max_completed_exit_records
      → c.0 - row.recorded_at ≤ max_completed_exit_age
      → concerns pid c.1 ≡ false
      → Recorded crowd r
      → Recorded (count_if is_exit (c ∷ []) + crowd) (call c.0 c.1 r).0
  unfolding call begin_exec_registration cancel_exec_registration register_exec_waiter
      record_child_exit
  call-Recorded (now, begin) bound soon f p =
      widen _ (omega arith) (prune-Recorded now _ bound soon p)
  call-Recorded (now, cancel) bound soon f p =
      widen _ (omega arith) (prune-Recorded now _ bound soon p)
  call-Recorded (now, register q tx) {r} bound soon f p = widen _ (omega arith) (
      take_completed-Recorded q tx _ f
        (prune-Recorded now (r.pending_registrations - 1) bound soon p))
  call-Recorded (now, exit q exit_code) {r} bound soon f p = widen _ (omega arith) (
      notify-Recorded now q exit_code _ f (prune-Recorded now r.pending_registrations bound soon p))

  run-Recorded :
      (calls : List (ℕ × RegistryCall)) {crowd : ℕ} {r : ExitRegistryState}
      → count_if is_exit calls + crowd ≤ max_completed_exit_records
      → Soon row.recorded_at calls
      → Elsewhere pid calls
      → Recorded crowd r
      → Recorded (count_if is_exit calls + crowd) (run calls r)
  unfolding run
  run-Recorded [] bound soon away p = widen _ (omega arith) p
  run-Recorded (c ∷ calls) {crowd} {r} bound soon away p =
      let one = count_cons c calls in
      let after =
        call-Recorded c (omega (arith, bound)) (soon c (Memᴰ.head refl)) (away c (Memᴰ.head refl))
          p in
      let rest =
        run-Recorded calls {r = (call c.0 c.1 r).0} (omega (arith, bound, one))
          (λ x m. soon x (Memᴰ.tail m)) (λ x m. away x (Memᴰ.tail m)) after in
      widen _ (omega (arith, one)) rest
    where
      count_cons :
          (c : ℕ × RegistryCall) (calls : List (ℕ × RegistryCall))
          → count_if is_exit (c ∷ calls) ≡ count_if is_exit calls + count_if is_exit (c ∷ [])
      count_cons c calls = elim (Bool-cases (is_exit c)) [
        | inl t ↦ rw t (omega arith)
        | inr g ↦ rw g (omega arith)
      ]

-- The exit of a process that comes before the registration for it, while some thread is about to
-- register, is sent to the thread that registers for the process within 30 seconds, if no thread
-- waits for that process already, the calls in between are about other processes and in those 30
-- seconds, and the exits that are on record with that time or a later one and those that come in
-- between are fewer than 128.
pub recorded_exit-Delivers :
    {n : ℕ} {r : ExitRegistryState} (pid tx exit_code exit_at now : ℕ)
    (calls : List (ℕ × RegistryCall))
    → Reach (suc n) r
    → get pid r.waiters ≡ none
    → count_if is_exit calls + count_if (is_since exit_at) r.completed < max_completed_exit_records
    → Soon exit_at calls
    → now - exit_at ≤ max_completed_exit_age
    → Elsewhere pid calls
    → (call now (register pid tx) (run calls (call exit_at (exit pid exit_code) r).0)).1
      ≡ (tx, exit_code) ∷ []
unfolding call register_exec_waiter record_child_exit prune_completed_exits take_completed notify
recorded_exit-Delivers {n} {r} pid tx exit_code exit_at now calls reach alone few soon young away =
    let sound = Reach-Sound reach in
    let begun : ltb 0 r.pending_registrations ≡ true = ground (arith, sound.pending) in
    let row : CompletedExit = record { exit_code = exit_code; recorded_at = exit_at } in
    let pruned = prune_completed_exits exit_at r in
    let crowd = suc (count_if (is_since exit_at) r.completed) in
    let fewer = count-prune_rows exit_at r.completed (is_since exit_at) in
    let others =
      count_if-filter-le (is_since exit_at) (λ x. not (pid == x.0))
        (prune_rows exit_at r.completed) in
    let recorded : Recorded pid row crowd
        (record pruned { completed = insert pid row pruned.completed }) =
      record {
        keys =
            insert-HasKeys pid row pruned.completed
              (prune_rows-HasKeys exit_at r.completed sound.completed_keys);
        found = get-insert pid row pruned.completed;
        few = rw (since_itself exit_at) (omega (arith, fewer, others));
      } in
    let kept = run-Recorded pid row calls (omega (arith, few)) soon away recorded in
    let there = prune-Recorded pid row now 0 (omega (arith, few)) young kept in
    rw alone (rw begun (rw there.found refl))
  where
    since_itself : (time : ℕ) → leb time time ≡ true
    since_itself time = ground arith
