-- ===== src/Exits.antt =====
-- The exit registry of the init process: qarax-init/src/main.rs. A `HashMap` is a list of pairs with
-- different keys, a channel's sender a number, an instant a number of nanoseconds. The functions
-- that lock the registry are calls on its state; where two exits were recorded at one instant, the
-- order of the list stands for the arbitrary one of the map.
pub mod Lookup
pub mod Prune
pub mod Registry
pub mod Waiting
pub mod Delivery
use qarax.Base.{
  ℕ, suc, ◌+◌, ◌-◌, ◌^◌, ◌%◌, ◌<◌, ◌≡◌, Ordering, compare, Bool, true, false, ◌&&◌, not, Option,
  none, some, List, [], ◌∷◌, ◌++◌, filter, map, length, take, sort_by, leb, ltb, ◌==◌, nat_ord,
  if◌then◌else◌,
}
use qarax.Rows.{is_chosen}

abbrev pub max_completed_exit_records : ℕ
max_completed_exit_records = 128

-- 30 seconds.
abbrev pub max_completed_exit_age : ℕ
max_completed_exit_age = 30000000000

pub record CompletedExit : Type 0 where
  pub exit_code : ℕ
  pub recorded_at : ℕ

pub record ExitRegistryState : Type 0 where
  pub waiters : List (ℕ × ℕ)
  pub completed : List (ℕ × CompletedExit)
  pub pending_registrations : ℕ

abbrev pub default_registry : ExitRegistryState
default_registry = record { waiters = []; completed = []; pending_registrations = 0 }

abbrev pub pid_of {ℓ} : {A : Type ℓ} → ℕ × A → ℕ
pid_of row = row.0

module _ {ℓ} {A : Type ℓ} where
  unfoldable pub get : ℕ → List (ℕ × A) → Option A
  get pid [] = none
  get pid (row ∷ rows) = if pid == row.0 then some row.1 else get pid rows

  abbrev pub remove : ℕ → List (ℕ × A) → List (ℕ × A)
  remove pid = filter (λ row. not (pid == row.0))

  abbrev pub insert : ℕ → A → List (ℕ × A) → List (ℕ × A)
  insert pid a rows = (pid, a) ∷ remove pid rows

abbrev pub is_recent : ℕ → ℕ × CompletedExit → Bool
is_recent now row = leb (now - row.1.recorded_at) max_completed_exit_age

abbrev pub by_time : ℕ × CompletedExit → ℕ × CompletedExit → Ordering
by_time a b = compare a.1.recorded_at b.1.recorded_at

-- The rows that are too many, the oldest first.
unfoldable pub surplus : List (ℕ × CompletedExit) → List (ℕ × CompletedExit)
surplus completed = take (length completed - max_completed_exit_records) (sort_by by_time completed)

unfoldable pub prune_rows : ℕ → List (ℕ × CompletedExit) → List (ℕ × CompletedExit)
prune_rows now completed =
    let recent = filter (is_recent now) completed in
    if leb (length recent) max_completed_exit_records
    then recent
    else filter (λ row. not (is_chosen pid_of (surplus recent) row)) recent

unfoldable pub prune_completed_exits : ℕ → ExitRegistryState → ExitRegistryState
prune_completed_exits now registry = record registry {
  completed = prune_rows now registry.completed;
}

unfoldable pub begin_exec_registration : ℕ → ExitRegistryState → ExitRegistryState
begin_exec_registration now registry =
    prune_completed_exits now
      (record registry { pending_registrations = (registry.pending_registrations + 1) % 2 ^ 64 })

unfoldable pub cancel_exec_registration : ℕ → ExitRegistryState → ExitRegistryState
cancel_exec_registration now registry =
    prune_completed_exits now
      (record registry { pending_registrations = registry.pending_registrations - 1 })

-- What is sent: the channel, and the exit code.
abbrev pub Sent : Type 0
Sent = List (ℕ × ℕ)

unfoldable pub take_completed :
    ℕ → ℕ → ExitRegistryState → Option CompletedExit → ExitRegistryState × Sent
take_completed pid tx registry (some completed) =
    (record registry { completed = remove pid registry.completed }, (tx, completed.exit_code) ∷ [])
take_completed pid tx registry none =
    (record registry { waiters = insert pid tx registry.waiters }, [])

unfoldable pub register_exec_waiter : ℕ → ℕ → ℕ → ExitRegistryState → ExitRegistryState × Sent
register_exec_waiter now pid tx registry =
    let pruned =
      prune_completed_exits now
        (record registry { pending_registrations = registry.pending_registrations - 1 }) in
    take_completed pid tx pruned (get pid pruned.completed)

unfoldable pub notify : ℕ → ℕ → ℕ → ExitRegistryState → Option ℕ → ExitRegistryState × Sent
notify now pid exit_code registry (some tx) =
    (record registry { waiters = remove pid registry.waiters }, (tx, exit_code) ∷ [])
notify now pid exit_code registry none =
    if ltb 0 registry.pending_registrations
    then (
      record registry {
        completed =
            insert pid (record { exit_code = exit_code; recorded_at = now }) registry.completed;
      },
      [],
    )
    else (registry, [])

unfoldable pub record_child_exit : ℕ → ℕ → ℕ → ExitRegistryState → ExitRegistryState × Sent
record_child_exit now pid exit_code registry =
    let pruned = prune_completed_exits now registry in
    notify now pid exit_code pruned (get pid pruned.waiters)

-- The calls of the threads that serve a connection, and of the loop that waits for children.
pub data RegistryCall : Type 0 where
  begin : RegistryCall
  register : (pid tx : ℕ) → RegistryCall
  cancel : RegistryCall
  exit : (pid exit_code : ℕ) → RegistryCall

unfoldable pub call : ℕ → RegistryCall → ExitRegistryState → ExitRegistryState × Sent
call now begin registry = (begin_exec_registration now registry, [])
call now (register pid tx) registry = register_exec_waiter now pid tx registry
call now cancel registry = (cancel_exec_registration now registry, [])
call now (exit pid exit_code) registry = record_child_exit now pid exit_code registry

unfoldable pub run : List (ℕ × RegistryCall) → ExitRegistryState → ExitRegistryState
run [] registry = registry
run (timed ∷ calls) registry = run calls (call timed.0 timed.1 registry).0
