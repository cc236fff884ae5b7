-- ===== src/Examples/Exits.antt =====
-- Two children of the init process: one exits before the thread that spawned it has registered, the
-- other after.
use mathlib.Core.List.Memᴰ
use qarax.Base.{ℕ, ◌+◌, ◌<◌, ◌≡◌, refl, none, inl, inr, [], ◌∷◌, List, arith, count_if}
use qarax.Exits.{
  ExitRegistryState, RegistryCall, begin, register, cancel, exit, call, run, get, default_registry,
  begin_exec_registration, prune_completed_exits, prune_rows,
}
use qarax.Exits.Registry.{Reach, starts, begins, Sound, Reach-Sound}
use qarax.Exits.Prune.{is_since}
use qarax.Exits.Waiting.{is_exit, Elsewhere, Soon, registered_waiter-Delivers}
use qarax.Exits.Delivery.{recorded_exit-Delivers}

abbrev one_begun : ExitRegistryState
one_begun = (call 1 begin default_registry).0

reached : Reach 1 one_begun
reached = begins 1 (omega arith) starts

Reach-Sound_example : Sound 1 one_begun
Reach-Sound_example = Reach-Sound reached

abbrev between : List (ℕ × RegistryCall)
between = (3, begin) ∷ (4, exit 9 1) ∷ (5, cancel) ∷ []

away : Elsewhere 7 between
away c m = elim (Memᴰ.cases_cons m) [
  | inl e ↦ rw e refl
  | inr m ↦ elim (Memᴰ.cases_cons m) [
    | inl e ↦ rw e refl
    | inr m ↦ elim (Memᴰ.cases_cons m) [ inl e ↦ rw e refl | inr m ↦ absurd (Memᴰ.not-nil m) ]
  ]
]

soon : Soon 2 between
soon c m = elim (Memᴰ.cases_cons m) [
  | inl e ↦ rw e (omega arith)
  | inr m ↦ elim (Memᴰ.cases_cons m) [
    | inl e ↦ rw e (omega arith)
    | inr m ↦ elim (Memᴰ.cases_cons m) [
      | inl e ↦ rw e (omega arith)
      | inr m ↦ absurd (Memᴰ.not-nil m)
    ]
  ]
]

nobody_waits : get 7 one_begun.waiters ≡ none
unfolding get call begin_exec_registration prune_completed_exits
nobody_waits = refl

nothing_recorded : get 7 one_begun.completed ≡ none
unfolding get call begin_exec_registration prune_completed_exits prune_rows
nothing_recorded = refl

few : count_if is_exit between + count_if (is_since 2) one_begun.completed < 128
unfolding call begin_exec_registration prune_completed_exits prune_rows
few = omega arith

recorded_exit-Delivers_example :
    (call 6 (register 7 20) (run between (call 2 (exit 7 3) one_begun).0)).1 ≡ (20, 3) ∷ []
recorded_exit-Delivers_example =
    recorded_exit-Delivers 7 20 3 2 6 between reached nobody_waits few soon (omega arith) away

registered_waiter-Delivers_example :
    (call 6 (exit 7 3) (run between (call 2 (register 7 20) one_begun).0)).1 ≡ (20, 3) ∷ []
registered_waiter-Delivers_example =
    registered_waiter-Delivers one_begun 7 20 3 2 6 between nothing_recorded away
