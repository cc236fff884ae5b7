-- ===== src/Hooks/Matching.antt =====
-- Which hooks a status change reaches, and what is queued for them.
use mathlib.Core.List.Memᴰ
use qarax.Base.{
  ℕ, ◌+◌, ◌≡◌, refl, ap, sym, ◌∙◌, ◌⊎◌, inl, inr, ◌↔◌, Bool, Bool-cases, true, false, ◌||◌, Option,
  some, none, List, [], ◌∷◌, ◌++◌, Memᴰ, map, filter, Text, text_ord, and_true, or_true,
  mem-filter_of, of_mem-filter,
}
use qarax.Db.{Vm}
use qarax.Schedule.Tests.{if_some_eq_iff, elem_iff}
use qarax.Schedule.{elem}
use qarax.Hooks.{
  LifecycleHook, HookScope, HookExecution, HookExecutionStatus, scope_matches, hook_matches,
  enqueue_matching, new_rows, new_execution, build_payload, is_empty,
}

-- The scope's documented meaning.
abbrev pub InScope : Text → Vm → Option Text → HookScope → Type 0
InScope vm_id machine scope_value HookScope.global = Unit
InScope vm_id machine scope_value HookScope.vm = scope_value ≡ some vm_id
InScope vm_id machine scope_value HookScope.tag =
    (tag : Text) × Memᴰ tag machine.tags × (scope_value ≡ some tag)

-- A hook that a change of the VM's status to `new_status` is reported to.
pub record Listens (vm_id : Text) (machine : Vm) (new_status : Text) (hook : LifecycleHook)
    : Type 0 where
  pub is_active : hook.active ≡ true
  pub in_scope : InScope vm_id machine hook.scope_value hook.scope
  pub wants : (hook.events ≡ []) ⊎ Memᴰ new_status hook.events

some_injective : {a b : Text} → some a ≡ some b → a ≡ b
some_injective h = cc h

InScope-iff :
    (vm_id : Text) (machine : Vm) (scope : HookScope) (scope_value : Option Text)
    → (scope_matches vm_id machine scope scope_value ≡ true)
      ↔ InScope vm_id machine scope_value scope
unfolding scope_matches
InScope-iff vm_id machine HookScope.global scope_value = (λ h. tt, λ h. refl)
InScope-iff vm_id machine HookScope.vm scope_value = if_some_eq_iff scope_value vm_id
InScope-iff vm_id machine HookScope.tag none = (λ h. cc, λ h. cc)
InScope-iff vm_id machine HookScope.tag (some tag) = (
  λ h. (tag, (elem_iff tag machine.tags).0 h, refl),
  λ t. (elem_iff tag machine.tags).1 (rw (some_injective t.2) t.1),
)

is_empty_iff : (xs : List Text) → (is_empty xs ≡ true) ↔ (xs ≡ [])
is_empty_iff [] = (λ h. refl, λ h. refl)
is_empty_iff (x ∷ xs) = (λ h. cc, λ h. cc)

pub hook_matches-Listens :
    (vm_id : Text) (machine : Vm) (new_status : Text) (hook : LifecycleHook)
    → (hook_matches vm_id machine new_status hook ≡ true) ↔ Listens vm_id machine new_status hook
unfolding hook_matches
hook_matches-Listens vm_id machine new_status hook = (
  λ h.
      let (a, h') = (and_true _ _).0 h in
      let (s, w) = (and_true _ _).0 h' in
      record {
        is_active = a;
        in_scope = (InScope-iff vm_id machine hook.scope hook.scope_value).0 s;
        wants = wants_of w;
      },
  λ l. (and_true _ _).1 (
    l.is_active,
    (and_true _ _).1
        ((InScope-iff vm_id machine hook.scope hook.scope_value).1 l.in_scope, of_wants l.wants),
  ),
)
  where
    wants_of :
        (is_empty hook.events || elem new_status hook.events) ≡ true
        → (hook.events ≡ []) ⊎ Memᴰ new_status hook.events
    wants_of w = elim ((or_true _ _).0 w) [
      | inl e ↦ inl ((is_empty_iff hook.events).0 e)
      | inr m ↦ inr ((elem_iff new_status hook.events).0 m)
    ]

    of_wants :
        (hook.events ≡ []) ⊎ Memᴰ new_status hook.events
        → (is_empty hook.events || elem new_status hook.events) ≡ true
    of_wants (inl e) = (or_true _ _).1 (inl ((is_empty_iff hook.events).1 e))
    of_wants (inr m) = (or_true _ _).1 (inr ((elem_iff new_status hook.events).1 m))

-- A row as it is queued.
pub record IsQueued (machine : Vm) (new_status : Text) (e : HookExecution) : Type 0 where
  pub pending : e.status ≡ HookExecutionStatus.pending
  pub untried : e.attempt_count ≡ 0
  pub retries : e.max_attempts ≡ 5
  pub of_vm : e.vm_id ≡ machine.id
  pub reports : e.payload.new_status ≡ new_status
  pub of_payload : e.payload.vm_id ≡ machine.id

module _ (vm_id : Text) (machine : Vm) (previous_status new_status : Text) (now : ℕ)
    (fresh : ℕ → ℕ) where
  abbrev row : ℕ → ℕ → HookExecution
  row =
      new_execution machine previous_status new_status
        (build_payload machine previous_status new_status now) now

  new_rows-hook_ids :
      (n : ℕ) (hooks : List LifecycleHook)
      → map (λ (e : HookExecution). e.hook_id) (new_rows row fresh n hooks)
        ≡ map (λ (h : LifecycleHook). h.id) hooks
  unfolding new_rows new_execution
  new_rows-hook_ids n [] = refl
  new_rows-hook_ids n (hook ∷ hooks) = ap (λ r. hook.id ∷ r) (new_rows-hook_ids (n + 1) hooks)

  new_rows-IsQueued :
      (n : ℕ) (hooks : List LifecycleHook) {e : HookExecution}
      → Memᴰ e (new_rows row fresh n hooks)
      → IsQueued machine new_status e
  unfolding new_rows new_execution build_payload
  new_rows-IsQueued n [] m = absurd (Memᴰ.not-nil m)
  new_rows-IsQueued n (hook ∷ hooks) {e} m = elim (Memᴰ.cases_cons m) [
    | inl q ↦ record {
      pending = ap (λ (r : HookExecution). r.status) q;
      untried = ap (λ (r : HookExecution). r.attempt_count) q;
      retries = ap (λ (r : HookExecution). r.max_attempts) q;
      of_vm = ap (λ (r : HookExecution). r.vm_id) q;
      reports = ap (λ (r : HookExecution). r.payload.new_status) q;
      of_payload = ap (λ (r : HookExecution). r.payload.vm_id) q;
    }
    | inr r ↦ new_rows-IsQueued (n + 1) hooks r
  ]

-- The elements of a list with a property, each as often and in the order as they stand there.
pub data Selects {A : Type 0} (P : A → Type 0) : List A → List A → Type 0 where
  ends : Selects P [] []
  takes : {x : A} {xs ys : List A} → P x → Selects P xs ys → Selects P (x ∷ xs) (x ∷ ys)
  passes : {x : A} {xs ys : List A} → ¬ P x → Selects P xs ys → Selects P (x ∷ xs) ys

filter-Selects :
    {A : Type 0} {P : A → Type 0} (p : A → Bool) (xs : List A)
    → ((x : A) → (p x ≡ true) ↔ P x)
    → Selects P xs (filter p xs)
filter-Selects p [] i = ends
filter-Selects p (x ∷ xs) i = elim (Bool-cases (p x)) [
  | inl t ↦ rw t (takes ((i x).0 t) (filter-Selects p xs i))
  | inr f ↦ rw f (passes (λ h. differ (sym ((i x).1 h) ∙ f)) (filter-Selects p xs i))
]
  where
    differ : true ≡ false → ⊥
    differ q = cc q

-- What a status change adds to the queue.
pub record Enqueues (hooks : List LifecycleHook) (vm_id : Text) (machine : Vm) (new_status : Text)
    (old new : List HookExecution) : Type 0 where
  pub rows : List HookExecution
  pub appended : new ≡ old ++ rows
  pub listeners : List LifecycleHook
  pub listener_iff :
      (hook : LifecycleHook)
      → Memᴰ hook listeners ↔ (Memᴰ hook hooks × Listens vm_id machine new_status hook)
  pub selected : Selects (Listens vm_id machine new_status) hooks listeners
  pub one_each :
      map (λ (e : HookExecution). e.hook_id) rows ≡ map (λ (h : LifecycleHook). h.id) listeners
  pub queued : (e : HookExecution) → Memᴰ e rows → IsQueued machine new_status e

-- A status change appends to the queue one pending execution for each active hook whose scope takes
-- in the VM and whose events are none or name the new status, in the order of the hooks, and none for
-- another hook.
pub enqueue_matching-Enqueues :
    (hooks : List LifecycleHook) (vm_id : Text) (machine : Vm) (previous_status new_status : Text)
    (now : ℕ) (fresh : ℕ → ℕ) (executions : List HookExecution)
    → Enqueues hooks vm_id machine new_status executions
        (enqueue_matching hooks vm_id machine previous_status new_status now fresh executions)
unfolding enqueue_matching
enqueue_matching-Enqueues hooks vm_id machine previous_status new_status now fresh executions =
    record {
      rows = new_rows _ fresh 0 (filter (hook_matches vm_id machine new_status) hooks);
      appended = refl;
      listeners = filter (hook_matches vm_id machine new_status) hooks;
      listener_iff = λ hook. (
        λ m.
            let r = of_mem-filter (hook_matches vm_id machine new_status) hooks m in
            (r.0, (hook_matches-Listens vm_id machine new_status hook).0 r.1),
        λ r.
            mem-filter_of (hook_matches vm_id machine new_status) r.0
              ((hook_matches-Listens vm_id machine new_status hook).1 r.1),
      );
      selected =
          filter-Selects (hook_matches vm_id machine new_status) hooks
            (hook_matches-Listens vm_id machine new_status);
      one_each = new_rows-hook_ids vm_id machine previous_status new_status now fresh 0 _;
      queued = λ e m. new_rows-IsQueued vm_id machine previous_status new_status now fresh 0 _ m;
    }
