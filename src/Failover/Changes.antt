-- ===== src/Failover/Changes.antt =====
-- The writes of a failover: each one changes the row of the VM, and leaves its identifier alone.
use qarax.Base.{
  ℕ, ◌≤◌, ◌≡◌, refl, ap, ◌∙◌, sym, inl, inr, ◌⊎◌, some, List, [], ◌∷◌, count_if, arith, Bool-cases,
  Result, ok, err, sqlx, ◌==◌, nat_ord, update_where, update_where_twice, update_where_id,
  update_where_none, count_if_pos,
}
use qarax.Db.{Vm, VmStatus}
use qarax.Control.{Store, World, M, execute, tick, find_vm}
use qarax.Lifecycle.{is_vm, set_status, with_vm_status, update_status}
use qarax.Lifecycle.Frame.{Frame, Lost, update_status-cases}
use qarax.Failover.Quiet.{Quiet}
use qarax.Failover.Attempt.{
  with_config, with_host, update_config, update_host_id, revert_failover_state,
}

-- No task is spawned.
pub record Beside {F : Type 0} (s t : Store F) : Type 0 where
  pub tasks : t.tasks ≡ s.tasks
  pub later : s.calls ≤ t.calls

module _ {F : Type 0} where
  pub Beside-trans : {s t u : Store F} → Beside s t → Beside t u → Beside s u
  Beside-trans p q = record { tasks = q.tasks ∙ p.tasks; later = omega (arith, p.later, q.later) }

  pub Frame-Beside : {s t : Store F} → Frame s t → Beside s t
  Frame-Beside p = record { tasks = p.tasks; later = p.later }

  pub Quiet-Beside : {s t : Store F} → Quiet s t → Beside s t
  Quiet-Beside p = record { tasks = p.tasks; later = p.later }

  pub Lost-within :
      (w : World) {r s t u : Store F} → Beside r s → Beside t u → Lost w s t → Lost w r u
  Lost-within w p q l =
      let (n, a, b, unanswered) = l in
      (n, omega (arith, a, p.later), omega (arith, b, q.later), unanswered)

-- What `revert_failover_state` writes.
abbrev pub put_back : Vm → ℕ → Vm → Vm
put_back vm dead_host_id x = record x {
  host_id = some dead_host_id;
  status = vm.status;
  config = vm.config;
}

-- The table where the row of the VM has been changed in a way that can be put back.
pub record Touched (vm : Vm) (dead_host_id : ℕ) (base vms : List Vm) : Type 0 where
  pub change : Vm → Vm
  pub keeps : (x : Vm) → (change x).id ≡ x.id
  pub restorable : put_back vm dead_host_id (change vm) ≡ vm
  pub is : vms ≡ update_where (is_vm vm.id) change base

update_where_absent :
    (id : ℕ) (change : Vm → Vm) (vms : List Vm)
    → count_if (is_vm id) vms ≤ 0
    → update_where (is_vm id) change vms ≡ vms
update_where_absent id change vms h = update_where_none (is_vm id) change vms (λ x m.
    elim (Bool-cases (is_vm id x)) [
      | inr f ↦ f
      | inl t ↦ absurd (omega (arith, h, count_if_pos (is_vm id) m t))
    ])

some_injective : {a b : Vm} → some a ≡ some b → a ≡ b
some_injective h = cc h

-- A change of a row that gives the row again changes nothing.
pub update_where_same :
    (id : ℕ) (change : Vm → Vm) (vms : List Vm) {vm : Vm}
    → count_if (is_vm id) vms ≤ 1
    → find_vm id vms ≡ some vm
    → change vm ≡ vm
    → update_where (is_vm id) change vms ≡ vms
unfolding find_vm update_where
update_where_same id change [] keys h e = refl
update_where_same id change (x ∷ xs) keys h e = elim (Bool-cases (x.id == id)) [
  | inl t ↦
      let same : x ≡ _ = some_injective (rw t at h) in
      rw t (
        rw (update_where_absent id change xs (omega (arith, (rw t at keys))))
          (ap (λ y. y ∷ xs) (ap change same ∙ (e ∙ sym same))))
  | inr f ↦ rw f (ap (λ r. x ∷ r) (update_where_same id change xs (rw f at keys) (rw f at h) e))
]

pub find_vm-update_where :
    (id : ℕ) (change : Vm → Vm) (vms : List Vm) {vm : Vm}
    → ((x : Vm) → (change x).id ≡ x.id)
    → find_vm id vms ≡ some vm
    → find_vm id (update_where (is_vm id) change vms) ≡ some (change vm)
unfolding find_vm update_where
find_vm-update_where id change [] k h = cc h
find_vm-update_where id change (x ∷ xs) k h = elim (Bool-cases (x.id == id)) [
  | inl t ↦ rw t (
      rw (ap (λ (i : ℕ). i == id) (k x) ∙ t)
        (ap (λ (y : Vm). some (change y)) (some_injective (rw t at h))))
  | inr f ↦ rw f (rw f (find_vm-update_where id change xs k (rw f at h)))
]

module _ {vm : Vm} {dead_host_id : ℕ} {base : List Vm} where
  pub untouched-Touched : vm.host_id ≡ some dead_host_id → Touched vm dead_host_id base base
  untouched-Touched placed = record {
    change = λ x. x;
    keeps = λ x. refl;
    restorable = ap (λ h. record vm { host_id = h }) (sym placed);
    is = sym (update_where_id (is_vm vm.id) base);
  }

  pub Touched-then :
      {xs ys : List Vm} (f : Vm → Vm)
      → ((x : Vm) → (f x).id ≡ x.id)
      → ((x : Vm) → put_back vm dead_host_id (f x) ≡ put_back vm dead_host_id x)
      → Touched vm dead_host_id base xs
      → ys ≡ update_where (is_vm vm.id) f xs
      → Touched vm dead_host_id base ys
  Touched-then f k r p e = record {
    change = λ x. f (p.change x);
    keeps = λ x. k (p.change x) ∙ p.keeps x;
    restorable = r (p.change vm) ∙ p.restorable;
    is =
        e
        ∙ (ap (update_where (is_vm vm.id) f) p.is
            ∙ update_where_twice (is_vm vm.id) p.change f base
                (λ x. ap (λ i. i == vm.id) (p.keeps x)));
  }

  pub Touched-same :
      {xs ys : List Vm}
      → Touched vm dead_host_id base xs
      → ys ≡ xs
      → Touched vm dead_host_id base ys
  Touched-same p e = record {
    change = p.change;
    keeps = p.keeps;
    restorable = p.restorable;
    is = e ∙ p.is;
  }

  -- Put back, the table is the one before.
  pub Touched-restored :
      {xs ys : List Vm}
      → count_if (is_vm vm.id) base ≤ 1
      → find_vm vm.id base ≡ some vm
      → Touched vm dead_host_id base xs
      → ys ≡ update_where (is_vm vm.id) (put_back vm dead_host_id) xs
      → ys ≡ base
  Touched-restored keys found p e =
      e
      ∙ (ap (update_where (is_vm vm.id) (put_back vm dead_host_id)) p.is
          ∙ (update_where_twice (is_vm vm.id) p.change (put_back vm dead_host_id) base
                (λ x. ap (λ i. i == vm.id) (p.keeps x))
              ∙ update_where_same vm.id _ base keys found p.restorable))

module _ {F : Type 0} (w : World) where
  pub write_row-cases :
      (id : ℕ) (change : Vm → Vm) (s : Store F)
      → (t : Store F) × Beside s t
        × (((execute w (λ (s : Store F). record s { vms = update_where (is_vm id) change s.vms }) s
                ≡ (ok tt, t))
              × (t.vms ≡ update_where (is_vm id) change s.vms))
            ⊎ ((execute w
                    (λ (s : Store F). record s { vms = update_where (is_vm id) change s.vms })
                    s
                  ≡ (err sqlx, t))
                × (t.vms ≡ s.vms)
                × Lost w s t))
  unfolding execute
  write_row-cases id change s = elim (Bool-cases (w.db_answers s.calls)) [
    | inl t ↦ (
      tick (record s { vms = update_where (is_vm id) change s.vms }),
      record { tasks = refl; later = omega arith },
      inl (rw t refl, refl),
    )
    | inr f ↦ (
      tick s,
      record { tasks = refl; later = omega arith },
      inr (rw f refl, refl, (s.calls, omega arith, omega arith, f)),
    )
  ]

-- How a write of the row ends, whether its outcome is read or not.
pub record Wrote {F A : Type 0} (w : World) (id : ℕ) (change : Vm → Vm) (s : Store F) (m : M F A)
    : Type 0 where
  pub result : Result A
  pub after : Store F
  pub ends : m s ≡ (result, after)
  pub beside : Beside s after
  pub written :
      (after.vms ≡ update_where (is_vm id) change s.vms) ⊎ ((after.vms ≡ s.vms) × Lost w s after)

module _ {F : Type 0} (w : World) where
  pub row-Wrote :
      (id : ℕ) (change : Vm → Vm) (s : Store F)
      → Wrote w id change s
          (execute w (λ s. record s { vms = update_where (is_vm id) change s.vms }))
  row-Wrote id change s =
      let (t, b, c) = write_row-cases w id change s in
      elim c [
        | inl done ↦ record {
          result = ok tt;
          after = t;
          ends = done.0;
          beside = b;
          written = inl done.1;
        }
        | inr lost ↦ record {
          result = err sqlx;
          after = t;
          ends = lost.0;
          beside = b;
          written = inr (lost.1, lost.2);
        }
      ]

  pub status-Wrote :
      (id : ℕ) (status : VmStatus) (s : Store F)
      → Wrote w id (with_vm_status status) s (update_status w id status)
  status-Wrote id status s =
      let (t, f, c) = update_status-cases w id status s in
      elim c [
        | inl done ↦ record {
          result = ok tt;
          after = t;
          ends = done.0;
          beside = Frame-Beside f;
          written = inl done.1;
        }
        | inr lost ↦ record {
          result = err lost.0;
          after = t;
          ends = lost.1;
          beside = Frame-Beside f;
          written = inr (lost.2, lost.3);
        }
      ]

module _ {F : Type 0} (w : World) (vm : Vm) (dead_host_id : ℕ) (base : List Vm) where
  Wrote-Touched :
      {change : Vm → Vm} {s : Store F} {A : Type 0} {m : M F A}
      → ((x : Vm) → (change x).id ≡ x.id)
      → ((x : Vm) → put_back vm dead_host_id (change x) ≡ put_back vm dead_host_id x)
      → Touched vm dead_host_id base s.vms
      → (r : Wrote w vm.id change s m) → Touched vm dead_host_id base r.after.vms
  Wrote-Touched {change = change} k r p q = elim q.written [
    | inl done ↦ Touched-then change k r p done
    | inr lost ↦ Touched-same p lost.0
  ]

  -- The row is put back, or a write of it is lost.
  pub revert-cases :
      (s : Store F)
      → Touched vm dead_host_id base s.vms
      → (t : Store F) × Beside s t
        × (revert_failover_state w vm dead_host_id s ≡ (ok tt, t))
        × ((t.vms ≡ update_where (is_vm vm.id) (put_back vm dead_host_id) s.vms)
            ⊎ (Touched vm dead_host_id base t.vms × Lost w s t))
  unfolding revert_failover_state update_host_id update_config
  revert-cases s p =
      let a = row-Wrote w vm.id (with_host dead_host_id) s in
      let b = status-Wrote w vm.id vm.status a.after in
      let c = row-Wrote w vm.id (with_config vm.config) b.after in
      let ab = Beside-trans a.beside b.beside in
      let bc = Beside-trans b.beside c.beside in
      let none : Beside s s = record { tasks = refl; later = omega arith } in
      let still : Beside c.after c.after = record { tasks = refl; later = omega arith } in
      let touched =
        Wrote-Touched (λ x. refl) (λ x. refl)
          (Wrote-Touched (λ x. refl) (λ x. refl) (Wrote-Touched (λ x. refl) (λ x. refl) p a) b) c in
      (
        c.after,
        Beside-trans a.beside bc,
        rw (a.ends, b.ends, c.ends) refl,
        elim a.written [
          | inr lost ↦ inr (touched, Lost-within w none bc lost.1)
          | inl da ↦ elim b.written [
            | inr lost ↦ inr (touched, Lost-within w a.beside c.beside lost.1)
            | inl db ↦ elim c.written [
              | inr lost ↦ inr (touched, Lost-within w ab still lost.1)
              | inl dc ↦ inl (
                  dc
                  ∙ (ap (update_where (is_vm vm.id) (with_config vm.config)) (
                        db
                        ∙ (ap (set_status vm.id vm.status) da
                            ∙ update_where_twice (is_vm vm.id) _ _ s.vms (λ x. refl)))
                      ∙ update_where_twice (is_vm vm.id) _ _ s.vms (λ x. refl)))
            ]
          ]
        ],
      )
