-- ===== src/Evacuation/Course.antt =====
-- How the loop of an evacuation over the resident VMs may end.

use qarax.Base.{
  ℕ, ◌≤◌, ◌≡◌, ◌≢◌, refl, ap, ◌∙◌, sym, subst, inl, inr, ◌⊎◌, List, [], ◌∷◌, ◌++◌, Memᴰ, arith,
  Bool-cases, ok, err, Error, Text,
}
use qarax.Db.{Vm}
use qarax.Control.{
  Job, Store, World, execute, tick, mark_running, mark_completed, mark_failed, update_progress,
}
use qarax.Control.Rules.{IsFrame, Within, query-Within}
use qarax.Migration.{PlannedVmMigration}
use qarax.Migration.Execute.{Sent}
use qarax.Evacuation.{
  EvacuationTask, fail_host_evacuation, note_failure, settle_host, update_host_status,
  set_host_status, closing,
}
use qarax.Evacuation.Steps.{Keeps}

-- Neither a row of a VM nor one of a host changes.
pub record Aside {F : Type 0} (s t : Store F) : Type 0 where
  pub vms : t.vms ≡ s.vms
  pub hosts : t.hosts ≡ s.hosts
  pub later : s.calls ≤ t.calls

pub Aside-frame : {F : Type 0} → IsFrame (Aside {F = F})
Aside-frame = record {
  stay = λ s. record { vms = refl; hosts = refl; later = omega arith };
  chain = λ p q. record {
    vms = q.vms ∙ p.vms;
    hosts = q.hosts ∙ p.hosts;
    later = omega (arith, p.later, q.later);
  };
  ticks = λ s. record { vms = refl; hosts = refl; later = omega arith };
}

-- The rows of the VMs without one of the identifiers stay, and none is added.
pub record Spares {F : Type 0} (ids : List ℕ) (s t : Store F) : Type 0 where
  pub later : s.calls ≤ t.calls
  pub kept : (v : Vm) → Memᴰ v s.vms → ¬ Memᴰ v.id ids → Memᴰ v t.vms
  pub only : (v : Vm) → Memᴰ v t.vms → ¬ Memᴰ v.id ids → Memᴰ v s.vms

pub Aside-Spares : {F : Type 0} (ids : List ℕ) {s t : Store F} → Aside s t → Spares ids s t
Aside-Spares ids p = record {
  later = p.later;
  kept = λ v m away. subst (λ (vms : List Vm). Memᴰ v vms) (sym p.vms) m;
  only = λ v m away. subst (λ (vms : List Vm). Memᴰ v vms) p.vms m;
}

pub Spares-trans :
    {F : Type 0} {ids : List ℕ} {s t u : Store F} → Spares ids s t → Spares ids t u → Spares ids s u
Spares-trans p q = record {
  later = omega (arith, p.later, q.later);
  kept = λ v m away. q.kept v (p.kept v m away) away;
  only = λ v m away. p.only v (q.only v m away) away;
}

-- Both nodes did their part in moving the VM.
abbrev pub Moved : {F : Type 0} → World → ℕ → Store F → Store F → Type 0
Moved {F} w vm_id s t =
    (plan : PlannedVmMigration F) × (plan.vm_id ≡ vm_id) × Sent w plan s.calls t.calls

pub Moved-within :
    {F : Type 0} (w : World) (vm_id : ℕ) (r s t u : Store F)
    → r.calls ≤ s.calls
    → t.calls ≤ u.calls
    → Moved w vm_id s t
    → Moved w vm_id r u
Moved-within w vm_id r s t u p q (plan, same, sent) = (
  plan,
  same,
  record {
    received_at = sent.received_at;
    sent_at = sent.sent_at;
    after = omega (arith, p, sent.after);
    in_order = sent.in_order;
    before = omega (arith, q, sent.before);
    receives = sent.receives;
    sends = sent.sends;
  },
)

-- The write of the host's former status is lost.
pub record HostLost {F : Type 0} (w : World) (task : EvacuationTask) (s t : Store F) : Type 0 where
  pub error : Error
  pub before : Store F
  pub after : Store F
  pub from : s.calls ≤ before.calls
  pub to : after.calls ≤ t.calls
  pub fails :
      update_host_status w task.host_id task.original_host_status before ≡ (err error, after)

-- How the loop over the VMs ends, where `names` says which VMs have been moved before, `Cause` what is
-- known where none has been moved, and `Stop` where some have and the loop is left.
pub data Course {F : Type 0} (w : World) (task : EvacuationTask) (Cause Stop : Type 0)
    (names : List Text) (ids : List ℕ) (s t : Store F) : Type 0 where
  finished :
      ((vm_id : ℕ) → Memᴰ vm_id ids → Moved w vm_id s t)
      → t.hosts ≡ s.hosts
      → Course w task Cause Stop names ids s t
  left :
      (names ≢ []) ⊎ ((vm_id : ℕ) × Memᴰ vm_id ids × Moved w vm_id s t)
      → Stop
      → t.hosts ≡ s.hosts
      → Course w task Cause Stop names ids s t
  restored :
      names ≡ []
      → Cause
      → t.hosts ≡ set_host_status task.host_id task.original_host_status s.hosts
      → Course w task Cause Stop names ids s t
  unrestored :
      names ≡ []
      → Cause
      → t.hosts ≡ s.hosts
      → HostLost w task s t
      → Course w task Cause Stop names ids s t

not_nil : (names : List Text) (name : Text) → names ++ name ∷ [] ≢ []
not_nil [] name q = cc q
not_nil (x ∷ xs) name q = cc q

jobs-Aside :
    {F : Type 0} (w : World) (write : Store F → List Job)
    → Within Aside-frame (execute w (λ s. record s { jobs = write s }))
unfolding execute
jobs-Aside w write s = elim (Bool-cases (w.db_answers s.calls)) [
  | inl t ↦ rw t (record { vms = refl; hosts = refl; later = omega arith })
  | inr f ↦ rw f (Aside-frame.ticks s)
]

module _ {F : Type 0} (w : World) (task : EvacuationTask) where
  failed-Aside : (message : Text) → Within Aside-frame (mark_failed {F = F} w task.job_id message)
  unfolding mark_failed
  failed-Aside message = jobs-Aside w _

  note-Aside : (message : Text) → Within Aside-frame (note_failure {F = F} w task message)
  unfolding note_failure
  note-Aside message =
      λ s. Aside-frame.chain (query-Within Aside-frame w _ s) (failed-Aside message _)

  pub progress-Aside :
      (progress : ℕ) → Within Aside-frame (update_progress {F = F} w task.job_id progress)
  unfolding update_progress
  progress-Aside progress = jobs-Aside w _

  pub completed-Aside : Within Aside-frame (mark_completed {F = F} w task.job_id)
  unfolding mark_completed
  completed-Aside = jobs-Aside w _

  pub running-Aside : Within Aside-frame (mark_running {F = F} w task.job_id)
  unfolding mark_running
  running-Aside = jobs-Aside w _

  pub fail-cases :
      {Cause : Type 0} {Stop : Store F → Type 0} (names : List Text) (ids : List ℕ) (message : Text)
      (s : Store F)
      → (names ≡ [] → Cause)
      → (names ≢ [] → (t : Store F) → s.calls ≤ t.calls → Stop t)
      → Spares ids s (fail_host_evacuation w task names message s).1
        × Course w task Cause
            (Stop (fail_host_evacuation w task names message s).1)
            names
            ids
            s
            (fail_host_evacuation w task names message s).1
  unfolding fail_host_evacuation settle_host update_host_status execute
  fail-cases [] ids message s why stop = elim (Bool-cases (w.db_answers s.calls)) [
    | inl t ↦ rw t (
        let u : Store F =
          tick
            (record s { hosts = set_host_status task.host_id task.original_host_status s.hosts }) in
        let a = note-Aside (message ++ closing w task (ok tt)) u in
        (
          Spares-trans (record { later = omega arith; kept = λ v m away. m; only = λ v m away. m })
              (Aside-Spares ids a),
          restored refl (why refl) a.hosts,
        ))
    | inr f ↦ rw f (
        let a = note-Aside (message ++ closing w task (err Error.sqlx)) (tick s) in
        let b = Aside-frame.chain (Aside-frame.ticks s) a in
        (
          Aside-Spares ids b,
          unrestored refl (why refl) b.hosts (record {
            error = Error.sqlx;
            before = s;
            after = tick s;
            from = omega arith;
            to = a.later;
            fails = rw f refl;
          }),
        ))
  ]
  fail-cases (name ∷ names) ids message s why stop =
      let a = note-Aside (message ++ _) s in
      (Aside-Spares ids a, left (inl (λ q. cc q)) (stop (λ q. cc q) _ a.later) a.hosts)

  pub Keeps-Spares :
      (vm_id : ℕ) (ids : List ℕ) {s t : Store F} → Memᴰ vm_id ids → Keeps vm_id s t → Spares ids s t
  Keeps-Spares vm_id ids m k = record {
    later = k.rows.later;
    kept = λ v at away. k.rows.kept v at (λ q. away (subst (λ (i : ℕ). Memᴰ i ids) (sym q) m));
    only = λ v at away. k.rows.only v at (λ q. away (subst (λ (i : ℕ). Memᴰ i ids) (sym q) m));
  }

  pub Spares-tail :
      (vm_id : ℕ) (ids : List ℕ) {s t : Store F} → Spares ids s t → Spares (vm_id ∷ ids) s t
  Spares-tail vm_id ids p = record {
    later = p.later;
    kept = λ v at away. p.kept v at (λ m. away (Memᴰ.tail m));
    only = λ v at away. p.only v at (λ m. away (Memᴰ.tail m));
  }

  -- The course from a state before.
  pub Course-from :
      {Cause Cause' Stop Stop' : Type 0} (names : List Text) (ids : List ℕ) (s u t : Store F)
      → (Cause → Cause')
      → (Stop → Stop')
      → u.hosts ≡ s.hosts
      → s.calls ≤ u.calls
      → Course w task Cause Stop names ids u t
      → Course w task Cause' Stop' names ids s t
  Course-from names ids s u t k k' e l (finished all q) =
      finished (λ i m. Moved-within w i s u t t l (omega arith) (all i m)) (q ∙ e)
  Course-from names ids s u t k k' e l (left (inl full) y q) = left (inl full) (k' y) (q ∙ e)
  Course-from names ids s u t k k' e l (left (inr (i, m, moved)) y q) =
      left (inr (i, m, Moved-within w i s u t t l (omega arith) moved)) (k' y) (q ∙ e)
  Course-from names ids s u t k k' e l (restored empty why q) =
      restored empty (k why) (q ∙ ap (set_host_status task.host_id task.original_host_status) e)
  Course-from names ids s u t k k' e l (unrestored empty why q lost) =
      unrestored empty (k why) (q ∙ e) (record {
        error = lost.error;
        before = lost.before;
        after = lost.after;
        from = omega (arith, l, lost.from);
        to = lost.to;
        fails = lost.fails;
      })

  -- The loop goes on after a VM that has been moved.
  pub Course-step :
      {Cause Cause' Stop Stop' : Type 0} (names : List Text) (name : Text) (vm_id : ℕ)
      (ids : List ℕ) (s u v t : Store F)
      → Moved w vm_id s u
      → u.hosts ≡ s.hosts
      → Aside u v
      → v.calls ≤ t.calls
      → s.calls ≤ u.calls
      → (Stop → Stop')
      → Course w task Cause Stop (names ++ name ∷ []) ids v t
      → Course w task Cause' Stop' names (vm_id ∷ ids) s t
  Course-step names name vm_id ids s u v t moved e a l l' k' (finished all q) =
      finished
        (λ i m. elim m [
          | Memᴰ.head same ↦
              subst (λ (j : ℕ). Moved w j s t) (sym same)
                (Moved-within w vm_id s s u t (omega arith) (omega (arith, l, a.later)) moved)
          | Memᴰ.tail m ↦
              Moved-within w i s v t t (omega (arith, l', a.later)) (omega arith) (all i m)
        ])
        (q ∙ (a.hosts ∙ e))
  Course-step names name vm_id ids s u v t moved e a l l' k' (left c y q) =
      left
        (inr (
          vm_id,
          Memᴰ.head refl,
          Moved-within w vm_id s s u t (omega arith) (omega (arith, l, a.later)) moved,
        ))
        (k' y) (q ∙ (a.hosts ∙ e))
  Course-step names name vm_id ids s u v t moved e a l l' k' (restored q y x) =
      absurd (not_nil names name q)
  Course-step names name vm_id ids s u v t moved e a l l' k' (unrestored q z x y) =
      absurd (not_nil names name q)
