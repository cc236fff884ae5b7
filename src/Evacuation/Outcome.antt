-- ===== src/Evacuation/Outcome.antt =====
-- How the task of an evacuation ends.
use mathlib.Core.List.Memᴰ
use qarax.Base.{
  Error, arith, ℕ, ◌≤◌, suc, ◌*◌, ◌/◌, ◌≡◌, refl, inl, inr, List, [], ◌∷◌, ◌++◌, Memᴰ, length,
  Result, ok, err, Text,
}
use qarax.Schedule.{Double}
use qarax.Control.{Store, World, mark_running, update_progress}
use qarax.Failover.{Inventory}
use qarax.Evacuation.{
  EvacuationTask, Fate, evacuated, failed, evacuate_vm, evacuate_each, set_host_status, begun,
  run_evacuation,
}
use qarax.Evacuation.Course.{
  HostLost, Spares, Aside-Spares, Spares-trans, Moved, Course, finished, left, restored, unrestored,
  fail-cases, progress-Aside, completed-Aside, running-Aside, Keeps-Spares, Course-from,
  Spares-tail, Course-step,
}
use qarax.Evacuation.Steps.{Keeps}
use qarax.Evacuation.Single.{Fates, Stays, gone, stays, evacuate_vm-cases}

module _ (d : Double) (inv : Inventory d.F) (w : World) (task : EvacuationTask) where
  open d use {F}

  -- The first VM stays.
  abbrev pub FirstStays : List ℕ → Store F → Type 0
  FirstStays ids s =
      (vm_id : ℕ) × (rest : List ℕ) × (message : Text) × (u : Store F) × (ids ≡ vm_id ∷ rest)
      × (evacuate_vm d inv w task vm_id s ≡ (ok (failed message), u))
      × Stays d inv w task vm_id s

  -- One of the VMs stays.
  pub record OneStays (ids : List ℕ) (s t : Store F) : Type 0 where
    pub vm_id : ℕ
    pub resident : Memᴰ vm_id ids
    pub message : Text
    pub before : Store F
    pub after : Store F
    pub from : s.calls ≤ before.calls
    pub to : after.calls ≤ t.calls
    pub fails : evacuate_vm d inv w task vm_id before ≡ (ok (failed message), after)
    pub reason : Stays d inv w task vm_id before

  OneStays-within :
      {ids ids' : List ℕ} {s u t : Store F}
      → ((i : ℕ) → Memᴰ i ids → Memᴰ i ids')
      → s.calls ≤ u.calls
      → OneStays ids u t
      → OneStays ids' s t
  OneStays-within k l o = record {
    vm_id = o.vm_id;
    resident = k o.vm_id o.resident;
    message = o.message;
    before = o.before;
    after = o.after;
    from = omega (arith, l, o.from);
    to = o.to;
    fails = o.fails;
    reason = o.reason;
  }

  -- No VM has been moved: the job could not be marked as running, or the first VM stays.
  pub data NoneMoved (s : Store F) : Type 0 where
    unbegun : {e : Error} {t : Store F} → mark_running w task.job_id s ≡ (err e, t) → NoneMoved s
    first_stays :
        {t : Store F}
        → mark_running w task.job_id s ≡ (ok tt, t)
        → FirstStays task.resident_vm_ids t
        → NoneMoved s

  -- What becomes of the host.
  pub data Evacuates (s t : Store F) : Type 0 where
    emptied :
        ((vm_id : ℕ) → Memᴰ vm_id task.resident_vm_ids → Moved w vm_id s t)
        → t.hosts ≡ s.hosts
        → Evacuates s t
    abandoned :
        (vm_id : ℕ)
        → Memᴰ vm_id task.resident_vm_ids
        → Moved w vm_id s t
        → OneStays task.resident_vm_ids s t
        → t.hosts ≡ s.hosts
        → Evacuates s t
    restored_status :
        NoneMoved s
        → t.hosts ≡ set_host_status task.host_id task.original_host_status s.hosts
        → Evacuates s t
    unrestored_status : NoneMoved s → t.hosts ≡ s.hosts → HostLost w task s t → Evacuates s t

  abbrev Runs : (total : ℕ) (names : List Text) (ids : List ℕ) (s : Store F) → Type 0
  Runs total names ids s =
      Spares ids s (evacuate_each d inv w task total names ids s).1
      × Course w task (FirstStays ids s)
          (OneStays ids s (evacuate_each d inv w task total names ids s).1) names ids s
          (evacuate_each d inv w task total names ids s).1

  each-cases : (total : ℕ) (names : List Text) (ids : List ℕ) (s : Store F) → Runs total names ids s
  unfolding evacuate_each
  each-cases total names [] s =
      let a = completed-Aside w task s in
      (Aside-Spares [] a, finished (λ i m. absurd (Memᴰ.not-nil m)) a.hosts)
  each-cases total names (vm_id ∷ ids) s =
      let (fate, u, e, k, f) = evacuate_vm-cases d inv w task vm_id s in
      step fate u e k f (each-cases total (names ++ text fate ∷ []) ids _)
    where
      text : Fate → Text
      text (evacuated name) = name
      text (failed message) = message

      step :
          (fate : Fate) (u : Store F)
          → evacuate_vm d inv w task vm_id s ≡ (ok fate, u)
          → Keeps vm_id s u
          → Fates d inv w task vm_id s u fate
          → Runs total
              (names ++ text fate ∷ [])
              ids
              (update_progress w task.job_id (suc (length names) * 100 / total) u).1
          → Runs total names (vm_id ∷ ids) s
      step (failed message) u e k (stays why) again =
          let (p, c) =
            fail-cases w task {Stop = OneStays (vm_id ∷ ids) s} names (vm_id ∷ ids) message u
              (λ none. (vm_id, ids, message, u, refl, e, why))
              (λ some t l. record {
                vm_id = vm_id;
                resident = Memᴰ.head refl;
                message = message;
                before = s;
                after = u;
                from = omega arith;
                to = l;
                fails = e;
                reason = why;
              }) in
          rw e (
            Spares-trans (Keeps-Spares w task vm_id (vm_id ∷ ids) (Memᴰ.head refl) k) p,
            Course-from w task names (vm_id ∷ ids) s u _ (λ c. c) (λ o. o) k.hosts k.rows.later c,
          )
      step (evacuated name) u e k (gone plan same sent) (p, c) =
          let a = progress-Aside w task (suc (length names) * 100 / total) u in
          rw e (
            Spares-trans (Keeps-Spares w task vm_id (vm_id ∷ ids) (Memᴰ.head refl) k)
                (Spares-trans (Aside-Spares (vm_id ∷ ids) a) (Spares-tail w task vm_id ids p)),
            Course-step w task names name vm_id ids s u _ _ (plan, same, sent) k.hosts a p.later
                k.rows.later
                (OneStays-within (λ i m. Memᴰ.tail m) (omega (arith, k.rows.later, a.later))) c,
          )

  -- From the state that the marking of the job has left.
  begun-cases :
      (s : Store F) (marked : Result (Unit {0})) (t : Store F)
      → mark_running w task.job_id s ≡ (marked, t)
      → Spares task.resident_vm_ids t (begun d inv w task marked t).1
        × Course w task
            (NoneMoved s)
            (OneStays task.resident_vm_ids t (begun d inv w task marked t).1)
            []
            task.resident_vm_ids
            t
            (begun d inv w task marked t).1
  unfolding begun
  begun-cases s (err e) t is =
      fail-cases w task {Stop = OneStays task.resident_vm_ids t} [] task.resident_vm_ids _ t
        (λ none. unbegun is) (λ full. absurd (full refl))
  begun-cases s (ok marked) t is =
      let (p, c) = each-cases _ [] task.resident_vm_ids t in
      (
        p,
        Course-from w task [] task.resident_vm_ids t t _ (λ c. first_stays is c) (λ o. o) refl
            (omega arith) c,
      )

  ends :
      {s t : Store F}
      → Course w task (NoneMoved s) (OneStays task.resident_vm_ids s t) [] task.resident_vm_ids s t
      → Evacuates s t
  ends (finished all q) = emptied all q
  ends (left (inl full) y q) = absurd (full refl)
  ends (left (inr (vm_id, m, moved)) y q) = abandoned vm_id m moved y q
  ends (restored empty why q) = restored_status why q
  ends (unrestored empty why q lost) = unrestored_status why q lost

  pub run_evacuation-Evacuates :
      (s : Store F)
      → Spares task.resident_vm_ids s (run_evacuation d inv w task s).1
        × Evacuates s (run_evacuation d inv w task s).1
  unfolding run_evacuation
  run_evacuation-Evacuates s =
      let a = running-Aside w task s in
      let (p, c) =
        begun-cases s (mark_running w task.job_id s).0 (mark_running w task.job_id s).1 refl in
      (
        Spares-trans (Aside-Spares task.resident_vm_ids a) p,
        ends (
            Course-from w task [] task.resident_vm_ids s _ _ (λ c. c)
              (OneStays-within (λ i m. m) a.later) a.hosts a.later c),
      )
