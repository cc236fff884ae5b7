-- ===== src/Lifecycle/Parts.antt =====
-- The parts of the task that starts a VM: each goes on with the same VMs or puts the status back.
use qarax.Base.{
  ℕ, ◌≤◌, ◌≡◌, ◌≢◌, refl, Bool, true, false, Option, some, none, arith, Error, Result, ok, err,
  Text, codes, ◌++◌,
}
use qarax.Control.{
  Store, World, M, pure, attempt, ◌>>=◌, ◌>>◌, after, call_node, tick, StartTask, Rpc, Answer, done,
  absent, failure, update_progress,
}
use qarax.Lifecycle.Task.{
  ensure_vm_start_allowed, restore, withdraw, unless, on_error, create_on_node, sync_firewall,
}
use qarax.Lifecycle.Ending.{
  Still, Reverts, Still-refl, Still-trans, Reverts-after, restore-cases, withdraw-cases,
  allowed-cases, update_progress-cases,
}

-- Why the task stops once it has begun: a node does not do its part, or a later check refuses.
pub data Blame {F : Type 0} (w : World) (task : StartTask) (s : Store F) : Type 0 where
  not_created :
      (n : ℕ)
      → s.calls ≤ n
      → w.node n task.host_id (Rpc.create_vm task.vm_id) ≢ done
      → Blame w task s
  not_started :
      (n : ℕ)
      → s.calls ≤ n
      → w.node n task.host_id (Rpc.start_vm task.vm_id) ≢ done
      → Blame w task s
  not_synced :
      (n : ℕ)
      → s.calls ≤ n
      → w.node n task.host_id (Rpc.sync_firewall task.vm_id) ≢ done
      → Blame w task s
  forbidden :
      (a b : Store F) (reason : Text)
      → Still s a
      → ensure_vm_start_allowed w task.vm_id a ≡ (ok (some reason), b)
      → Blame w task s

pub Blame-after :
    {F : Type 0} {w : World} {task : StartTask} {s t : Store F}
    → Still s t
    → Blame w task t
    → Blame w task s
Blame-after p (not_created n l x) = not_created n (omega (arith, p.later, l)) x
Blame-after p (not_started n l x) = not_started n (omega (arith, p.later, l)) x
Blame-after p (not_synced n l x) = not_synced n (omega (arith, p.later, l)) x
Blame-after p (forbidden a b reason q e) = forbidden a b reason (Still-trans p q) e

-- A part of the task goes on with the same VMs, or ends it and puts the status back.
pub data Part {F : Type 0} (w : World) (task : StartTask) (s : Store F)
    : Result (Unit {0}) × Store F → Type 0 where
  on : {t : Store F} → Still s t → Part w task s (ok tt, t)
  off :
      {e : Error} {t : Store F}
      → s.calls ≤ t.calls
      → Blame w task s
      → Reverts w task s t
      → Part w task s (err e, t)

pub Part-after :
    {F : Type 0} {w : World} {task : StartTask} {s t : Store F} {r : Result (Unit {0}) × Store F}
    → Still s t
    → Part w task t r
    → Part w task s r
Part-after p (on q) = on (Still-trans p q)
Part-after p (off l b v) = off (omega (arith, p.later, l)) (Blame-after p b) (Reverts-after p v)

pub after-Part :
    {F : Type 0} {w : World} {task : StartTask} {s : Store F} {r : Result (Unit {0}) × Store F}
    (next : Unit {0} → M F (Unit {0}))
    → Part w task s r
    → ((t : Store F) → Part w task t (next tt t))
    → Part w task s (after next r)
after-Part next (on {t = t} q) k = Part-after q (k t)
after-Part next (off l b v) k = off l b v

-- One part after another.
pub then-Part :
    {F : Type 0} {w : World} {task : StartTask} {s : Store F} (m next : M F (Unit {0}))
    → Part w task s (m s)
    → ((t : Store F) → Part w task t (next t))
    → Part w task s ((m >> next) s)
then-Part m next p k = after-Part (λ ignored. next) p k

module _ {F : Type 0} (w : World) (task : StartTask) where
  pub restore-Part :
      (message : Text) (s t : Store F)
      → Still s t
      → Blame w task s
      → Part w task s (restore w task message t)
  restore-Part message s t p b =
      let (u, e, l, v) = restore-cases w task message t in
      rw e (off (omega (arith, p.later, l)) b (Reverts-after p v))

  pub unless-Part :
      (reason : Option Text) (s t : Store F)
      → Still s t
      → ensure_vm_start_allowed w task.vm_id s ≡ (ok reason, t)
      → Part w task s (unless w reason (restore w task) t)
  unless-Part none s t p e = on p
  unless-Part (some message) s t p e =
      restore-Part message s t p (forbidden s t message (Still-refl s) e)

  pub withdraw-Part :
      (reason : Option Text) (s t : Store F)
      → Still s t
      → ensure_vm_start_allowed w task.vm_id s ≡ (ok reason, t)
      → Part w task s (unless w reason (withdraw w task) t)
  withdraw-Part none s t p e = on p
  withdraw-Part (some message) s t p e =
      let (u, ends, l, v) = withdraw-cases w task message t in
      rw ends (
        off (omega (arith, p.later, l)) (forbidden s t message (Still-refl s) e)
          (Reverts-after p v))

  pub on_error-Part :
      (answer : Answer) (text : Text) (s t : Store F)
      → Still s t
      → (answer ≢ done → Blame w task s)
      → Part w task s (on_error w answer (λ m. restore w task (text ++ m)) t)
  on_error-Part done text s t p b = on p
  on_error-Part absent text s t p b = restore-Part (text ++ codes "not found") s t p (b (λ q. cc q))
  on_error-Part (failure message) text s t p b =
      restore-Part (text ++ message) s t p (b (λ q. cc q))

  pub Still-tick : (s : Store F) → Still s (tick s)
  Still-tick s = record { same = refl; later = omega arith }

  pub progress-Part :
      (s : Store F)
      → Part w task s ((attempt (update_progress w task.job_id 50) >>= λ progress. pure tt) s)
  progress-Part s = let (r, t, e, q) = update_progress-cases w task.job_id 50 s in rw e (on q)

  pub create-Part : (creates : Bool) (s : Store F) → Part w task s (create_on_node w creates task s)
  unfolding create_on_node call_node
  create-Part false s = on (record { same = refl; later = omega arith })
  create-Part true s =
      after-Part _
        (on_error-Part (w.node s.calls task.host_id (Rpc.create_vm task.vm_id))
          (codes "create_vm failed: ") s (tick s) (Still-tick s)
          (not_created s.calls (omega arith)))
        (λ t.
          let (r, u, e, q) = allowed-cases w task.vm_id t in
          rw e (after-Part _ (withdraw-Part r t u q e) progress-Part))

  pub firewall-Part : (s : Store F) → Part w task s (sync_firewall w task s)
  unfolding sync_firewall call_node
  firewall-Part s =
      answered (w.node s.calls task.host_id (Rpc.sync_firewall task.vm_id))
        (not_synced s.calls (omega arith))
    where
      twice : Still s (tick (tick s))
      twice = Still-trans (Still-tick s) (Still-tick (tick s))

      answered :
          (answer : Answer)
          → (answer ≢ done → Blame w task s)
          → Part w task s (
              on_error w answer
                (λ m. call_node w task.host_id (Rpc.force_stop_vm task.vm_id) >>= λ stopped.
                  restore w task (codes "sync_vm_firewall failed: " ++ m))
                (tick s))
      answered done b = on (Still-tick s)
      answered absent b = restore-Part _ s (tick (tick s)) twice (b (λ q. cc q))
      answered (failure message) b = restore-Part _ s (tick (tick s)) twice (b (λ q. cc q))
