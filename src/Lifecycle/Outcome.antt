-- ===== src/Lifecycle/Outcome.antt =====
-- The outcome of a start: the parts of the task in their order.
use qarax.Base.{
  ℕ, ◌≤◌, ◌≡◌, refl, ap, ◌∙◌, inl, inr, Option, some, none, arith, Error, Result, ok, err, Text,
  codes, ◌++◌,
}
use qarax.Db.{VmStatus}
use qarax.Control.{
  Store, World, M, pure, attempt, ◌>>=◌, ◌>>◌, after, call_node, tick, StartTask, Rpc, Answer, done,
  absent, failure, mark_completed, mark_running,
}
use qarax.Lifecycle.{update_status, set_status}
use qarax.Lifecycle.Frame.{update_status-cases}
use qarax.Lifecycle.Task.{
  ensure_vm_start_allowed, give_up, restore, unless, on_error, create_on_node, sync_firewall,
  start_body,
}
use qarax.Lifecycle.Ending.{
  Still, Reverts, Still-trans, Reverts-after, restore-cases, allowed-cases, mark_failed-cases,
  mark_completed-cases, mark_running-cases,
}
use qarax.Lifecycle.Parts.{
  Blame, not_started, Blame-after, Part, on, off, unless-Part, Still-tick, create-Part,
  firewall-Part,
}

-- How the task goes on from `s` once it has begun and the first check has passed.
pub data Settles {F : Type 0} (w : World) (task : StartTask) (s : Store F)
    : Result (Unit {0}) × Store F → Type 0 where
  -- The VM runs: the node has started it.
  running :
      {r : Result (Unit {0})} {t : Store F} (n : ℕ)
      → w.node n task.host_id (Rpc.start_vm task.vm_id) ≡ done
      → t.vms ≡ set_status task.vm_id VmStatus.running s.vms
      → Settles w task s (r, t)
  failed :
      {r : Result (Unit {0})} {t : Store F}
      → Blame w task s
      → Reverts w task s t
      → Settles w task s (r, t)
  -- The node has started the VM, and the write of its status is lost.
  unrecorded :
      {r : Result (Unit {0})} {t : Store F} {e : Error} (n : ℕ) (a b : Store F)
      → Still s a
      → w.node n task.host_id (Rpc.start_vm task.vm_id) ≡ done
      → update_status w task.vm_id VmStatus.running a ≡ (err e, b)
      → b.calls ≤ t.calls
      → t.vms ≡ s.vms
      → Settles w task s (r, t)

-- How the task ends. `s` is the state in which it begins.
pub data Ends {F : Type 0} (w : World) (task : StartTask) (s : Store F)
    : Result (Unit {0}) × Store F → Type 0 where
  settled : {r : Result (Unit {0}) × Store F} → Settles w task s r → Ends w task s r
  -- The job could not be marked as running.
  unbegun :
      {e : Error} {t : Store F}
      → mark_running w task.job_id s ≡ (err e, t)
      → t.vms ≡ s.vms
      → Ends w task s (err e, t)
  -- The first check refuses, and the status stays as it is.
  refused :
      {r : Result (Unit {0})} {a b t : Store F} (reason : Text)
      → mark_running w task.job_id s ≡ (ok tt, a)
      → ensure_vm_start_allowed w task.vm_id a ≡ (ok (some reason), b)
      → t.vms ≡ s.vms
      → Ends w task s (r, t)

Settles-after :
    {F : Type 0} {w : World} {task : StartTask} {s t : Store F} {r : Result (Unit {0}) × Store F}
    → Still s t
    → Settles w task t r
    → Settles w task s r
Settles-after {task = task} p (running n d v) =
    running n d (v ∙ ap (set_status task.vm_id VmStatus.running) p.same)
Settles-after p (failed b v) = failed (Blame-after p b) (Reverts-after p v)
Settles-after p (unrecorded n a b q d e k v) = unrecorded n a b (Still-trans p q) d e k (v ∙ p.same)

then-Settles :
    {F : Type 0} {w : World} {task : StartTask} {s : Store F} {r : Result (Unit {0}) × Store F}
    (next : Unit {0} → M F (Unit {0}))
    → Part w task s r
    → ((t : Store F) → Settles w task t (next tt t))
    → Settles w task s (after next r)
then-Settles next (on {t = t} q) k = Settles-after q (k t)
then-Settles next (off l b v) k = failed b v

module _ {F : Type 0} (w : World) (task : StartTask) where
  abbrev finish_running : M F (Unit {0})
  finish_running = do
    updated ← attempt (update_status w task.vm_id VmStatus.running)
    completed ← attempt (mark_completed w task.job_id)
    pure tt

  finish-Settles :
      (n : ℕ)
      → w.node n task.host_id (Rpc.start_vm task.vm_id) ≡ done
      → (s : Store F) → Settles w task s (finish_running s)
  finish-Settles n d s =
      let (t, frame, c) = update_status-cases w task.vm_id VmStatus.running s in
      let (r, u, e, q) = mark_completed-cases w task.job_id t in
      elim c [
        | inl written ↦ rw (written.0, e) (running n d (q.same ∙ written.1))
        | inr missed ↦
            rw (missed.1, e)
              (unrecorded n s t (record { same = refl; later = omega arith }) d missed.1 q.later
                (q.same ∙ missed.2))
      ]

  abbrev from_start : M F (Unit {0})
  from_start = do
    started ← call_node w task.host_id (Rpc.start_vm task.vm_id)
    on_error w started (λ m. restore w task (codes "start_vm failed: " ++ m))
    sync_firewall w task
    finish_running

  start-Settles : (s : Store F) → Settles w task s (from_start s)
  unfolding call_node
  start-Settles s = answered (w.node s.calls task.host_id (Rpc.start_vm task.vm_id)) refl
    where
      answered :
          (answer : Answer)
          → w.node s.calls task.host_id (Rpc.start_vm task.vm_id) ≡ answer
          → Settles w task s (
              (on_error w answer (λ m. restore w task (codes "start_vm failed: " ++ m))
                  >> (sync_firewall w task >> finish_running))
                (tick s))
      answered done d =
          Settles-after (Still-tick w task s)
            (then-Settles _ (firewall-Part w task (tick s)) (λ t. finish-Settles s.calls d t))
      answered absent d =
          let (t, e, l, v) =
            restore-cases w task (codes "start_vm failed: " ++ codes "not found") (tick s) in
          rw e (
            failed (not_started s.calls (omega arith) (λ q. cc (q, d)))
              (Reverts-after (Still-tick w task s) v))
      answered (failure message) d =
          let (t, e, l, v) = restore-cases w task (codes "start_vm failed: " ++ message) (tick s) in
          rw e (
            failed (not_started s.calls (omega arith) (λ q. cc (q, d)))
              (Reverts-after (Still-tick w task s) v))

  from_second : M F (Unit {0})
  from_second = do
    second ← ensure_vm_start_allowed w task.vm_id
    unless w second (restore w task)
    from_start

  second-Settles : (s : Store F) → Settles w task s (from_second s)
  unfolding from_second
  second-Settles s =
      let (r, t, e, q) = allowed-cases w task.vm_id s in
      rw e (then-Settles _ (unless-Part w task r s t q e) start-Settles)

  first-Ends :
      (reason : Option Text) (s a b : Store F)
      → mark_running w task.job_id s ≡ (ok tt, a)
      → Still s a
      → Still a b
      → ensure_vm_start_allowed w task.vm_id a ≡ (ok reason, b)
      → Ends w task s (
          (unless w reason (give_up w task) >> (create_on_node w task.creates task >> from_second))
            b)
  first-Ends none s a b began p q e = settled (
      Settles-after (Still-trans p q)
        (then-Settles _ (create-Part w task task.creates b) second-Settles))
  first-Ends (some reason) s a b began p q e =
      let (r, t, m, still) = mark_failed-cases w task.job_id reason b in
      rw m (refused reason began e (still.same ∙ (q.same ∙ p.same)))

  pub start_body-Ends : (s : Store F) → Ends w task s (start_body w task s)
  unfolding start_body from_second
  start_body-Ends s =
      let (a, p, c) = mark_running-cases w task.job_id s in
      elim c [
        | inr missed ↦ rw missed.0 (unbegun missed.0 p.same)
        | inl marked ↦
            let (r, b, e, q) = allowed-cases w task.vm_id a in
            rw (marked, e) (first-Ends r s a b marked p q e)
      ]
