-- ===== src/Lifecycle/Restored.antt =====
-- How the task of a commit ends.
use qarax.Base.{◌<◌, ◌≡◌, Bool-cases, Error, refl, ap, ◌∙◌, inl, inr, arith, Result, ok, err}
use qarax.Control.{Store, World, tick, mark_running, execute}
use qarax.Lifecycle.{set_status, update_status}
use qarax.Lifecycle.Task.{error_text}
use qarax.Lifecycle.Frame.{Lost, update_status-cases}
use qarax.Lifecycle.Ending.{
  Still, Still-trans, mark_running-cases, mark_completed-cases, mark_failed-cases,
}
use qarax.Lifecycle.Commit.{Pools, CommitTask, run_vm_commit, work, conclude}

-- The status that the task knows is put back, unless that very write is lost.
pub data Restores {F : Type 0} (w : World) (task : CommitTask) (s t : Store F) : Type 0 where
  restored : t.vms ≡ set_status task.vm_id task.previous_status s.vms → Restores w task s t
  -- The write comes after the one that marks the job.
  kept :
      {e : Error} (a : Store F)
      → Still s a
      → s.calls < a.calls
      → update_status w task.vm_id task.previous_status a ≡ (err e, t)
      → t.vms ≡ s.vms
      → Lost w s t
      → Restores w task s t

module _ {F : Type 0} (w : World) (db : Pools) (task : CommitTask) where
  conclude-cases :
      (result : Result (Unit {0})) (s : Store F)
      → (r : Result (Unit {0})) × (t : Store F) × (conclude w db task result s ≡ (r, t)) × Still s t
  unfolding conclude
  conclude-cases (ok produced) s = mark_completed-cases w task.job_id s
  conclude-cases (err e) s = mark_failed-cases w task.job_id (error_text e) s

  work-cases :
      (marked : Result (Unit {0})) (s : Store F)
      → (t : Store F) × (work w db task marked s ≡ (ok tt, t)) × Still s t
  unfolding work
  work-cases (err e) s = (s, refl, record { same = refl; later = omega arith })
  work-cases (ok marked) s =
      let (r, t, e, q) = conclude-cases (db.commit_inner s.calls) (tick s) in
      (t, rw e refl, Still-trans {t = tick s} (record { same = refl; later = omega arith }) q)

  marking-later : (s : Store F) → s.calls < (mark_running w task.job_id s).1.calls
  unfolding mark_running execute
  marking-later s = elim (Bool-cases (w.db_answers s.calls)) [
    | inl t ↦ rw t (omega arith)
    | inr f ↦ rw f (omega arith)
  ]

  marking-cases :
      (s : Store F)
      → (r : Result (Unit {0})) × (t : Store F) × (mark_running w task.job_id s ≡ (r, t))
        × Still s t
        × (s.calls < t.calls)
  marking-cases s =
      let (t, q, c) = mark_running-cases w task.job_id s in
      elim c [
        | inl e ↦ (ok tt, t, e, q, (rw e at (marking-later s)))
        | inr e ↦ (err _, t, e.0, q, (rw e.0 at (marking-later s)))
      ]

  pub run_vm_commit-Restores : (s : Store F) → Restores w task s (run_vm_commit w db task s).1
  unfolding run_vm_commit
  run_vm_commit-Restores s =
      let (m, a, e, q, l) = marking-cases s in
      let (b, d, p) = work-cases m a in
      let (t, frame, c) = update_status-cases w task.vm_id task.previous_status b in
      let before = Still-trans q p in
      elim c [
        | inl written ↦
            rw (e, d, written.0)
              (restored (written.1 ∙ ap (set_status task.vm_id task.previous_status) before.same))
        | inr missed ↦
            let (n, x, y, unanswered) = missed.3 in
            rw (e, d, missed.1)
              (kept b before (omega (arith, l, p.later)) missed.1 (missed.2 ∙ before.same)
                (n, omega (arith, x, before.later), y, unanswered))
      ]
