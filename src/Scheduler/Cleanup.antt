-- ===== src/Scheduler/Cleanup.antt =====
-- What `cleanup_finished_tasks` removes and frees.
use feline_os.Base.{
  ℕ, zero, suc, ◌+◌, ◌<◌, ◌≡◌, refl, some, List, [], ◌∷◌, ◌++◌, arith, get_elem?, length,
  length-append, get_elem?-append, remove_at-append, if◌then◌else◌, Bool-cases, inl, inr,
}
use mathlib.Core.List.{append_assoc}
use feline_os.Spinlock.{LockOps}
use feline_os.Scheduler.{
  Task, Scheduler, Platform, is_runnable, free_allocations, cleanup_loop, cleanup_finished_tasks,
}

-- The tasks that are not finished, in order.
pub live : List Task → List Task
live [] = []
live (t ∷ ts) = if is_runnable t.state then t ∷ live ts else live ts

module _ {M : Type 0} (p : Platform M) where
  -- The memory after the allocations of every finished task are freed, in order.
  pub free_finished : List Task → M → M
  free_finished [] m = m
  free_finished (t ∷ ts) m =
      free_finished ts (if is_runnable t.state then m else free_allocations p t.allocations m)

  cleanup_loop-live :
      (fuel : ℕ) (done rest : List Task) (i : ℕ) (m : M)
      → length rest < fuel
      → i ≡ length done
      → cleanup_loop p fuel i (done ++ rest) m ≡ some (done ++ live rest, free_finished rest m)
  unfolding cleanup_loop live free_finished
  cleanup_loop-live zero done rest i m h e = absurd (omega arith)
  cleanup_loop-live (suc fuel) done [] i m h e = rw (e, get_elem?-append done [], cleanup_loop)
  cleanup_loop-live (suc fuel) done (t ∷ rest) i m h e = elim (Bool-cases (is_runnable t.state)) [
    | inl r ↦
        let step =
          cleanup_loop-live fuel (done ++ t ∷ []) rest (i + 1) m (omega arith)
            (omega (arith, length-append done (t ∷ []))) in
        rw (here, cleanup_loop, r) (simp append_assoc at step)
    | inr f ↦
        let freed = free_allocations p t.allocations m in
        rw (here, cleanup_loop, f, e, remove_at-append done (t ∷ rest))
          (cleanup_loop-live fuel done rest (length done) freed (omega arith) refl)
  ]
    where
      here : get_elem? (done ++ t ∷ rest) i ≡ some t
      here = rw e (get_elem?-append done (t ∷ rest))

  module _ {L : Type 0} (ops : LockOps L) where
    -- `cleanup_finished_tasks` always returns. With the lock, the list keeps the tasks that are not
    -- finished, in order, every allocation of each finished one is handed to `free_mem` once, in
    -- order, and the lock is released; without it nothing but the lock changes.
    pub cleanup_finished_tasks-live :
        (s : Scheduler L M)
        → let (got, lock) = ops.try_acquire s.editing_task_list in
          cleanup_finished_tasks ops p s
          ≡ some (
              if got
              then record s {
                editing_task_list = ops.release lock;
                all_tasks = live s.all_tasks;
                memory = free_finished s.all_tasks s.memory;
              }
              else record s { editing_task_list = lock })
    unfolding cleanup_finished_tasks
    cleanup_finished_tasks-live s = ground (
      arith,
      cleanup_loop-live (suc (length s.all_tasks)) [] s.all_tasks 0 s.memory (omega arith) refl,
    )
