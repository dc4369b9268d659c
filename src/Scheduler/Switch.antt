-- ===== src/Scheduler/Switch.antt =====
-- What a switch keeps: tasks, their state and their memory.
use feline_os.Base.{
  ℕ, ◌≡◌, refl, Option, none, some, List, ◌∷◌, map, Perm, get_elem?, set-perm, map-set,
  get_elem?-map, Bool-cases, inl, inr,
}
use mathlib.Core.List.Perm
use feline_os.Spinlock.{LockOps}
use feline_os.Scheduler.{
  Task, TaskState, TaskAllocation, Scheduler, Platform, switch_to, reschedule, sched,
  find_next_task, release,
}
use feline_os.Scheduler.Pick.{find_next_task-IsNext, IsNext}

-- What belongs to a task whoever runs.
abbrev pub Profile : Type 0
Profile = TaskState × List TaskAllocation

abbrev pub profile : Task → Profile
profile t = (t.state, t.allocations)

module _ {L M : Type 0} where
  -- The running task and those that wait.
  abbrev pub profiles : Scheduler L M → List Profile
  profiles s = map profile (s.current_task ∷ s.all_tasks)

  switch_to-perm :
      (s : Scheduler L M) (i : ℕ) (next : Task)
      → get_elem? s.all_tasks i ≡ some next
      → Perm (profiles (switch_to s i next)) (profiles s)
  unfolding switch_to
  switch_to-perm s i next h =
      rw (map-set profile s.all_tasks i (record s.current_task { registers = s.cpu })) (
        set-perm (map profile s.all_tasks) i (profile next) (profile s.current_task)
          (get_elem?-map profile s.all_tasks i next h))

  reschedule_by :
      (s : Scheduler L M) (r : Option (ℕ × Task))
      → find_next_task s.all_tasks ≡ r
      → IsNext s.all_tasks r
      → Perm (profiles (reschedule s)) (profiles s)
  unfolding reschedule
  reschedule_by s none e h = rw (e, reschedule) (Perm.refl (profiles s))
  reschedule_by s (some (i, next)) e h = rw (e, reschedule) (switch_to-perm s i next h.0)

  pub reschedule-perm : (s : Scheduler L M) → Perm (profiles (reschedule s)) (profiles s)
  reschedule-perm s =
      reschedule_by s (find_next_task s.all_tasks) refl (find_next_task-IsNext s.all_tasks)

  module _ (ops : LockOps L) (p : Platform M) where
    -- `sched` loses no task and makes none up, whether or not it gets the lock: the running task and
    -- those in the list, each with its state and its allocations, are the same before and after, in
    -- some order.
    pub sched-perm : (s : Scheduler L M) → Perm (profiles (sched ops p s)) (profiles s)
    unfolding sched release
    sched-perm s = elim (Bool-cases (ops.try_acquire s.editing_task_list).0) [
      | inl got ↦ rw got (
          reschedule-perm
            (record s { editing_task_list = (ops.try_acquire s.editing_task_list).1 }))
      | inr busy ↦ rw busy (Perm.refl (profiles s))
    ]
