-- ===== src/Scheduler/Progress.antt =====
-- Every waiting task runs again after a bounded number of turns, with the registers it was left with,
-- and a finished task never does.
use feline_os.Base.{
  ℕ, zero, suc, ◌+◌, ◌-◌, ◌≤◌, ◌<◌, ◌≡◌, ◌≢◌, refl, ap, ◌∙◌, Option, none, some, List, [], ◌∷◌,
  arith, get_elem?, set, subst, get_elem?-set_self, get_elem?-set_ne, u32_mod, wrap32,
}
use native.Mathlib.Decide.{ℕ_discrete}
use feline_os.Spinlock.{LockOps}
use feline_os.Scheduler.{
  Task, Scheduler, Platform, running, runnable, finished, switch_to, reschedule, find_next_task,
  end_cur_task, release,
}
use feline_os.Scheduler.Pick.{find_next_task-IsNext, IsNext}

-- How many more times a task can be picked before a task of count `c` must be.
abbrev pub slack : ℕ → Task → ℕ
slack c t = c + 1 - t.num_times_scheduled

abbrev pub total_slack : ℕ → List Task → ℕ
total_slack c [] = 0
total_slack c (t ∷ ts) = slack c t + total_slack c ts

total_slack-set :
    (c : ℕ) (ts : List Task) (i : ℕ) (a b : Task)
    → get_elem? ts i ≡ some a
    → total_slack c (set ts i b) + slack c a ≡ total_slack c ts + slack c b
total_slack-set c [] i a b h = cc
total_slack-set c (t ∷ ts) zero a b h = let e : t ≡ a = cc in rw e (omega arith)
total_slack-set c (t ∷ ts) (suc i) a b h = omega (arith, total_slack-set c ts i a b h)

slack-le-total_slack :
    (c : ℕ) (ts : List Task) (i : ℕ) (a : Task)
    → get_elem? ts i ≡ some a
    → slack c a ≤ total_slack c ts
slack-le-total_slack c [] i a h = cc
slack-le-total_slack c (t ∷ ts) zero a h = let e : t ≡ a = cc in rw e (omega arith)
slack-le-total_slack c (t ∷ ts) (suc i) a h = omega (arith, slack-le-total_slack c ts i a h)

module _ {L M : Type 0} where
  -- `n` turns of the scheduler.
  pub turns : ℕ → Scheduler L M → Scheduler L M
  turns zero s = s
  turns (suc n) s = turns n (reschedule s)

  abbrev pub waiting : ℕ → Scheduler L M → ℕ
  waiting c s = slack c s.current_task + total_slack c s.all_tasks

  -- A turn that picks a task of a count up to `c` takes one from `waiting c`.
  switch_to-waiting :
      (c : ℕ) (s : Scheduler L M) (i : ℕ) (next : Task)
      → get_elem? s.all_tasks i ≡ some next
      → next.num_times_scheduled ≤ c
      → c + 1 < u32_mod
      → waiting c (switch_to s i next) + 1 ≡ waiting c s
  unfolding switch_to
  switch_to-waiting c s i next h le small =
      omega (
        arith,
        total_slack-set c s.all_tasks i next (record s.current_task { registers = s.cpu }) h,
      )

  reschedule-switch_to :
      (s : Scheduler L M) (i : ℕ) (next : Task)
      → find_next_task s.all_tasks ≡ some (i, next)
      → reschedule s ≡ switch_to s i next
  unfolding reschedule
  reschedule-switch_to s i next e = rw (e, reschedule)

  switch_to-other :
      (s : Scheduler L M) (i k : ℕ) (next : Task)
      → i ≢ k
      → get_elem? (switch_to s i next).all_tasks k ≡ get_elem? s.all_tasks k
  unfolding switch_to
  switch_to-other s i k next h = get_elem?-set_ne s.all_tasks i k _ h

  -- What a scheduler looks like when task `t` has just been given the processor.
  abbrev pub Runs : Task → Scheduler L M → Type 0
  Runs t s =
      (s.current_task ≡ record t { num_times_scheduled = t.num_times_scheduled + 1 })
      × (s.cpu ≡ t.registers)

  switch_to-Runs :
      (s : Scheduler L M) (i : ℕ) (t : Task)
      → t.num_times_scheduled + 1 < u32_mod
      → Runs t (switch_to s i t)
  unfolding switch_to
  switch_to-Runs s i t h =
      let e : wrap32 (t.num_times_scheduled + 1) ≡ t.num_times_scheduled + 1 = omega arith in
      (ap (λ n. record t { num_times_scheduled = n }) e, refl)

  module _ (k : ℕ) (t : Task) (r : t.state ≡ runnable)
      (small : t.num_times_scheduled + 1 < u32_mod) where
    served_step :
        (n : ℕ) (s : Scheduler L M) (p : Option (ℕ × Task))
        → find_next_task s.all_tasks ≡ p
        → IsNext s.all_tasks p
        → get_elem? s.all_tasks k ≡ some t
        → waiting t.num_times_scheduled s ≤ suc n
        → ((u : Scheduler L M)
            → get_elem? u.all_tasks k ≡ some t
            → waiting t.num_times_scheduled u ≤ n
            → (m : ℕ) × (m ≤ n) × Runs t (turns m u))
        → (m : ℕ) × (m ≤ suc n) × Runs t (turns m s)
    unfolding turns
    served_step n s none e next at bound later = absurd (cc (next k t at))
    served_step n s (some (i, u)) e (hit, ru, least) at bound later = elim (ℕ_discrete i k) [
      | yes same ↦
          let eu : u ≡ t = ground (arith, at, hit) in
          (1, omega arith, rw (reschedule-switch_to s i u e, eu) (switch_to-Runs s i t small))
      | no other ↦
          let le = (least k t at r).0 in
          let step = switch_to-waiting t.num_times_scheduled s i u hit le small in
          let turn = reschedule-switch_to s i u e in
          let still = switch_to-other s i k u other in
          let (m, lt, run) =
            later (reschedule s) (rw turn (still ∙ at)) (rw turn (omega (arith, step, bound))) in
          (suc m, omega arith, run)
    ]

    served :
        (n : ℕ) (s : Scheduler L M)
        → get_elem? s.all_tasks k ≡ some t
        → waiting t.num_times_scheduled s ≤ n
        → (m : ℕ) × (m ≤ n) × Runs t (turns m s)
    served zero s at bound =
        absurd (omega (arith, slack-le-total_slack t.num_times_scheduled s.all_tasks k t at))
    served (suc n) s at bound =
        served_step n s (find_next_task s.all_tasks) refl (find_next_task-IsNext s.all_tasks) at
          bound (served n)

  -- A runnable task that waits in the list, with a count whose successor does not wrap, is given the
  -- processor within so many turns as the counts of all tasks leave room for below its own: each task
  -- can be picked at most `c + 1 - num_times_scheduled` times before, for `c` the count of the task.
  -- It then runs with the registers that its slot holds now, and with its count one higher.
  pub turns-Runs :
      (k : ℕ) (t : Task) (s : Scheduler L M)
      → get_elem? s.all_tasks k ≡ some t
      → t.state ≡ runnable
      → t.num_times_scheduled + 1 < u32_mod
      → (m : ℕ) × (m ≤ waiting t.num_times_scheduled s) × Runs t (turns m s)
  turns-Runs k t s at r small =
      served k t r small (waiting t.num_times_scheduled s) s at (omega arith)

  finished_step :
      (s : Scheduler L M) (p : Option (ℕ × Task)) (i : ℕ) (t : Task)
      → find_next_task s.all_tasks ≡ p
      → IsNext s.all_tasks p
      → get_elem? s.all_tasks i ≡ some t
      → t.state ≡ finished
      → get_elem? (reschedule s).all_tasks i ≡ some t
  unfolding reschedule
  finished_step s none i t e next at f = rw (e, reschedule) at
  finished_step s (some (j, u)) i t e (hit, ru, least) at f = elim (ℕ_discrete j i) [
    | yes same ↦ absurd (ground (arith, at, hit, f, ru))
    | no other ↦ rw (e, reschedule) (switch_to-other s j i u other ∙ at)
  ]

  finished-stays :
      (n : ℕ) (s : Scheduler L M) (i : ℕ) (t : Task)
      → get_elem? s.all_tasks i ≡ some t
      → t.state ≡ finished
      → get_elem? (turns n s).all_tasks i ≡ some t
  unfolding turns
  finished-stays zero s i t at f = at
  finished-stays (suc n) s i t at f =
      finished-stays n (reschedule s) i t
        (finished_step s (find_next_task s.all_tasks) i t refl (find_next_task-IsNext s.all_tasks)
          at f)
        f

  -- What the list holds of a task that has ended: finished, its allocations kept, the registers saved.
  abbrev pub ended : Scheduler L M → Task
  ended s = record s.current_task { registers = s.cpu; state = finished }

  -- `end_cur_task`, when it gets the lock and another task can run, at index `i`: it hands the
  -- processor to that task, and the ended task stays at `i`, finished and with all its allocations,
  -- however many turns follow: it never runs again.
  pub end_cur_task-stays :
      (ops : LockOps L) (p : Platform M) (n : ℕ) (s : Scheduler L M) (lock : L) (i : ℕ)
      (next : Task)
      → ops.acquire s.editing_task_list ≡ some lock
      → find_next_task s.all_tasks ≡ some (i, next)
      → (s' : Scheduler L M) × (end_cur_task ops p s ≡ running s')
        × (s'.cpu ≡ next.registers)
        × (get_elem? (turns n s').all_tasks i ≡ some (ended s))
  unfolding end_cur_task
  end_cur_task-stays ops p n s lock i next a e = (s', ground (arith, a, e), refl, stays)
    where
      s' : Scheduler L M
      s' = release ops p (
          switch_to
            (record s {
              editing_task_list = lock;
              current_task = record s.current_task { state = finished };
            })
            i next)

      hit : get_elem? s.all_tasks i ≡ some next
      hit = (subst (IsNext s.all_tasks) e (find_next_task-IsNext s.all_tasks)).0

      stays : get_elem? (turns n s').all_tasks i ≡ some (ended s)
      stays =
          finished-stays n s' i (ended s) (get_elem?-set_self s.all_tasks i next (ended s) hit) refl
