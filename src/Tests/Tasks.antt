-- ===== src/Tests/Tasks.antt =====
-- The theorems on system/kernel/kernel/scheduler.cpp at a list of three tasks.
use feline_os.Base.{
  ℕ, ◌*◌, ◌≤◌, ◌≡◌, refl, Bool, true, false, some, List, [], ◌∷◌, Perm, arith, get_elem?,
}
use feline_os.Spinlock.{LockOps}
use feline_os.Scheduler.{
  Task, TaskState, Registers, Platform, Scheduler, running, runnable, finished, find_next_task,
  find_loop, consider, is_runnable, sched, cleanup_finished_tasks, end_cur_task,
}
use feline_os.Scheduler.Pick.{IsNext, find_next_task-IsNext}
use feline_os.Scheduler.Switch.{profiles, sched-perm}
use feline_os.Scheduler.Cleanup.{live, free_finished, cleanup_finished_tasks-live}
use feline_os.Scheduler.Progress.{turns, waiting, Runs, ended, turns-Runs, end_cur_task-stays}

abbrev registers : ℕ → Registers
registers n = record {
  general = record { eax = n; ebx = 0; ecx = 0; edx = 0; esi = 0; edi = 0; ebp = n; esp = n };
  eflags = 2;
}

abbrev task : ℕ → TaskState → ℕ → Task
task n state count = record {
  registers = registers n;
  state = state;
  num_times_scheduled = count;
  allocations = record { addr = 65_536 * n; len = 16_384 } ∷ [];
}

abbrev three_tasks : List Task
three_tasks = task 1 runnable 5 ∷ task 2 finished 0 ∷ task 3 runnable 4 ∷ []

-- A lock that is always got, and a memory that keeps the addresses that are freed.
abbrev simple_lock : LockOps Bool
simple_lock = record {
  acquire = λ _. some true;
  try_acquire = λ _. (true, true);
  release = λ _. false;
}

abbrev platform : Platform (List ℕ)
platform = record {
  get_mem = λ len m. (some 1_048_576, m);
  free_mem = λ addr len m. addr ∷ m;
  init_frame = λ top start m. (top, m);
  get_eflags = 2;
  ns_since_boot = 0;
}

abbrev state : Scheduler Bool (List ℕ)
state = record {
  editing_task_list = false;
  current_task = task 9 runnable 7;
  all_tasks = three_tasks;
  cpu = registers 99;
  memory = [];
  second_since_boot = 0;
}

find_next_task-IsNext_example : IsNext three_tasks (find_next_task three_tasks)
find_next_task-IsNext_example = find_next_task-IsNext three_tasks

sched-perm_example : Perm (profiles (sched simple_lock platform state)) (profiles state)
sched-perm_example = sched-perm simple_lock platform state

cleanup_finished_tasks-live_example :
    cleanup_finished_tasks simple_lock platform state
    ≡ some (record state {
      editing_task_list = false;
      all_tasks = live three_tasks;
      memory = free_finished platform three_tasks [];
    })
cleanup_finished_tasks-live_example = cleanup_finished_tasks-live platform simple_lock state

turns-Runs_example : (m : ℕ) × (m ≤ waiting 5 state) × Runs (task 1 runnable 5) (turns m state)
turns-Runs_example = turns-Runs 0 (task 1 runnable 5) state refl refl (omega arith)

next_is_third : find_next_task three_tasks ≡ some (2, task 3 runnable 4)
unfolding find_next_task find_loop consider is_runnable
next_is_third = refl

end_cur_task-stays_example :
    (s' : Scheduler Bool (List ℕ)) × (end_cur_task simple_lock platform state ≡ running s')
    × (s'.cpu ≡ registers 3)
    × (get_elem? (turns 10 s').all_tasks 2 ≡ some (ended state))
end_cur_task-stays_example =
    end_cur_task-stays simple_lock platform 10 state true 2 (task 3 runnable 4) refl next_is_third
