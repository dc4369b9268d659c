-- ===== src/Scheduler.antt =====
-- system/kernel/kernel/scheduler.cpp, system/kernel/kernel/task.cpp and
-- system/kernel/include/kernel/task.h, for i386. The lock is behind `LockOps`. The memory manager,
-- the assembly routines of arch/i386/task/task.S and the clock are the parameter `Platform`.
pub mod Pick
pub mod Switch
pub mod Progress
pub mod Cleanup
use feline_os.Base.{
  ℕ, zero, suc, ◌+◌, ◌/◌, Bool, true, false, Option, none, some, List, [], ◌∷◌, ◌++◌, ltb,
  if◌then◌else◌, get_elem?, set, remove_at, wrap32, length,
}
use feline_os.Spinlock.{LockOps}

pub data TaskState : Type 0 where
  runnable finished : TaskState

pub record GeneralRegisters : Type 0 where
  pub eax : ℕ
  pub ebx : ℕ
  pub ecx : ℕ
  pub edx : ℕ
  pub esi : ℕ
  pub edi : ℕ
  pub ebp : ℕ
  pub esp : ℕ

pub record Registers : Type 0 where
  pub general : GeneralRegisters
  pub eflags : ℕ

pub record TaskAllocation : Type 0 where
  pub addr : ℕ
  pub len : ℕ

pub record Task : Type 0 where
  pub registers : Registers
  pub state : TaskState
  pub num_times_scheduled : ℕ
  pub allocations : List TaskAllocation

-- What the scheduler calls outside its own files. `get_mem` gives none when it does not succeed.
pub record Platform (M : Type 0) : Type 0 where
  pub get_mem : ℕ → M → Option ℕ × M
  pub free_mem : ℕ → ℕ → M → M
  -- `init_frame(esp_top, exit_scheduler_stub, start_executing)`: the new stack pointer.
  pub init_frame : ℕ → ℕ → M → ℕ × M
  pub get_eflags : ℕ
  pub ns_since_boot : ℕ

pub record Scheduler (L M : Type 0) : Type 0 where
  pub editing_task_list : L
  pub current_task : Task
  pub all_tasks : List Task
  -- The registers of the processor.
  pub cpu : Registers
  pub memory : M
  pub second_since_boot : ℕ

-- `spinning`: the call waits for a lock for ever.
pub data Outcome (S : Type 0) : Type 0 where
  running : S → Outcome S
  halted : S → Outcome S
  aborted : Outcome S
  spinning : Outcome S

unfoldable pub is_runnable : TaskState → Bool
is_runnable runnable = true
is_runnable finished = false

-- One round of the loop of `find_next_task`: the best so far, with its index.
unfoldable pub consider : ℕ → Task → Option (ℕ × Task) → Option (ℕ × Task)
consider i p none = if is_runnable p.state then some (i, p) else none
consider i p (some (j, best)) =
    if is_runnable p.state
    then if ltb p.num_times_scheduled best.num_times_scheduled then some (i, p) else some (j, best)
    else some (j, best)

unfoldable pub find_loop : List Task → ℕ → Option (ℕ × Task) → Option (ℕ × Task)
find_loop [] i best = best
find_loop (p ∷ ps) i best = find_loop ps (i + 1) (consider i p best)

-- The iterator that the source returns is the index here, with the task that it points at.
unfoldable pub find_next_task : List Task → Option (ℕ × Task)
find_next_task tasks = find_loop tasks 0 none

pub zero_registers : Registers
zero_registers = record {
  general = record { eax = 0; ebx = 0; ecx = 0; edx = 0; esi = 0; edi = 0; ebp = 0; esp = 0 };
  eflags = 0;
}

module _ {M : Type 0} (p : Platform M) where
  -- `free_mem` for each allocation of a task; the results are ignored.
  pub free_allocations : List TaskAllocation → M → M
  free_allocations [] m = m
  free_allocations (a ∷ as') m = free_allocations as' (p.free_mem a.addr a.len m)

  pub create_new_stack : ℕ → M → Option TaskAllocation × M
  create_new_stack len m =
      let (stack, m') = p.get_mem len m in
      elim stack [ none ↦ (none, m') | some addr ↦ (some (record { addr = addr; len = len }), m') ]

  -- `none`: the stack could not be had, and the kernel aborts.
  pub create_new_task : ℕ → M → Option Task × M
  unfolding create_new_stack zero_registers
  create_new_task start_executing m =
      let (made, m') = create_new_stack 16_384 m in
      elim made [
        | none ↦ (none, m')
        | some stack ↦
            let (ebp, m'') = p.init_frame (wrap32 (stack.addr + stack.len)) start_executing m' in
            let general = zero_registers.general in
            let registers : Registers = record {
              general = record general { ebp = ebp };
              eflags = p.get_eflags;
            } in
            (
              some (record {
                registers = registers;
                state = runnable;
                num_times_scheduled = 0;
                allocations = stack ∷ [];
              }),
              m'',
            )
      ]

  -- The loop of `cleanup_finished_tasks` over the iterator `task`, an index, on fuel.
  pub cleanup_loop : ℕ → ℕ → List Task → M → Option (List Task × M)
  unfolding free_allocations
  cleanup_loop zero task tasks m = none
  cleanup_loop (suc fuel) task tasks m = elim (get_elem? tasks task) [
    | none ↦ some (tasks, m)
    | some t ↦ elim (is_runnable t.state) [
      | false ↦ cleanup_loop fuel task (remove_at tasks task) (free_allocations t.allocations m)
      | true ↦ cleanup_loop fuel (task + 1) tasks m
    ]
  ]

module _ {L M : Type 0} where
  -- `std::swap(current_task, *next_task)`, the count, and `swap_task_registers`: the registers of the
  -- processor go to the slot, which holds the old task now, and the new task's are loaded.
  pub switch_to : Scheduler L M → ℕ → Task → Scheduler L M
  switch_to s i next =
      let old = s.current_task in
      record s {
        current_task = record next { num_times_scheduled = wrap32 (next.num_times_scheduled + 1) };
        all_tasks = set s.all_tasks i (record old { registers = s.cpu });
        cpu = next.registers;
      }

  -- What `sched` does under the lock.
  pub reschedule : Scheduler L M → Scheduler L M
  unfolding switch_to
  reschedule s = elim (find_next_task s.all_tasks) [
    | none ↦ s
    | some (i, next) ↦ switch_to s i next
  ]

module _ {L M : Type 0} (ops : LockOps L) (p : Platform M) where
  -- The lock is released by the task that runs next: behind its own `swap_task_registers`, or in
  -- `exit_scheduler_stub`.
  pub release : Scheduler L M → Scheduler L M
  release s = record s { editing_task_list = ops.release s.editing_task_list }

  pub sched : Scheduler L M → Scheduler L M
  unfolding reschedule release
  sched s =
      let (got, lock) = ops.try_acquire s.editing_task_list in
      let s' = record s { editing_task_list = lock } in if got then release (reschedule s') else s'

  pub add_new_task : ℕ → Scheduler L M → Outcome (Scheduler L M)
  unfolding create_new_task release
  add_new_task start_func s = elim (ops.acquire s.editing_task_list) [
    | none ↦ spinning
    | some lock ↦
        let (made, m) = create_new_task p start_func s.memory in
        elim made [
          | none ↦ aborted
          | some t ↦ running (
              release (record s {
                editing_task_list = lock;
                all_tasks = s.all_tasks ++ t ∷ [];
                memory = m;
              }))
        ]
  ]

  pub init_scheduler : ℕ → Scheduler L M → Outcome (Scheduler L M)
  unfolding create_new_task
  init_scheduler start_func s =
      let (made, m) = create_new_task p start_func s.memory in
      elim made [ none ↦ aborted | some t ↦ running (record s { current_task = t; memory = m }) ]

  pub end_cur_task : Scheduler L M → Outcome (Scheduler L M)
  unfolding switch_to release
  end_cur_task s = elim (ops.acquire s.editing_task_list) [
    | none ↦ spinning
    | some lock ↦
        let s' = record s { editing_task_list = lock } in
        elim (find_next_task s'.all_tasks) [
          | none ↦ halted (release s')
          | some (i, next) ↦
              let current = s'.current_task in
              let ended = record s' { current_task = record current { state = finished } } in
              running (release (switch_to ended i next))
        ]
  ]

  -- The fuel is one round for each task and one for the end (`Cleanup`).
  pub cleanup_finished_tasks : Scheduler L M → Option (Scheduler L M)
  unfolding cleanup_loop release
  cleanup_finished_tasks s =
      let (got, lock) = ops.try_acquire s.editing_task_list in
      let s' = record s { editing_task_list = lock } in
      if got
      then elim (cleanup_loop p (suc (length s.all_tasks)) 0 s.all_tasks s.memory) [
        | none ↦ none
        | some (tasks, m) ↦ some (release (record s' { all_tasks = tasks; memory = m }))
      ]
      else some s'

  -- The part of `scheduler_handle_tick` that adds a task when a new second begins. `print_time` is the
  -- address of the function that the task starts with.
  pub new_second : ℕ → Scheduler L M → Outcome (Scheduler L M)
  unfolding add_new_task
  new_second print_time s =
      if ltb s.second_since_boot (p.ns_since_boot / 1_000_000_000)
      then elim (add_new_task print_time s) [
        | running t ↦ running (record t { second_since_boot = p.ns_since_boot / 1_000_000_000 })
        | halted t ↦ halted t
        | aborted ↦ aborted
        | spinning ↦ spinning
      ]
      else running s

  pub scheduler_handle_tick : ℕ → Scheduler L M → Outcome (Scheduler L M)
  unfolding cleanup_finished_tasks new_second sched
  scheduler_handle_tick print_time s = elim (cleanup_finished_tasks s) [
    | none ↦ spinning
    | some cleaned ↦ elim (new_second print_time cleaned) [
      | running t ↦ running (sched t)
      | halted t ↦ halted t
      | aborted ↦ aborted
      | spinning ↦ spinning
    ]
  ]
