-- ===== src/Sched.antt =====
-- src/task/sched.cpp and task::create of src/task/task.cpp: the tasks, the circular list through
-- `Task::next`, and the scheduler's globals. Pointers are numbers, null is 0, and a freed task keeps
-- its memory, marked as not allocated. A walk of the ring runs on fuel, and `none` says that it was
-- not enough. What happens after `switch_to` belongs to the task that is switched in, so an operation
-- ends there.
pub mod Ring
pub mod Turn
pub mod Fair
pub mod Tasks
pub mod Waits
pub mod Ticks
mod Examples
use retux.Prelude.{
  ℕ, zero, suc, ◌+◌, ◌-◌, ◌*◌, ◌%◌, ◌==◌, ltb, if◌then◌else◌, Bool, true, false, not, ◌&&◌, ◌||◌,
  Option, none, some, List, [], ◌∷◌, update,
}

infixl 5 ◌>>=◌
abbrev pub ◌>>=◌ {ℓ κ} : {A : Type ℓ} {B : Type κ} → Option A → (A → Option B) → Option B
none >>= f = none
some a >>= f = f a

abbrev pub Ptr : Type 0
Ptr = ℕ

abbrev pub null : Ptr
null = 0

pub data State : Type 0 where
  ready running dead : State

abbrev pub is_ready : State → Bool
is_ready ready = true
is_ready running = false
is_ready dead = false

abbrev pub is_running : State → Bool
is_running ready = false
is_running running = true
is_running dead = false

abbrev pub is_dead : State → Bool
is_dead ready = false
is_dead running = false
is_dead dead = true

-- The fields that the scheduler and the process calls use.
pub record Task : Type 0 where
  pub id : ℕ
  pub state : State
  pub next : Ptr
  pub parent : Ptr
  pub exit_code : ℕ
  pub kernel_stack_top : ℕ
  pub fs_base : ℕ
  pub cr3 : ℕ

-- What a switch loads into the processor.
pub record Cpu : Type 0 where
  pub kernel_rsp : ℕ
  pub rsp0 : ℕ
  pub fs_base_msr : ℕ
  pub cr3_loaded : ℕ

pub record Sched : Type 0 where
  pub tasks : Ptr → Task
  pub allocated : Ptr → Bool
  pub destroyed : List ℕ
  pub current : Ptr
  pub idle_task : Ptr
  pub zombie : Ptr
  pub ticks_left : ℕ
  pub need_resched : Bool
  pub next_id : ℕ
  pub cpu : Cpu

abbrev pub timeslice_ticks : ℕ
timeslice_ticks = 20

abbrev pub next_of : Sched → Ptr → Ptr
next_of s p = (s.tasks p).next

abbrev pub state_of : Sched → Ptr → State
state_of s p = (s.tasks p).state

abbrev pub set_next : Sched → Ptr → Ptr → Sched
set_next s p q = record s { tasks = update s.tasks p (record (s.tasks p) { next = q }) }

abbrev pub set_state : Sched → Ptr → State → Sched
set_state s p st = record s { tasks = update s.tasks p (record (s.tasks p) { state = st }) }

-- `while (prev->next != t) prev = prev->next;`
pub find_prev : ℕ → Sched → Ptr → Ptr → Option Ptr
find_prev zero s prev t = none
find_prev (suc fuel) s prev t =
    let rest = find_prev fuel s (next_of s prev) t in
    if next_of s prev == t then some prev else rest

pub unlink_from_ring : ℕ → Sched → Ptr → Option Sched
unlink_from_ring fuel s t = do
  prev ← find_prev fuel s s.current t
  some (set_next s prev (next_of s t))

pub free_task : Sched → Ptr → Sched
free_task s t = record s {
  allocated = update s.allocated t false;
  destroyed = if (s.tasks t).cr3 == 0 then s.destroyed else (s.tasks t).cr3 ∷ s.destroyed;
}

pub reap_zombie : ℕ → Sched → Option Sched
reap_zombie fuel s = if s.zombie == null || s.zombie == s.current then some s else do
  s' ← unlink_from_ring fuel s s.zombie
  some (record (free_task s' s'.zombie) { zombie = null })

-- The loop of `next_ready_after`, at `t`; null when it comes round to `from`.
pub next_ready_from : ℕ → Sched → Ptr → Ptr → Option Ptr
next_ready_from zero s from t = none
next_ready_from (suc fuel) s from t =
    let rest = next_ready_from fuel s from (next_of s t) in
    if t == from then some null else if is_ready (state_of s t) then some t else rest

pub next_ready_after : ℕ → Sched → Ptr → Option Ptr
next_ready_after fuel s from = next_ready_from fuel s from (next_of s from)

-- The registers that are set before `switch_to`.
pub load_cpu : Cpu → Task → Cpu
load_cpu c t = record {
  kernel_rsp = if t.kernel_stack_top == 0 then c.kernel_rsp else t.kernel_stack_top;
  rsp0 = if t.kernel_stack_top == 0 then c.rsp0 else t.kernel_stack_top;
  fs_base_msr = t.fs_base;
  cr3_loaded = if t.cr3 == 0 then c.cr3_loaded else t.cr3;
}

pub switch_in : Sched → Ptr → Ptr → Sched
switch_in s old next =
    let s' = if is_running (state_of s old) then set_state s old ready else s in
    record (set_state s' next running) { current = next; cpu = load_cpu s.cpu (s.tasks next) }

-- Which task `schedule` goes on with, when `found` is what `next_ready_after` returned.
pub choose : Sched → Ptr → Ptr
choose s found =
    if found == null
    then (if is_running (state_of s s.current) then s.current else s.idle_task)
    else found

pub schedule : ℕ → Sched → Option Sched
schedule fuel s = do
  s' ← reap_zombie fuel s
  found ← next_ready_after fuel s' s'.current
  let fresh : Sched = record s' { ticks_left = timeslice_ticks; need_resched = false }
  some (
      if choose s' found == s'.current then fresh else switch_in fresh s'.current (choose s' found))

pub yield : ℕ → Sched → Option Sched
yield = schedule

pub tick : Sched → Sched
tick s =
    if s.current == null
    then s
    else if ltb 0 s.ticks_left
    then record s {
      ticks_left = s.ticks_left - 1;
      need_resched = s.ticks_left - 1 == 0 || s.need_resched;
    }
    else s

pub maybe_reschedule : ℕ → Sched → Option Sched
maybe_reschedule fuel s =
    if s.current == null || not s.need_resched then some s else schedule fuel s

-- The marks that `exit_current` leaves before it switches away.
pub mark_dead : Sched → Sched
mark_dead s =
    let s' = set_state s s.current dead in
    if (s.tasks s.current).parent == null then record s' { zombie = s.current } else s'

pub exit_current : ℕ → Sched → Option Sched
exit_current fuel s = schedule fuel (mark_dead s)

-- `task::create` at the memory `t` that the heap hands out; null when it has none.
pub create : Sched → Ptr → (kernel_stack_top cr3 : ℕ) → Sched
create s t top cr3 = record s {
  tasks = update s.tasks t (record {
    id = s.next_id;
    state = ready;
    next = null;
    parent = null;
    exit_code = 0;
    kernel_stack_top = top;
    fs_base = 0;
    cr3 = cr3;
  });
  allocated = update s.allocated t true;
  next_id = s.next_id + 1;
}

-- `none` is the null result.
pub spawn : Sched → Ptr → (kernel_stack_top cr3 : ℕ) → Option Sched
spawn s t top cr3 =
    if t == null
    then none
    else (let s' = create s t top cr3 in
        let linked = set_next s' t (next_of s' s'.current) in some (set_next linked s.current t))

-- The loop of `find_task`, at `t`; null when it comes round to the current task.
pub find_task_from : ℕ → Sched → ℕ → Ptr → Option Ptr
find_task_from zero s id t = none
find_task_from (suc fuel) s id t =
    let rest = find_task_from fuel s id (next_of s t) in
    if (s.tasks t).id == id then some t else if next_of s t == s.current then some null else rest

pub find_task : ℕ → Sched → ℕ → Option Ptr
find_task fuel s id = find_task_from fuel s id s.current

-- What a call of `wait4` comes to at one poll of the child.
pub data Wait : Type 0 where
  no_child : Wait
  blocked : Wait
  reaped : (pid status : ℕ) → Sched → Wait

-- `yield_blocking` until the child is dead, so a poll that finds it alive yields and polls again.
pub poll_child : ℕ → Sched → Ptr → Option Wait
poll_child fuel s child =
    if is_dead (state_of s child)
    then (do
      s' ← unlink_from_ring fuel s child
      some (reaped (s.tasks child).id ((s.tasks child).exit_code % 256 * 256) (free_task s' child)))
    else some blocked

pub wait4 : ℕ → Sched → ℕ → Option Wait
wait4 fuel s pid = do
  child ← find_task fuel s pid
  if child == null || not ((s.tasks child).parent == s.current)
      then some no_child
      else poll_child fuel s child
