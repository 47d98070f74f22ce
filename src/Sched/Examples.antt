-- ===== src/Sched/Examples.antt =====
-- Runs of the scheduler on a ring of three tasks, and its theorems there.
use mathlib.Core.List.{Nodup-cons, Nodup-nil, not-mem-nil}
use retux.Prelude.{
  ℕ, ◌≡◌, ◌≢◌, refl, ◌≤◌, true, false, List, [], ◌∷◌, none, some, arith, leb, ltb, ◌&&◌, inl,
  Option, ◌*◌, if◌then◌else◌, ◌==◌,
}
use retux.Sched.{
  Ptr, null, Task, Sched, State, ready, running, dead, yield, schedule, spawn, exit_current,
  reap_zombie, wait4, no_child, reaped, blocked, tick, state_of, Cpu, next_of, is_ready, Wait,
}
use retux.Sched.Ring.{IsRing, cons-not-mem}
use retux.Sched.Turn.{Switched, schedule-ready}
use retux.Sched.Fair.{yields, yields-reaches}
use retux.Sched.Tasks.{spawn_lem, reap_zombie-frees, exit_current_lem}
use retux.Sched.Waits.{wait4-no_child, wait4-reaped}
use retux.Sched.Ticks.{ticks, ticks_lem}

abbrev new_task : (id : ℕ) → State → (next parent : Ptr) → (exit_code cr3 : ℕ) → Task
new_task id state next parent exit_code cr3 = record {
  id = id;
  state = state;
  next = next;
  parent = parent;
  exit_code = exit_code;
  kernel_stack_top = id * 4096;
  fs_base = 0;
  cr3 = cr3;
}

-- The boot task at 10, the idle task at 20, a task at 30.
abbrev three_tasks : State → ℕ → Ptr → Ptr → Task
three_tasks state exit_code parent q =
    if q == 10
    then new_task 0 running 20 0 0 0
    else if q == 20
    then new_task 1 ready 30 0 0 0
    else new_task 2 state 10 parent exit_code 7

abbrev three : State → (parent zombie : Ptr) → Sched
three state parent zombie = record {
  tasks = three_tasks state 263 parent;
  allocated = λ q. ltb 0 q && leb q 30;
  destroyed = [];
  current = 10;
  idle_task = 20;
  zombie = zombie;
  ticks_left = 3;
  need_resched = false;
  next_id = 3;
  cpu = record { kernel_rsp = 0; rsp0 = 0; fs_base_msr = 0; cr3_loaded = 0 };
}

three-IsRing :
    (state : State) (parent zombie : Ptr) → IsRing (three state parent zombie) (20 ∷ 30 ∷ [])
three-IsRing state parent zombie = record {
  linked = (refl, (refl, refl));
  distinct = Nodup-cons.1 (
    cons-not-mem (omega arith) (cons-not-mem (omega arith) not-mem-nil),
    Nodup-cons.1 (cons-not-mem (omega arith) not-mem-nil, Nodup-cons.1 (not-mem-nil, Nodup-nil)),
  );
  proper =
      cons-not-mem (omega arith)
        (cons-not-mem (omega arith) (cons-not-mem (omega arith) not-mem-nil));
}

-- The id of the task that an operation leaves current.
current_id : Option Sched → List ℕ
current_id none = []
current_id (some s) = (s.tasks s.current).id ∷ []

two_yields : current_id (yields 3 2 (three ready 0 0)) ≡ 2 ∷ []
unfolding current_id yields yield schedule reap_zombie retux.Sched.next_ready_after
    retux.Sched.next_ready_from retux.Sched.choose retux.Sched.switch_in
two_yields = refl

yields-reaches_example :
    (n : ℕ) × (n ≤ 2) × (s' : Sched) × (yields 3 n (three ready 0 0) ≡ some s') × (s'.current ≡ 30)
yields-reaches_example =
    yields-reaches 1 (three ready 0 0) (20 ∷ []) 30 [] 3 (omega arith) (three-IsRing ready 0 0) refl
      refl (omega arith)

schedule-ready_example :
    (s' : Sched) × (schedule 3 (three ready 0 0) ≡ some s')
    × Switched (three ready 0 0) s' 20
    × IsRing s' (30 ∷ 10 ∷ [])
schedule-ready_example =
    schedule-ready (three ready 0 0) [] 20 (30 ∷ []) 3 (three-IsRing ready 0 0) tt refl (inl refl)
      (omega arith)

reap_zombie-frees_run :
    (s' : Sched) × (reap_zombie 3 (three dead 0 30) ≡ some s')
    × IsRing s' (20 ∷ [])
    × (s'.zombie ≡ null)
    × (s'.allocated 30 ≡ false)
    × ((q : Ptr) → q ≢ 30 → s'.allocated q ≡ (ltb 0 q && leb q 30))
    × ((q : Ptr) → state_of s' q ≡ state_of (three dead 0 30) q)
reap_zombie-frees_run =
    reap_zombie-frees (three dead 0 30) (20 ∷ []) [] 3 (three-IsRing dead 0 30) (omega arith)

spawn_lem_example :
    (s' : Sched) × (spawn (three ready 0 0) 40 8192 0 ≡ some s')
    × IsRing s' (40 ∷ 20 ∷ 30 ∷ [])
    × (s'.current ≡ 10)
    × (state_of s' 40 ≡ ready)
    × ((s'.tasks 40).id ≡ 3)
    × (s'.next_id ≡ 4)
    × ((q : Ptr) → q ≢ 40 → state_of s' q ≡ state_of (three ready 0 0) q)
spawn_lem_example =
    spawn_lem (three ready 0 0) (20 ∷ 30 ∷ []) 40 8192 0 (three-IsRing ready 0 0) (omega arith) (
      cons-not-mem (omega arith)
        (cons-not-mem (omega arith) (cons-not-mem (omega arith) not-mem-nil)))

-- The task at 30 is dead and pending, and the boot task exits too.
exit_current_lem_example :
    (s' : Sched) × (exit_current 3 (three dead 0 30) ≡ some s')
    × IsRing s' (30 ∷ 10 ∷ [])
    × (s'.current ≡ 20)
    × (s'.zombie ≡ 10)
    × (state_of s' 10 ≡ dead)
    × (s'.allocated ≡ (three dead 0 30).allocated)
exit_current_lem_example =
    exit_current_lem (three dead 0 30) [] 20 (30 ∷ []) 3 (three-IsRing dead 0 30) tt refl refl
      (omega arith)

wait4-reaped_run :
    (s' : Sched) × (wait4 3 (three dead 10 0) 2 ≡ some (reaped 2 1792 s'))
    × IsRing s' (20 ∷ [])
    × (s'.allocated 30 ≡ false)
    × ((q : Ptr) → q ≢ 30 → s'.allocated q ≡ (ltb 0 q && leb q 30))
wait4-reaped_run =
    wait4-reaped (three dead 10 0) (20 ∷ []) 30 [] 3 (three-IsRing dead 10 0)
      (omega arith, (omega arith, tt)) refl refl (omega arith)

wait4-no_child_run : wait4 3 (three ready 10 0) 9 ≡ some no_child
wait4-no_child_run =
    wait4-no_child (three ready 10 0) (20 ∷ 30 ∷ []) 9 3 (three-IsRing ready 10 0)
      (λ q _. ground arith) (omega arith)

ticks_lem_run :
    ((ticks 3 (three ready 0 0)).ticks_left ≡ 0) × ((ticks 3 (three ready 0 0)).need_resched ≡ true)
ticks_lem_run = ticks_lem 3 (three ready 0 0) (omega arith)
