-- ===== src/Sched/Waits.antt =====
-- `find_task` and `wait4` of src/task/sched.cpp on a ring of tasks.
use mathlib.Core.List.{Nodup-cons, Mem, mem-cons_self, mem-cons_of_mem, mem-append_right}
use retux.Prelude.{
  ℕ, zero, suc, ◌%◌, ◌*◌, ◌≤◌, ◌<◌, ◌≡◌, ◌≢◌, refl, ap, ◌∙◌, ◌==◌, if◌then◌else◌, false, ◌⊎◌, List,
  [], ◌∷◌, ◌++◌, some, arith, length, length-append, ==_iff, if-elim, inl, inr,
}
use retux.Sched.{
  Ptr, null, Sched, dead, next_of, state_of, free_task, find_task_from, find_task, no_child, reaped,
  poll_child, wait4,
}
use retux.Sched.Ring.{Chain, IsRing, IsRing-frame, not-mem-cons, unlink_from_ring_lem, unlinked}

-- The first task of a list with an id, or null.
unfoldable pub first_id : Sched → ℕ → List Ptr → Ptr
first_id s id [] = null
first_id s id (x ∷ xs) = if (s.tasks x).id == id then x else first_id s id xs

find_task_from_lem :
    (s : Sched) (id : ℕ) (p : Ptr) (xs : List Ptr) (fuel : ℕ)
    → Chain (next_of s) p xs s.current
    → ¬ Mem s.current xs
    → length xs ≤ fuel
    → find_task_from (suc fuel) s id p ≡ some (first_id s id (p ∷ xs))
unfolding find_task_from first_id
find_task_from_lem s id p [] fuel c out enough = ground (arith, c)
find_task_from_lem s id p (x ∷ xs) zero c out enough = elim enough [ ]
find_task_from_lem s id p (x ∷ xs) (suc fuel) c out enough =
    let (differs, out') = not-mem-cons out in
    ground (arith, c.0, differs, find_task_from_lem s id x xs fuel c.1 out' (omega arith))

-- With fuel for the whole ring, `find_task` finds the first task with the id, the current one first.
pub find_task_lem :
    (s : Sched) (xs : List Ptr) (id fuel : ℕ)
    → IsRing s xs
    → length xs < fuel
    → find_task fuel s id ≡ some (first_id s id (s.current ∷ xs))
unfolding find_task
find_task_lem s xs id zero r enough = elim enough [ ]
find_task_lem s xs id (suc fuel) r enough =
    find_task_from_lem s id s.current xs fuel r.linked (Nodup-cons.0 r.distinct).0 (omega arith)

first_id_cases :
    (s : Sched) (id : ℕ) (xs : List Ptr)
    → (first_id s id xs ≡ null)
      ⊎ (Mem (first_id s id xs) xs × ((s.tasks (first_id s id xs)).id ≡ id))
unfolding first_id
first_id_cases s id [] = inl refl
first_id_cases s id (x ∷ xs) =
    if-elim (λ q. (q ≡ null) ⊎ (Mem q (x ∷ xs) × ((s.tasks q).id ≡ id))) ((s.tasks x).id == id)
      (λ e. inr (mem-cons_self, (==_iff (s.tasks x).id id).0 e))
      (λ _. elim (first_id_cases s id xs) [
        | inl e ↦ inl e
        | inr (m, e) ↦ inr (mem-cons_of_mem x m, e)
      ])

-- The id of a task that no task before it shares.
abbrev pub NoneWithId : Sched → ℕ → List Ptr → Type 0
NoneWithId s id [] = Unit {0}
NoneWithId s id (x ∷ xs) = ((s.tasks x).id ≢ id) × NoneWithId s id xs

first_id_lem :
    (s : Sched) (id : ℕ) (xs : List Ptr) (c : Ptr) (ys : List Ptr)
    → NoneWithId s id xs
    → (s.tasks c).id ≡ id
    → first_id s id (xs ++ c ∷ ys) ≡ c
unfolding first_id
first_id_lem s id [] c ys others e = ground (arith, e)
first_id_lem s id (x ∷ xs) c ys others e =
    ground (arith, others.0, first_id_lem s id xs c ys others.1 e)

-- `find_task` finds the task behind `xs`, and it is not null.
find_child :
    (s : Sched) (xs : List Ptr) (c : Ptr) (ys : List Ptr) (fuel : ℕ)
    → IsRing s (xs ++ c ∷ ys)
    → NoneWithId s (s.tasks c).id (s.current ∷ xs)
    → length (xs ++ c ∷ ys) < fuel
    → (find_task fuel s (s.tasks c).id ≡ some c) × (c ≢ null)
find_child s xs c ys fuel r others enough = (
  find_task_lem s (xs ++ c ∷ ys) (s.tasks c).id fuel r enough
      ∙ ap some (first_id_lem s (s.tasks c).id (s.current ∷ xs) c ys others refl),
  λ z. r.proper (rw (← z) (mem-cons_of_mem s.current (mem-append_right xs mem-cons_self))),
)

-- On a well-formed ring with fuel for its tasks, wait4 reports ECHILD if no task of the ring with
-- the pid is a child of the current one.
pub wait4-no_child :
    (s : Sched) (xs : List Ptr) (pid fuel : ℕ)
    → IsRing s xs
    → ((q : Ptr) → Mem q (s.current ∷ xs) → (s.tasks q).id ≡ pid → (s.tasks q).parent ≢ s.current)
    → length xs < fuel
    → wait4 fuel s pid ≡ some no_child
unfolding wait4
wait4-no_child s xs pid fuel r stranger enough =
    rw (find_task_lem s xs pid fuel r enough) (elim (first_id_cases s pid (s.current ∷ xs)) [
      | inl e ↦ rw e (ground arith)
      | inr (m, e) ↦
          let foreign = stranger (first_id s pid (s.current ∷ xs)) m e in ground (arith, foreign)
    ])

-- On a well-formed ring with fuel for its tasks, wait4 for a dead child whose id no task before it
-- has takes it off the ring, frees it and nothing else, and gives its id and its exit code modulo
-- 256 in bits 8 to 15.
pub wait4-reaped :
    (s : Sched) (xs : List Ptr) (c : Ptr) (ys : List Ptr) (fuel : ℕ)
    → IsRing s (xs ++ c ∷ ys)
    → NoneWithId s (s.tasks c).id (s.current ∷ xs)
    → (s.tasks c).parent ≡ s.current
    → state_of s c ≡ dead
    → length (xs ++ c ∷ ys) < fuel
    → (s' : Sched) × (wait4 fuel s (s.tasks c).id
        ≡ some (reaped (s.tasks c).id ((s.tasks c).exit_code % 256 * 256) s'))
      × IsRing s' (xs ++ ys)
      × (s'.allocated c ≡ false)
      × ((q : Ptr) → q ≢ c → s'.allocated q ≡ s.allocated q)
unfolding wait4 poll_child free_task
wait4-reaped s xs c ys fuel r others child died enough =
    let (found, real) = find_child s xs c ys fuel r others enough in
    let (e, r') =
      unlink_from_ring_lem s xs ys c fuel r (omega (arith, length-append xs (c ∷ ys))) in
    let s' : Sched = free_task (unlinked s xs c) c in
    (
      s',
      rw found (ground (arith, real, child, died, e)),
      IsRing-frame (unlinked s xs c) s' (xs ++ ys) refl (λ q. refl) r',
      ground arith,
      λ q ne. ground (arith, ne),
    )
