-- ===== src/Sched/Turn.antt =====
-- Whose turn it is: `schedule` of src/task/sched.cpp on a ring of tasks.
use mathlib.Core.List.{
  Nodup-cons, Mem, mem-cons_self, mem-cons_of_mem, mem-append_right, perm_append_comm,
}
use mathlib.Core.List.Perm
use retux.Prelude.{
  ℕ, ◌<◌, ◌≡◌, ◌≢◌, refl, ap, ◌∙◌, if◌then◌else◌, true, false, ◌⊎◌, List, [], ◌∷◌, ◌++◌, some,
  arith, length, Bool-cases, inl, inr,
}
use retux.Sched.{
  Ptr, null, Sched, ready, running, is_ready, is_running, next_of, state_of, reap_zombie, switch_in,
  load_cpu, choose, schedule, timeslice_ticks,
}
use retux.Sched.Ring.{
  Chain-append, append-Chain, Chain-frame, IsRing, first_ready, next_ready_after_lem,
}

abbrev pub NoneReady : Sched → List Ptr → Type 0
NoneReady s [] = Unit {0}
NoneReady s (x ∷ xs) = (is_ready (state_of s x) ≡ false) × NoneReady s xs

pub NoneReady-frame :
    (s s' : Sched) (xs : List Ptr)
    → ((q : Ptr) → Mem q xs → state_of s' q ≡ state_of s q)
    → NoneReady s xs
    → NoneReady s' xs
NoneReady-frame s s' [] same r = tt
NoneReady-frame s s' (x ∷ xs) same r = (
  ap is_ready (same x mem-cons_self) ∙ r.0,
  NoneReady-frame s s' xs (λ q m. same q (mem-cons_of_mem x m)) r.1,
)

-- Either no task of the list is ready, or the first that is parts the list.
pub ready_cases :
    (s : Sched) (xs : List Ptr)
    → NoneReady s xs
      ⊎ ((before after : List Ptr) × (p : Ptr) × (xs ≡ before ++ p ∷ after)
          × NoneReady s before
          × (is_ready (state_of s p) ≡ true))
ready_cases s [] = inl tt
ready_cases s (x ∷ xs) = elim (Bool-cases (is_ready (state_of s x))) [
  | inl yes_ready ↦ inr ([], xs, x, refl, tt, yes_ready)
  | inr not_ready ↦ elim (ready_cases s xs) [
    | inl none_ready ↦ inl (not_ready, none_ready)
    | inr (before, after, p, e, r, yes_ready) ↦
        inr (x ∷ before, after, p, ap (x ∷◌) e, (not_ready, r), yes_ready)
  ]
]

first_ready_lem :
    (s : Sched) (before : List Ptr) (p : Ptr) (after : List Ptr)
    → NoneReady s before
    → is_ready (state_of s p) ≡ true
    → first_ready s (before ++ p ∷ after) ≡ p
unfolding first_ready
first_ready_lem s [] p after r yes_ready = rw yes_ready refl
first_ready_lem s (x ∷ xs) p after r yes_ready =
    rw (r.0, first_ready_lem s xs p after r.1 yes_ready)

first_ready-NoneReady : (s : Sched) (xs : List Ptr) → NoneReady s xs → first_ready s xs ≡ null
unfolding first_ready
first_ready-NoneReady s [] r = refl
first_ready-NoneReady s (x ∷ xs) r = rw (r.0, first_ready-NoneReady s xs r.1)

-- A ring may be read from any of its tasks.
pub rotate :
    (s s' : Sched) (before : List Ptr) (p : Ptr) (after : List Ptr)
    → s'.current ≡ p
    → ((q : Ptr) → next_of s' q ≡ next_of s q)
    → IsRing s (before ++ p ∷ after)
    → IsRing s' (after ++ s.current ∷ before)
rotate s s' before p after here same r =
    let c = Chain-append (next_of s) s.current before p after s.current r.linked in
    let turned = perm_append_comm (s.current ∷ before) (p ∷ after) in
    record {
      linked = rw here (
          append-Chain (next_of s') p after s.current before p
            (Chain-frame (next_of s) (next_of s') p after s.current (λ q m. same q) c.1)
            (Chain-frame (next_of s) (next_of s') s.current before p (λ q m. same q) c.0));
      distinct = rw here (Perm.nodup turned r.distinct);
      proper = λ m. r.proper ((Perm.mem_iff turned).1 (rw (← here) m));
    }

-- What `schedule` leaves when it goes on with another task than the current one.
pub record Switched (s s' : Sched) (p : Ptr) : Type 0 where
  pub is_current : s'.current ≡ p
  pub is_running_now : state_of s' p ≡ running
  pub old_state :
      state_of s' s.current
      ≡ (if is_running (state_of s s.current) then ready else state_of s s.current)
  pub other_states : (q : Ptr) → q ≢ p → q ≢ s.current → state_of s' q ≡ state_of s q
  pub links : (q : Ptr) → next_of s' q ≡ next_of s q
  pub full_slice : s'.ticks_left ≡ timeslice_ticks
  pub no_request : s'.need_resched ≡ false
  pub loaded : s'.cpu ≡ load_cpu s.cpu (s.tasks p)
  pub same_zombie : s'.zombie ≡ s.zombie
  pub same_allocated : s'.allocated ≡ s.allocated

fresh_slice : Sched → Sched
fresh_slice s = record s { ticks_left = timeslice_ticks; need_resched = false }

switch_in-Switched :
    (s : Sched) (p : Ptr) → p ≢ s.current → Switched s (switch_in (fresh_slice s) s.current p) p
unfolding switch_in fresh_slice
switch_in-Switched s p differs = elim (Bool-cases (is_running (state_of s s.current))) [
  | inl r ↦ rw r (record {
    is_current = refl;
    is_running_now = ground arith;
    old_state = ground (arith, differs);
    other_states = λ q a b. ground arith;
    links = λ q. ground arith;
    full_slice = refl;
    no_request = refl;
    loaded = refl;
    same_zombie = refl;
    same_allocated = refl;
  })
  | inr r ↦ rw r (record {
    is_current = refl;
    is_running_now = ground arith;
    old_state = ground (arith, differs);
    other_states = λ q a b. ground arith;
    links = λ q. ground arith;
    full_slice = refl;
    no_request = refl;
    loaded = refl;
    same_zombie = refl;
    same_allocated = refl;
  })
]

-- No zombie is pending, or it is the task whose stack is in use.
abbrev pub NothingToReap : Sched → Type 0
NothingToReap s = (s.zombie ≡ null) ⊎ (s.zombie ≡ s.current)

reap_zombie-nothing : (s : Sched) (fuel : ℕ) → NothingToReap s → reap_zombie fuel s ≡ some s
unfolding reap_zombie
reap_zombie-nothing s fuel (inl e) = rw e refl
reap_zombie-nothing s fuel (inr e) = rw e (ground arith)

-- On a well-formed ring with nothing to reap and with fuel for its tasks, schedule gives the turn
-- to the first ready task behind the current one, with a full slice and its registers loaded,
-- keeps the ring, and makes the old task ready if it was running.
pub schedule-ready :
    (s : Sched) (before : List Ptr) (p : Ptr) (after : List Ptr) (fuel : ℕ)
    → IsRing s (before ++ p ∷ after)
    → NoneReady s before
    → is_ready (state_of s p) ≡ true
    → NothingToReap s
    → length (before ++ p ∷ after) < fuel
    → (s' : Sched) × (schedule fuel s ≡ some s')
      × Switched s s' p
      × IsRing s' (after ++ s.current ∷ before)
unfolding schedule choose fresh_slice
schedule-ready s before p after fuel r none_before yes_ready no_zombie enough =
    let found =
      next_ready_after_lem s (before ++ p ∷ after) fuel r enough
      ∙ ap some (first_ready_lem s before p after none_before yes_ready) in
    let on_ring : Mem p (before ++ p ∷ after) = mem-append_right before mem-cons_self in
    let differs : p ≢ s.current = λ e. (Nodup-cons.0 r.distinct).0 (rw (← e) on_ring) in
    let proper : p ≢ null = λ e. r.proper (rw (← e) (mem-cons_of_mem s.current on_ring)) in
    let w = switch_in-Switched s p differs in
    (
      switch_in (fresh_slice s) s.current p,
      rw (reap_zombie-nothing s fuel no_zombie, found) (ground (arith, differs, proper)),
      w,
      rotate s (switch_in (fresh_slice s) s.current p) before p after w.is_current w.links r,
    )

-- With nothing to reap and no other task ready, a task that runs goes on with a new time slice.
pub schedule-alone :
    (s : Sched) (xs : List Ptr) (fuel : ℕ)
    → IsRing s xs
    → NoneReady s xs
    → state_of s s.current ≡ running
    → NothingToReap s
    → length xs < fuel
    → schedule fuel s ≡ some (record s { ticks_left = timeslice_ticks; need_resched = false })
unfolding schedule choose
schedule-alone s xs fuel r none_ready runs no_zombie enough =
    let found =
      next_ready_after_lem s xs fuel r enough ∙ ap some (first_ready-NoneReady s xs none_ready) in
    rw (reap_zombie-nothing s fuel no_zombie, found) (rw runs (ground arith))
