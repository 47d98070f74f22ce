-- ===== src/Sched/Tasks.antt =====
-- Tasks that come and go: `spawn`, `exit_current` and `reap_zombie` of src/task/sched.cpp.
use mathlib.Core.List.{
  Nodup-cons, Mem, mem-cons_self, mem-cons_of_mem, mem-append_left, mem-append_right,
}
use mathlib.Core.List.Perm
use retux.Prelude.{
  ℕ, ◌+◌, ◌<◌, ◌≡◌, ◌≢◌, refl, sym, ◌∙◌, true, false, List, [], ◌∷◌, ◌++◌, some, arith, length,
  ==_iff, inr,
}
use retux.Sched.{
  Ptr, null, Sched, ready, dead, is_ready, next_of, state_of, set_next, set_state, reap_zombie,
  free_task, spawn, create, mark_dead, exit_current,
}
use retux.Sched.Ring.{
  Chain, Chain-frame, IsRing, IsRing-frame, not-mem-cons, cons-not-mem, unlink_from_ring_lem,
  unlinked,
}
use retux.Sched.Turn.{NoneReady, NoneReady-frame, schedule-ready}

Chain-head :
    (nx nx' : Ptr → Ptr) (p p' : Ptr) (xs : List Ptr) (q : Ptr)
    → nx' p' ≡ nx p
    → ((r : Ptr) → Mem r xs → nx' r ≡ nx r)
    → Chain nx p xs q
    → Chain nx' p' xs q
Chain-head nx nx' p p' [] q e same c = e ∙ c
Chain-head nx nx' p p' (x ∷ xs) q e same c = (e ∙ c.0, Chain-frame nx nx' x xs q same c.1)

-- At memory that is not null and not on a well-formed ring, spawn links a ready task with the next
-- id behind the current one and keeps the ring well formed.
pub spawn_lem :
    (s : Sched) (xs : List Ptr) (t top cr3 : ℕ)
    → IsRing s xs
    → t ≢ null
    → ¬ Mem t (s.current ∷ xs)
    → (s' : Sched) × (spawn s t top cr3 ≡ some s')
      × IsRing s' (t ∷ xs)
      × (s'.current ≡ s.current)
      × (state_of s' t ≡ ready)
      × ((s'.tasks t).id ≡ s.next_id)
      × (s'.next_id ≡ s.next_id + 1)
      × ((q : Ptr) → q ≢ t → state_of s' q ≡ state_of s q)
unfolding spawn create
spawn_lem s xs t top cr3 r real fresh =
    let (differs, out) = not-mem-cons fresh in
    let (own, distinct) = Nodup-cons.0 r.distinct in
    let s' : Sched =
      (let made = create s t top cr3 in
        set_next (set_next made t (next_of made s.current)) s.current t) in
    (
      s',
      ground (arith, real),
      record {
        linked = (
          ground arith,
          Chain-head (next_of s) (next_of s') s.current t xs s.current (ground (arith, differs))
              (λ q m.
                let not_t : q ≢ t = λ z. out (rw (← z) m) in
                let not_current : q ≢ s.current = λ z. own (rw (← z) m) in
                ground (arith, not_t, not_current))
              r.linked,
        );
        distinct = Perm.nodup (Perm.swap s.current t xs) (Nodup-cons.1 (fresh, r.distinct));
        proper =
            cons-not-mem (λ e. r.proper (rw e mem-cons_self))
              (cons-not-mem (λ e. real (sym e)) (not-mem-cons r.proper).1);
      },
      refl,
      ground (arith, differs),
      ground (arith, differs),
      refl,
      λ q ne. ground (arith, ne),
    )

-- With fuel for the tasks of a well-formed ring, a zombie on it behind the current task is taken
-- off it and freed, and nothing else is.
pub reap_zombie-frees :
    (s : Sched) (xs ys : List Ptr) (fuel : ℕ)
    → IsRing s (xs ++ s.zombie ∷ ys)
    → length xs < fuel
    → (s' : Sched) × (reap_zombie fuel s ≡ some s')
      × IsRing s' (xs ++ ys)
      × (s'.zombie ≡ null)
      × (s'.allocated s.zombie ≡ false)
      × ((q : Ptr) → q ≢ s.zombie → s'.allocated q ≡ s.allocated q)
      × ((q : Ptr) → state_of s' q ≡ state_of s q)
unfolding reap_zombie free_task
reap_zombie-frees s xs ys fuel r enough =
    let (e, r') = unlink_from_ring_lem s xs ys s.zombie fuel r enough in
    let on_ring : Mem s.zombie (xs ++ s.zombie ∷ ys) = mem-append_right xs mem-cons_self in
    let real : s.zombie ≢ null = λ z. r.proper (rw (← z) (mem-cons_of_mem s.current on_ring)) in
    let differs : s.zombie ≢ s.current = λ z. (Nodup-cons.0 r.distinct).0 (rw (← z) on_ring) in
    let s' : Sched = record (free_task (unlinked s xs s.zombie) s.zombie) { zombie = null } in
    (
      s',
      rw e (ground (arith, real, differs)),
      IsRing-frame (unlinked s xs s.zombie) s' (xs ++ ys) refl (λ q. refl) r',
      refl,
      ground arith,
      λ q ne. ground (arith, ne),
      λ q. ground arith,
    )

mark_dead-orphan :
    (s : Sched)
    → (s.tasks s.current).parent ≡ null
    → mark_dead s ≡ record (set_state s s.current dead) { zombie = s.current }
unfolding mark_dead
mark_dead-orphan s orphan = rw ((==_iff (s.tasks s.current).parent null).1 orphan) refl

-- On a well-formed ring with fuel for its tasks and a ready one behind the current, a parentless
-- task that exits becomes the zombie and stays on the ring, dead, whatever zombie was pending;
-- nothing is freed and the first ready task behind it runs.
pub exit_current_lem :
    (s : Sched) (before : List Ptr) (p : Ptr) (after : List Ptr) (fuel : ℕ)
    → IsRing s (before ++ p ∷ after)
    → NoneReady s before
    → is_ready (state_of s p) ≡ true
    → (s.tasks s.current).parent ≡ null
    → length (before ++ p ∷ after) < fuel
    → (s' : Sched) × (exit_current fuel s ≡ some s')
      × IsRing s' (after ++ s.current ∷ before)
      × (s'.current ≡ p)
      × (s'.zombie ≡ s.current)
      × (state_of s' s.current ≡ dead)
      × (s'.allocated ≡ s.allocated)
unfolding exit_current
exit_current_lem s before p after fuel r none_before p_ready orphan enough =
    let s1 : Sched = record (set_state s s.current dead) { zombie = s.current } in
    let own = (Nodup-cons.0 r.distinct).0 in
    let on_ring : Mem p (before ++ p ∷ after) = mem-append_right before mem-cons_self in
    let differs : p ≢ s.current = λ z. own (rw (← z) on_ring) in
    let (s', e, w, r') =
      schedule-ready s1 before p after fuel
        (IsRing-frame s s1 (before ++ p ∷ after) refl (λ q. ground arith) r)
        (NoneReady-frame s s1 before
          (λ q m.
            let ne : q ≢ s.current = λ z. own (rw (← z) (mem-append_left (p ∷ after) m)) in
            ground (arith, ne))
          none_before)
        (ground (arith, differs, p_ready)) (inr refl) enough in
    (
      s',
      rw (mark_dead-orphan s orphan) e,
      r',
      w.is_current,
      w.same_zombie,
      w.old_state ∙ ground arith,
      w.same_allocated,
    )
