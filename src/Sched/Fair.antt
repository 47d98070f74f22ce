-- ===== src/Sched/Fair.antt =====
-- Calls of `sched::yield` of src/task/sched.cpp one after another.
use mathlib.Core.List.{Nodup-cons, Mem, mem-cons_self, mem-append_right, append_assoc}
use retux.Prelude.{
  ℕ, zero, suc, ◌≤◌, ◌<◌, ◌≡◌, ◌≢◌, refl, ap, ◌∙◌, List, [], ◌∷◌, ◌++◌, inl, inr, Option, some,
  arith, length, length-append,
}
use retux.Sched.{Ptr, null, Sched, ready, is_ready, state_of, yield, ◌>>=◌}
use retux.Sched.Ring.{IsRing}
use retux.Sched.Turn.{ready_cases, schedule-ready}

-- `n` calls of `yield`.
unfoldable pub yields : ℕ → ℕ → Sched → Option Sched
yields fuel zero s = some s
yields fuel (suc n) s = do s' ← yield fuel s; yields fuel n s'

regroup :
    (before after back : List Ptr) (p q : Ptr)
    → (before ++ p ∷ after) ++ q ∷ back ≡ before ++ p ∷ (after ++ q ∷ back)
regroup before after back p q = append_assoc before (p ∷ after) (q ∷ back)

-- On a well-formed ring with no zombie and with fuel for its tasks, a ready task becomes current
-- after at most one yield for each task before it and one for itself.
pub yields-reaches :
    (bound : ℕ) (s : Sched) (front : List Ptr) (q : Ptr) (back : List Ptr) (fuel : ℕ)
    → length front ≤ bound
    → IsRing s (front ++ q ∷ back)
    → state_of s q ≡ ready
    → s.zombie ≡ null
    → length (front ++ q ∷ back) < fuel
    → (n : ℕ) × (n ≤ suc bound) × (s' : Sched) × (yields fuel n s ≡ some s') × (s'.current ≡ q)
unfolding yields yield
yields-reaches zero s (x ∷ front) q back fuel short r q_ready no_zombie enough = elim short [ ]
yields-reaches zero s [] q back fuel short r q_ready no_zombie enough =
    let (s', e, w, _) =
      schedule-ready s [] q back fuel r tt (ap is_ready q_ready) (inl no_zombie) enough in
    (1, omega arith, s', rw e refl, w.is_current)
yields-reaches (suc bound) s front q back fuel short r q_ready no_zombie enough =
    elim (ready_cases s front) [
      | inl none_ready ↦
          let (s', e, w, _) =
            schedule-ready s front q back fuel r none_ready (ap is_ready q_ready) (inl no_zombie)
              enough in
          (1, omega arith, s', rw e refl, w.is_current)
      | inr (before, after, p, e, none_before, p_ready) ↦
          let parts = ap (λ (l : List Ptr). l ++ q ∷ back) e ∙ regroup before after back p q in
          let (s', e', w, r') =
            schedule-ready s before p (after ++ q ∷ back) fuel (rw (← parts) r) none_before p_ready
              (inl no_zombie) (rw (← parts) enough) in
          let turned = append_assoc after (q ∷ back) (s.current ∷ before) in
          let q_behind : Mem q (after ++ q ∷ (back ++ s.current ∷ before)) =
            mem-append_right after mem-cons_self in
          let r'' : IsRing s' (after ++ q ∷ (back ++ s.current ∷ before)) = rw (← turned) r' in
          let not_p : q ≢ p =
            λ z. (Nodup-cons.0 r''.distinct).0 (rw (w.is_current, ← z) q_behind) in
          let not_current : q ≢ s.current =
            λ z. (Nodup-cons.0 r.distinct).0 (rw (← z) (mem-append_right front mem-cons_self)) in
          let (n, le, last, run, there) =
            yields-reaches bound s' after q (back ++ s.current ∷ before) fuel
              (omega (arith, ap length e, length-append before (p ∷ after), short)) r''
              (w.other_states q not_p not_current ∙ q_ready) (w.same_zombie ∙ no_zombie)
              (omega (
                arith,
                length-append after (q ∷ (back ++ s.current ∷ before)),
                length-append back (s.current ∷ before),
                length-append front (q ∷ back),
                ap length e,
                length-append before (p ∷ after),
              )) in
          (suc n, omega arith, last, rw (e', run), there)
    ]
