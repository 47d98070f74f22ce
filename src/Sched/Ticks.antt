-- ===== src/Sched/Ticks.antt =====
-- Preemption in src/task/sched.cpp: the timer interrupt counts the time slice down.
use retux.Prelude.{ℕ, zero, suc, ◌≡◌, ◌≢◌, ◌∙◌, arith, ◌-◌, ◌||◌, ◌&&◌, leb, ltb}
use retux.Sched.{Sched, null, tick}

-- `n` timer interrupts.
unfoldable pub ticks : ℕ → Sched → Sched
ticks zero s = s
ticks (suc n) s = ticks n (tick s)

-- Once there is a current task, n timer ticks take n from the slice, down to 0, and ask for a new
-- task exactly when one was asked for before or the slice ended among them.
pub ticks_lem :
    (n : ℕ) (s : Sched)
    → s.current ≢ null
    → ((ticks n s).ticks_left ≡ s.ticks_left - n)
      × ((ticks n s).need_resched ≡ s.need_resched || (ltb 0 s.ticks_left && leb s.ticks_left n))
unfolding ticks tick
ticks_lem zero s started = (omega arith, ground arith)
ticks_lem (suc n) s started =
    let (a, b) = ticks_lem n (tick s) (ground (arith, started)) in
    (a ∙ ground (arith, started), b ∙ ground (arith, started))
