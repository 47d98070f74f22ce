-- ===== src/Sched/Ring.antt =====
-- The circular list of src/task/sched.cpp as the list of the tasks behind the current one.
use mathlib.Core.List.{
  Nodup, Nodup-cons, Mem, mem-cons, mem-cons_self, mem-cons_of_mem, mem-append_left, perm_middle,
}
use mathlib.Core.List.Perm
use mathlib.Core.Logic.Or
use retux.Prelude.{
  ℕ, zero, suc, ◌≤◌, ◌≡◌, ◌≢◌, ◌∙◌, ◌<◌, if◌then◌else◌, List, [], ◌∷◌, ◌++◌, some, arith, length,
}
use retux.Sched.{
  Ptr, null, Sched, is_ready, next_of, state_of, set_next, find_prev, unlink_from_ring,
  next_ready_from, next_ready_after,
}

-- From `p` the links of `next` run through `xs`, in order, to `q`.
abbrev pub Chain : (Ptr → Ptr) → Ptr → List Ptr → Ptr → Type 0
Chain nx p [] q = nx p ≡ q
Chain nx p (x ∷ xs) q = (nx p ≡ x) × Chain nx x xs q

pub Chain-append :
    (nx : Ptr → Ptr) (p : Ptr) (xs : List Ptr) (y : Ptr) (ys : List Ptr) (q : Ptr)
    → Chain nx p (xs ++ y ∷ ys) q
    → Chain nx p xs y × Chain nx y ys q
Chain-append nx p [] y ys q c = c
Chain-append nx p (x ∷ xs) y ys q c = let (a, b) = Chain-append nx x xs y ys q c.1 in ((c.0, a), b)

pub append-Chain :
    (nx : Ptr → Ptr) (p : Ptr) (xs : List Ptr) (y : Ptr) (ys : List Ptr) (q : Ptr)
    → Chain nx p xs y
    → Chain nx y ys q
    → Chain nx p (xs ++ y ∷ ys) q
append-Chain nx p [] y ys q c d = (c, d)
append-Chain nx p (x ∷ xs) y ys q c d = (c.0, append-Chain nx x xs y ys q c.1 d)

-- Tasks that are not on the chain may change their links.
pub Chain-frame :
    (nx nx' : Ptr → Ptr) (p : Ptr) (xs : List Ptr) (q : Ptr)
    → ((r : Ptr) → Mem r (p ∷ xs) → nx' r ≡ nx r)
    → Chain nx p xs q
    → Chain nx' p xs q
Chain-frame nx nx' p [] q same c = rw (same p mem-cons_self) c
Chain-frame nx nx' p (x ∷ xs) q same c = (
  rw (same p mem-cons_self) c.0,
  Chain-frame nx nx' x xs q (λ r m. same r (mem-cons_of_mem p m)) c.1,
)

-- The links form a ring of the current task and then `xs`, with no task twice and none null.
pub record IsRing (s : Sched) (xs : List Ptr) : Type 0 where
  pub linked : Chain (next_of s) s.current xs s.current
  pub distinct : Nodup (s.current ∷ xs)
  pub proper : ¬ Mem null (s.current ∷ xs)

-- What leaves the current task and the links leaves the ring.
pub IsRing-frame :
    (s s' : Sched) (xs : List Ptr)
    → s'.current ≡ s.current
    → ((q : Ptr) → next_of s' q ≡ next_of s q)
    → IsRing s xs
    → IsRing s' xs
IsRing-frame s s' xs here same r = record {
  linked =
      rw here
        (Chain-frame (next_of s) (next_of s') s.current xs s.current (λ q m. same q) r.linked);
  distinct = rw here r.distinct;
  proper = λ m. r.proper (rw (← here) m);
}

pub not-mem-cons : {x y : Ptr} {ys : List Ptr} → ¬ Mem x (y ∷ ys) → (x ≢ y) × ¬ Mem x ys
not-mem-cons {x} {y} {ys} h = (λ e. h (rw e mem-cons_self), λ m. h (mem-cons_of_mem y m))

pub cons-not-mem : {x y : Ptr} {ys : List Ptr} → x ≢ y → ¬ Mem x ys → ¬ Mem x (y ∷ ys)
cons-not-mem differs out m = Or.elim (λ a b. elim a [ ]) (mem-cons.0 m) differs out

-- The first ready task of a list, or null.
unfoldable pub first_ready : Sched → List Ptr → Ptr
first_ready s [] = null
first_ready s (x ∷ xs) = if is_ready (state_of s x) then x else first_ready s xs

pub next_ready_from_lem :
    (s : Sched) (from : Ptr) (xs : List Ptr) (p : Ptr) (fuel : ℕ)
    → Chain (next_of s) p xs from
    → ¬ Mem from xs
    → length xs ≤ fuel
    → next_ready_from (suc fuel) s from (next_of s p) ≡ some (first_ready s xs)
unfolding next_ready_from first_ready
next_ready_from_lem s from [] p fuel c out enough = ground arith
next_ready_from_lem s from (x ∷ xs) p zero c out enough = elim enough [ ]
next_ready_from_lem s from (x ∷ xs) p (suc fuel) c out enough =
    let (differs, out') = not-mem-cons out in
    ground (arith, c.0, differs, next_ready_from_lem s from xs x fuel c.1 out' (omega arith))

-- With fuel for the whole ring, `next_ready_after` finds the first ready task behind the current one.
pub next_ready_after_lem :
    (s : Sched) (xs : List Ptr) (fuel : ℕ)
    → IsRing s xs
    → length xs < fuel
    → next_ready_after fuel s s.current ≡ some (first_ready s xs)
unfolding next_ready_after
next_ready_after_lem s xs zero r enough = elim enough [ ]
next_ready_after_lem s xs (suc fuel) r enough =
    next_ready_from_lem s s.current xs s.current fuel r.linked (Nodup-cons.0 r.distinct).0
      (omega arith)

unfoldable pub last_of : Ptr → List Ptr → Ptr
last_of p [] = p
last_of p (x ∷ xs) = last_of x xs

last_of-mem : (p : Ptr) (xs : List Ptr) → Mem (last_of p xs) (p ∷ xs)
unfolding last_of
last_of-mem p [] = mem-cons_self
last_of-mem p (x ∷ xs) = mem-cons_of_mem p (last_of-mem x xs)

-- The walk of `unlink_from_ring` stops at the task before `t`.
find_prev_lem :
    (s : Sched) (p : Ptr) (xs : List Ptr) (t : Ptr) (fuel : ℕ)
    → Chain (next_of s) p xs t
    → ¬ Mem t xs
    → length xs ≤ fuel
    → find_prev (suc fuel) s p t ≡ some (last_of p xs)
unfolding find_prev last_of
find_prev_lem s p [] t fuel c out enough = ground arith
find_prev_lem s p (x ∷ xs) t zero c out enough = elim enough [ ]
find_prev_lem s p (x ∷ xs) t (suc fuel) c out enough =
    let (differs, out') = not-mem-cons out in
    ground (arith, c.0, differs, find_prev_lem s x xs t fuel c.1 out' (omega arith))

-- Linking the task before `t` to the one behind it takes `t` out of the chain.
unlink-Chain :
    (nx nx' : Ptr → Ptr) (p : Ptr) (xs : List Ptr) (t : Ptr) (ys : List Ptr) (q : Ptr)
    → Nodup (p ∷ (xs ++ t ∷ ys))
    → nx' (last_of p xs) ≡ nx t
    → ((r : Ptr) → r ≢ last_of p xs → nx' r ≡ nx r)
    → Chain nx p (xs ++ t ∷ ys) q
    → Chain nx' p (xs ++ ys) q
unfolding last_of
unlink-Chain nx nx' p [] t [] q d here rest c = here ∙ c.1
unlink-Chain nx nx' p [] t (y ∷ ys) q d here rest c =
    let out = (not-mem-cons (Nodup-cons.0 d).0).1 in
    (here ∙ c.1.0, Chain-frame nx nx' y ys q (λ r m. rest r (λ e. out (rw (← e) m))) c.1.1)
unlink-Chain nx nx' p (x ∷ xs) t ys q d here rest c =
    let out = (Nodup-cons.0 d).0 in
    (
      rest p (λ e. out (rw e (mem-append_left (t ∷ ys) (last_of-mem x xs)))) ∙ c.0,
      unlink-Chain nx nx' x xs t ys q (Nodup-cons.0 d).1 here rest c.1,
    )

-- What `unlink_from_ring` makes of a ring that holds `t` behind `xs`.
abbrev pub unlinked : Sched → List Ptr → Ptr → Sched
unlinked s xs t = set_next s (last_of s.current xs) (next_of s t)

-- Unlinking a task that is not the current one takes it out of the ring, and out of nothing else.
pub unlink_from_ring_lem :
    (s : Sched) (xs ys : List Ptr) (t : Ptr) (fuel : ℕ)
    → IsRing s (xs ++ t ∷ ys)
    → length xs < fuel
    → (unlink_from_ring fuel s t ≡ some (unlinked s xs t)) × IsRing (unlinked s xs t) (xs ++ ys)
unfolding unlink_from_ring
unlink_from_ring_lem s xs ys t zero r enough = elim enough [ ]
unlink_from_ring_lem s xs ys t (suc fuel) r enough =
    let whole =
      Perm.trans (Perm.cons s.current (perm_middle {a = t} xs ys))
        (Perm.swap t s.current (xs ++ ys)) in
    let swapped = Perm.nodup whole r.distinct in
    let out = (Nodup-cons.0 swapped).0 in
    let c = Chain-append (next_of s) s.current xs t ys s.current r.linked in
    (
      rw (
        find_prev_lem s s.current xs t fuel c.0
            (λ m. out (mem-cons_of_mem s.current (mem-append_left ys m))) (omega arith),
        unlink_from_ring,
      ),
      record {
        linked =
            unlink-Chain (next_of s) (next_of (unlinked s xs t)) s.current xs t ys s.current
              r.distinct (ground arith) (λ p ne. ground arith) r.linked;
        distinct = (Nodup-cons.0 swapped).1;
        proper = λ m. r.proper ((Perm.mem_iff whole).1 (mem-cons_of_mem t m));
      },
    )
