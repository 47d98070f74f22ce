-- ===== src/Heap/Kmalloc.antt =====
-- `kmalloc` of src/mem/heap.cpp.
use retux.Prelude.{
  ℕ, suc, ◌+◌, ◌*◌, ◌<◌, ◌≤◌, ◌≡◌, refl, ◌⊎◌, inl, inr, true, false, List, [], ◌∷◌, arith, length,
  none, some, ◌==◌, subst, sym, All, ap,
}
use retux.Heap.{Heap, kmalloc, allocate_block, grow_heap, pages_for, total_size}
use retux.Heap.Blocks.{Block}
use retux.Heap.FreeList.{On}
use retux.Heap.View.{Zipper, zipper, View, absorb_prev, absorb_left, absorb_left-free}
use retux.Heap.Carve.{carve}
use retux.Heap.Allocate.{carve-fields, Allocated, allocate_block_lem, total_size_lem}
use retux.Heap.Grow.{View-End, grow_heap_lem}

absorb_left-size : (bs : List Block) (z : Zipper) → z.size ≤ (absorb_left bs z).size
unfolding absorb_left
absorb_left-size [] z = omega arith
absorb_left-size ((t, true) ∷ bs) z = omega arith
absorb_left-size ((t, false) ∷ bs) z = omega arith

All-On : (P : ℕ → Type 0) (x : ℕ) (l : List ℕ) → All P l → On x l → P x
All-On P x [] a m = absurd m
All-On P x (y ∷ ys) a (inl e) = subst P (sym e) a.0
All-On P x (y ∷ ys) a (inr m) = All-On P x ys a.1 m

pages_for_lem :
    (size : ℕ)
    → size < 0xffffffffffffefe0
    → (0 < pages_for size) × (total_size size ≤ pages_for size * 4096)
unfolding pages_for total_size
pages_for_lem size small = ground arith

-- The block is used, is large enough, and starts where the data's pointer says.
abbrev pub Given : Heap → (ptr size : ℕ) → Type 0
Given h ptr size =
    (z : Zipper) × (l : List ℕ) × (ptr ≡ z.addr + 16)
    × (size + 32 ≤ z.size)
    × (z.free ≡ false)
    × View z.free h z l

-- An allocation on the free list.
Allocated-Given :
    (fuel : ℕ) (h : Heap) (z : Zipper) (l : List ℕ) (size : ℕ)
    → size < 0xffffffffffffefe0
    → Allocated fuel h z l size
    → (h' : Heap) × (b : ℕ) × ((b == 0) ≡ false)
      × (allocate_block fuel h size ≡ some (b, h'))
      × Given h' (b + 16) size
Allocated-Given fuel h z l size small
      (w, h', l', before, after, split, all, fits, free, same, real, run, v) =
    let (addr, used, width) = carve-fields (total_size size) w fits in
    let bound = total_size_lem size (omega arith) in
    (
      h',
      w.addr,
      ground (arith, real),
      run,
      (
        carve (total_size size) w,
        l',
        ap (λ a. a + 16) (sym addr),
        omega (arith, bound.0),
        used,
        subst (λ f. View f h' (carve (total_size size) w) l') (sym used) v,
      ),
    )

-- After the heap has grown there is a block that fits.
grown-Given :
    (fuel : ℕ) (h : Heap) (z : Zipper) (l : List ℕ) (size : ℕ)
    → View z.free h z l
    → z.free ≡ true
    → total_size size ≤ z.size
    → length l < fuel
    → size < 0xffffffffffffefe0
    → (h' : Heap) × (b : ℕ) × ((b == 0) ≡ false)
      × (allocate_block fuel h size ≡ some (b, h'))
      × Given h' (b + 16) size
grown-Given fuel h z l size v free fits enough small =
    elim (allocate_block_lem fuel h z l size v enough (omega arith)) [
      | inl (all, _) ↦
          let listed : On z.addr l = (v.members z.addr).1 (inl (refl, free)) in
          let none_fits = All-On (λ x. h.size x < total_size size) z.addr l all listed in
          absurd (omega (arith, v.here.header, none_fits))
      | inr found ↦ Allocated-Given fuel h z l size small found
    ]

-- On a heap whose blocks tile it and whose free list has the free ones, with fuel for the list and
-- one block more, kmalloc of a size that is not 0 and below 2^64 - 4128 returns the data of a used
-- block with room for it on such a heap again; otherwise it halts, every free block being too
-- small and the heap unable to grow.
pub kmalloc_lem :
    (fuel : ℕ) (h : Heap) (z : Zipper) (l : List ℕ) (size : ℕ)
    → View z.free h z l
    → suc (length l) < fuel
    → 0 < size
    → size < 0xffffffffffffefe0
    → ((kmalloc fuel h size ≡ none)
        × All (λ x. h.size x < total_size size) l
        × (grow_heap fuel h (pages_for size) ≡ none))
      ⊎ ((h' : Heap) × (ptr : ℕ) × (kmalloc fuel h size ≡ some (ptr, h')) × Given h' ptr size)
unfolding kmalloc allocate_block
kmalloc_lem fuel h z l size v enough some_byte small =
    let asked : (size == 0) ≡ false = ground arith in
    elim (allocate_block_lem fuel h z l size v (omega arith) (omega arith)) [
      | inr found ↦
          let (h', b, real, run, given) = Allocated-Given fuel h z l size small found in
          inr (h', b + 16, rw (asked, run, real) refl, given)
      | inl (all, run) ↦
          let (bs, same, end) = View-End h z l v in
          let (some_page, width) = pages_for_lem size small in
          (elim (grow_heap_lem fuel h bs l (pages_for size) end (omega arith) some_page) [
            | inl (full, _) ↦ inl (rw (asked, run, full) refl, all, full)
            | inr (h1, l1, fewer, grown, v1) ↦
                let z0 = zipper bs h.heap_end (pages_for size * 4096) true [] in
                let free : (absorb_prev z0).free ≡ true = absorb_left-free bs z0 in
                let wide = absorb_left-size bs z0 in
                let (h', b, real, run', given) =
                  grown-Given fuel h1 (absorb_prev z0) l1 size
                    (subst (λ f. View f h1 (absorb_prev z0) l1) (sym free) v1) free (omega arith)
                    (omega arith) small in
                inr (h', b + 16, rw (asked, run, grown, run', real) refl, given)
          ])
    ]
