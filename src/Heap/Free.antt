-- ===== src/Heap/Free.antt =====
-- `kfree` of src/mem/heap.cpp.
use retux.Prelude.{
  ℕ, ◌+◌, ◌-◌, ◌<◌, ◌≡◌, ◌≢◌, refl, sym, ◌==◌, true, false, List, arith, length, some,
}
use retux.Heap.{Heap, set_free, set_footer_free, kfree}
use retux.Heap.Blocks.{SameAt, Left-frame, Right-frame}
use retux.Heap.View.{Zipper, View, absorb_next, absorb_prev}
use retux.Heap.Coalesce.{coalesce_lem}

-- The block in view, once `kfree` has marked it.
marked :
    (h : Heap) (z : Zipper) (l : List ℕ)
    → View z.free h z l
    → z.free ≡ false
    → View false (set_footer_free (set_free h z.addr true) z.addr true) (record z { free = true }) l
marked h z l v used =
    let here = v.here in
    let large = here.large in
    let header = here.header in
    let h' = set_footer_free (set_free h z.addr true) z.addr true in
    let same : (q : ℕ) → q ≢ z.addr → q ≢ z.addr + z.size - 16 → SameAt h h' q = λ q ne ne'.
      record {
        sizes = refl;
        flags = ground (arith, ne);
        footers = refl;
        footer_flags = ground (arith, ne', header);
      } in
    record {
      left =
          Left-frame h h' z.addr z.left (λ q lt. same q (λ e. omega arith) (λ e. omega arith))
            v.left;
      here = record {
        large = large;
        header = header;
        flag = ground arith;
        footer = here.footer;
        footer_flag = ground (arith, header);
      };
      right =
          Right-frame h h' (z.addr + z.size) z.right refl
            (λ q ge. same q (λ e. omega arith) (λ e. omega arith)) v.right;
      links = v.links;
      distinct = v.distinct;
      members = rw (sym used) v.members;
    }

-- On a well-formed heap with fuel for the free list, kfree of a used block leaves a well-formed
-- heap in which the block has taken in the free blocks on both sides, their sizes added, and is
-- the free one at the place of the first of them.
pub kfree_lem :
    (fuel : ℕ) (h : Heap) (z : Zipper) (l : List ℕ)
    → View z.free h z l
    → z.free ≡ false
    → length l < fuel
    → (h' : Heap) × (l' : List ℕ) × (kfree fuel h (z.addr + 16) ≡ some h')
      × View true h' (absorb_prev (absorb_next (record z { free = true }))) l'
unfolding kfree
kfree_lem fuel h z l v used enough =
    let (h', l', _, run, v') =
      coalesce_lem fuel (set_footer_free (set_free h z.addr true) z.addr true) z.left z.addr z.size
        z.right l (marked h z l v used) enough in
    let back : z.addr + 16 - 16 ≡ z.addr = omega arith in
    let real : (z.addr + 16 == 0) ≡ false = ground arith in
    (h', l', rw (real, back, v.here.flag, used) run, v')

-- On a well-formed heap, kfree of a block that is free already changes nothing.
pub kfree-free :
    (fuel : ℕ) (h : Heap) (z : Zipper) (l : List ℕ)
    → View z.free h z l
    → z.free ≡ true
    → kfree fuel h (z.addr + 16) ≡ some h
unfolding kfree
kfree-free fuel h z l v free =
    let back : z.addr + 16 - 16 ≡ z.addr = omega arith in
    let real : (z.addr + 16 == 0) ≡ false = ground arith in rw (real, back, v.here.flag, free) refl
