-- ===== src/Heap/Allocate.antt =====
-- `allocate_block` of src/mem/heap.cpp.
use retux.Prelude.{
  ℕ, ◌+◌, ◌-◌, ◌<◌, ◌≤◌, ◌≡◌, refl, ◌≢◌, ◌⊎◌, inl, inr, true, false, List, ◌∷◌, ◌++◌, arith, length,
  sym, ◌∙◌, ap, All, leb, ==_refl, Bool-cases, some,
}
use mathlib.Core.Option.{some_inj}
use retux.Heap.{
  Heap, allocate_block, total_size, take_block, remove_block_from_free_list, add_block_to_free_list,
  min_block,
}
use retux.Heap.FreeList.{Links, without, unlink_lem}
use retux.Heap.View.{Zipper, View}
use retux.Heap.Look.{blocks, look}
use retux.Heap.Walk.{walk, NoFit}
use retux.Heap.Carve.{carve, whole-View, cut-View}

pub carve-fields :
    (total : ℕ) (z : Zipper)
    → total ≤ z.size
    → ((carve total z).addr ≡ z.addr)
      × ((carve total z).free ≡ false)
      × (total ≤ (carve total z).size)
unfolding carve
carve-fields total z fits = elim (Bool-cases (leb min_block (z.size - total))) [
  | inl split ↦ rw split (refl, refl, omega arith)
  | inr small ↦ rw small (refl, refl, fits)
]

-- `take_block`, when taking `c` off the list has left `next` and `list`.
take_block_lem :
    (h : Heap) (prev total : ℕ) (next : ℕ → ℕ) (list : ℕ) (z : Zipper) (l : List ℕ)
    → View true h z l
    → remove_block_from_free_list h z.addr prev ≡ record h { next = next; free_list = list }
    → Links next list (without z.addr l)
    → 40 ≤ total
    → total ≤ z.size
    → (l' : List ℕ) × View false (take_block h z.addr prev total) (carve total z) l'
unfolding take_block carve add_block_to_free_list
take_block_lem h prev total next list z l v removed links big fits =
    let header = v.here.header in
    rw (removed, header)
      (elim (Bool-cases (leb 40 (z.size - total))) [
        | inl split ↦
            let size : z.size ≡ total + (z.size - total) = omega arith in
            let cut =
              cut-View h next list total (z.size - total) z l v links big (ground (arith, split))
                size in
            (
              (z.addr + total) ∷ without z.addr l,
              rw (split, ==_refl (z.addr + total), ==_refl z.addr) cut,
            )
        | inr small ↦ (without z.addr l, rw (small, header) (whole-View h next list z l v links))
      ])

pub total_size_lem :
    (size : ℕ)
    → size < 0xffffffffffffffd9
    → (size + 32 ≤ total_size size) × (40 ≤ total_size size) × (total_size size ≤ size + 40)
unfolding total_size
total_size_lem size fits = ground arith

-- The heap as `allocate_block` leaves it when it has found the block that `w` views.
abbrev pub Allocated : ℕ → Heap → Zipper → List ℕ → ℕ → Type 0
Allocated fuel h z l size =
    (w : Zipper) × (h' : Heap) × (l' : List ℕ) × (before : List ℕ) × (after : List ℕ) × (l
      ≡ before ++ w.addr ∷ after)
    × All (λ x. h.size x < total_size size) before
    × (total_size size ≤ w.size)
    × (w.free ≡ true)
    × (blocks w ≡ blocks z)
    × (w.addr ≢ 0)
    × (allocate_block fuel h size ≡ some (w.addr, h'))
    × View false h' (carve (total_size size) w) l'

-- On a well-formed heap with fuel for the free list, for a size whose block does not wrap,
-- allocate_block returns null with the heap unchanged if every free block is too small, and
-- otherwise takes the first block of the list that is large enough, cuts a free block off its end
-- if at least 40 bytes are left, and leaves a well-formed heap of the same blocks but for that
-- one.
pub allocate_block_lem :
    (fuel : ℕ) (h : Heap) (z : Zipper) (l : List ℕ) (size : ℕ)
    → View z.free h z l
    → length l < fuel
    → size < 0xffffffffffffffd9
    → NoFit fuel h 0 h.free_list (total_size size) l ⊎ Allocated fuel h z l size
unfolding allocate_block
allocate_block_lem fuel h z l size v enough small =
    elim (walk fuel h 0 h.free_list (total_size size) l v.links enough) [
      | inl none_fits ↦ inl none_fits
      | inr (c, prev, before, after, split, all, fits, real, on, run, off) ↦
          let (w, at, free, same, seen) = look h z l c v on in
          let (next, list, off', links) = unlink_lem fuel h c l v.links v.distinct enough in
          let removed : remove_block_from_free_list h c prev
              ≡ record h { next = next; free_list = list } =
            some_inj.0 (sym off ∙ off') in
          let width : total_size size ≤ w.size =
            omega (arith, seen.here.header, ap h.size at, fits) in
          let (l', v') =
            take_block_lem h prev (total_size size) next list w l (rw (sym free) seen)
              (rw at removed) (rw at links) ((total_size_lem size small).1) width in
          inr (
            w,
            take_block h w.addr prev (total_size size),
            l',
            before,
            after,
            rw at split,
            all,
            width,
            free,
            same,
            rw at real,
            rw at run,
            v',
          )
    ]
