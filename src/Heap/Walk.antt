-- ===== src/Heap/Walk.antt =====
-- The walk of the free list in `allocate_block` of src/mem/heap.cpp.
use retux.Prelude.{
  ℕ, zero, suc, ◌<◌, ◌≤◌, ◌≡◌, refl, ◌≢◌, ◌⊎◌, inl, inr, List, [], ◌∷◌, ◌++◌, arith, length, ap,
  All, leb, Bool-cases, some,
}
use retux.Heap.{Heap, allocate_from, unlink, take_block, remove_block_from_free_list}
use retux.Heap.FreeList.{Links, On}

-- The first block of the list that is large enough, with the one before it.
abbrev pub FirstFit : ℕ → Heap → (prev p total : ℕ) → List ℕ → Type 0
FirstFit fuel h prev p total l =
    (c : ℕ) × (prev' : ℕ) × (before : List ℕ) × (after : List ℕ) × (l ≡ before ++ c ∷ after)
    × All (λ x. h.size x < total) before
    × (total ≤ h.size c)
    × (c ≢ 0)
    × On c l
    × (allocate_from fuel h prev p total ≡ some (c, take_block h c prev' total))
    × (unlink fuel h prev p c ≡ some (remove_block_from_free_list h c prev'))

abbrev pub NoFit : ℕ → Heap → (prev p total : ℕ) → List ℕ → Type 0
NoFit fuel h prev p total l =
    All (λ x. h.size x < total) l × (allocate_from fuel h prev p total ≡ some (0, h))

pub walk :
    (fuel : ℕ) (h : Heap) (prev p total : ℕ) (l : List ℕ)
    → Links h.next p l
    → length l < fuel
    → NoFit fuel h prev p total l ⊎ FirstFit fuel h prev p total l
unfolding allocate_from unlink
walk zero h prev p total l links enough = elim enough [ ]
walk (suc fuel) h prev p total [] links enough = inl (tt, ground (arith, links))
walk (suc fuel) h prev p total (x ∷ xs) (e, real, links) enough =
    elim (Bool-cases (leb total (h.size x))) [
      | inl fits ↦ inr (
        x,
        prev,
        [],
        xs,
        refl,
        tt,
        ground (arith, fits),
        real,
        inl refl,
        ground (arith, e, fits, real),
        ground (arith, e, real),
      )
      | inr small ↦ (elim (walk fuel h x (h.next x) total xs links (omega arith)) [
        | inl (all, run) ↦ inl ((ground (arith, small), all), ground (arith, e, real, small, run))
        | inr (c, prev', before, after, split, all, fits, real_c, on, run, run') ↦
            let other : x ≢ c = λ z. ground (arith, small, fits, ap h.size z) in
            inr (
              c,
              prev',
              x ∷ before,
              after,
              ap (λ l. x ∷ l) split,
              (ground (arith, small), all),
              fits,
              real_c,
              inr on,
              ground (arith, e, real, small, run),
              ground (arith, e, real, other, run'),
            )
      ])
    ]
