-- ===== src/Heap/Grow.antt =====
-- `grow_heap` of src/mem/heap.cpp.
use retux.Prelude.{
  ℕ, zero, suc, ◌+◌, ◌-◌, ◌*◌, ◌<◌, ◌≤◌, ◌≡◌, refl, ◌⊎◌, ◌↔◌, inl, inr, Bool, true, false, List, [],
  ◌∷◌, arith, length, none, some, Bool-cases, Option-cases, ltb, ◌==◌, ◌%◌, ◌∙◌, subst, sym,
}
use mathlib.Core.Option.{some_inj, none-ne-some}
use retux.Pmm.{alloc_frame}
use retux.Vmm
use retux.Vmm.{Vmm}
use retux.Heap.{
  Heap, heap_start, heap_max, u64_mod, kernel_rw, map_pages, new_block, grow_heap, init,
}
use retux.Heap.Blocks.{Block, SameAt, Left, Left-frame, FreeLeft}
use retux.Heap.FreeList.{Links, Distinct, On}
use retux.Heap.View.{Zipper, zipper, View, absorb_left, absorb_right, absorb_prev}
use retux.Heap.Look.{plug, blocks, move_right}
use retux.Heap.Coalesce.{coalesce_lem}

-- The invariant seen from the end of the heap: the blocks from the last one on, and the free list.
pub record End (h : Heap) (bs : List Block) (l : List ℕ) : Type 0 where
  pub left : Left h h.heap_end bs
  pub links : Links h.next h.free_list l
  pub distinct : Distinct l
  pub members : (x : ℕ) → On x l ↔ FreeLeft h.heap_end bs x

to_end :
    (h : Heap) (rs : List Block) (b s : ℕ) (f : Bool) (ys : List Block) (l : List ℕ)
    → View f h (zipper rs b s f ys) l
    → (bs : List Block) × (plug bs [] ≡ plug rs ((s, f) ∷ ys)) × End h bs l
to_end h rs b s f [] l v =
    let end : b + s ≡ h.heap_end = v.right in
    let back : h.heap_end - s ≡ b = omega arith in
    let large = v.here.large in
    (
      (s, f) ∷ rs,
      refl,
      record {
        left = (omega arith, rw back v.here, rw back v.left);
        links = v.links;
        distinct = v.distinct;
        members = λ x. (
          λ m. (elim ((v.members x).0 m) [
            | inl (e, on) ↦ inl (e ∙ sym back, on)
            | inr (inl m') ↦ inr (rw back m')
            | inr (inr no_way) ↦ absurd no_way
          ]),
          λ m. (v.members x).1 (elim m [
            | inl (e, on) ↦ inl (e ∙ back, on)
            | inr m' ↦ inr (inl (subst (λ a. FreeLeft a rs x) back m'))
          ]),
        );
      },
    )
to_end h rs b s f ((t, g) ∷ ys) l v =
    to_end h ((s, f) ∷ rs) (b + s) t g ys l (move_right h rs b s t f g ys l v)

pub View-End :
    (h : Heap) (z : Zipper) (l : List ℕ)
    → View z.free h z l
    → (bs : List Block) × (plug bs [] ≡ blocks z) × End h bs l
View-End h z l v = to_end h z.left z.addr z.size z.free z.right l v

-- The page tables and the frames are all that the loop over the new pages changes.
map_pages_lem :
    (pages virt : ℕ) (h h' : Heap)
    → map_pages pages virt h ≡ some h'
    → (vm : Vmm) × (h' ≡ record h { vm = vm })
unfolding map_pages
map_pages_lem zero virt h h' run = (h.vm, sym (some_inj.0 run))
map_pages_lem (suc pages) virt h h' run = elim (Option-cases (alloc_frame h.vm.pmm)) [
  | inl no_frame ↦
      let step : map_pages (suc pages) virt h ≡ none = rw no_frame refl in
      absurd (none-ne-some h' (sym step ∙ run))
  | inr (frame, got) ↦ (elim (Bool-cases (frame.0 == 0)) [
    | inl null ↦
        let step : map_pages (suc pages) virt h ≡ none = rw (got, null) refl in
        absurd (none-ne-some h' (sym step ∙ run))
    | inr real ↦
        let s : Vmm = record h.vm { pmm = frame.1 } in
        (elim (Option-cases (Vmm.map s virt frame.0 kernel_rw)) [
          | inl full ↦
              let step : map_pages (suc pages) virt h ≡ none = rw (got, real, full) refl in
              absurd (none-ne-some h' (sym step ∙ run))
          | inr (vm, mapped) ↦
              let step : map_pages (suc pages) virt h
                  ≡ map_pages pages (virt + 4096) (record h { vm = vm }) =
                rw (got, real, mapped) refl in
              map_pages_lem pages (virt + 4096) (record h { vm = vm }) h' (sym step ∙ run)
        ])
  ])
]

-- The block of the new pages, before `coalesce`.
new_block_lem :
    (h : Heap) (bs : List Block) (l : List ℕ) (bytes : ℕ)
    → End h bs l
    → 40 ≤ bytes
    → View false (new_block h h.heap_end bytes) (zipper bs h.heap_end bytes true []) l
unfolding new_block
new_block_lem h bs l bytes end large =
    let h' = new_block h h.heap_end bytes in
    let same : (q : ℕ) → q < h.heap_end → SameAt h h' q = λ q lt. record {
      sizes = ground (arith, lt);
      flags = ground (arith, lt);
      footers = ground (arith, lt, large);
      footer_flags = ground (arith, lt, large);
    } in
    record {
      left = Left-frame h h' h.heap_end bs same end.left;
      here = record {
        large = large;
        header = ground arith;
        flag = ground arith;
        footer = ground arith;
        footer_flag = ground arith;
      };
      right = refl;
      links = end.links;
      distinct = end.distinct;
      members = λ x. (
        λ m. inr (inl ((end.members x).0 m)),
        λ m. (elim m [
          | inl (_, no_way) ↦ absurd (ground (arith, no_way))
          | inr (inl m') ↦ (end.members x).1 m'
          | inr (inr no_way) ↦ absurd no_way
        ]),
      );
    }

pub grow_heap_lem :
    (fuel : ℕ) (h : Heap) (bs : List Block) (l : List ℕ) (pages : ℕ)
    → End h bs l
    → length l < fuel
    → 0 < pages
    → ((grow_heap fuel h pages ≡ none)
        × ((heap_max < (h.heap_end + pages * 4096) % u64_mod)
            ⊎ (map_pages pages h.heap_end h ≡ none)))
      ⊎ ((h' : Heap) × (l' : List ℕ) × (length l' ≤ suc (length l))
          × (grow_heap fuel h pages ≡ some h')
          × View true h' (absorb_prev (zipper bs h.heap_end (pages * 4096) true [])) l')
unfolding grow_heap absorb_right
grow_heap_lem fuel h bs l pages end enough some_page =
    elim (Bool-cases (ltb heap_max ((h.heap_end + pages * 4096) % u64_mod))) [
      | inl over ↦ inl (rw over refl, inl (ground (arith, over)))
      | inr room ↦ (elim (Option-cases (map_pages pages h.heap_end h)) [
        | inl no_frames ↦ inl (rw (room, no_frames) refl, inr no_frames)
        | inr (m, got) ↦
            let (vm, shape) = map_pages_lem pages h.heap_end h m got in
            let end' : End (record h { vm = vm }) bs l = record {
              left =
                  Left-frame h (record h { vm = vm }) h.heap_end bs
                    (λ q _. record {
                      sizes = refl;
                      flags = refl;
                      footers = refl;
                      footer_flags = refl;
                    })
                    end.left;
              links = end.links;
              distinct = end.distinct;
              members = end.members;
            } in
            let v = new_block_lem (record h { vm = vm }) bs l (pages * 4096) end' (omega arith) in
            let (h', l', fewer, run, v') =
              coalesce_lem fuel (new_block (record h { vm = vm }) h.heap_end (pages * 4096)) bs
                h.heap_end (pages * 4096) [] l v enough in
            inr (h', l', fewer, rw (room, got, shape) run, v')
      ])
    ]

-- The heap before `init`.
Empty-End : (h : Heap) → h.heap_end ≡ heap_start → h.free_list ≡ 0 → End h [] []
Empty-End h end empty = record {
  left = end;
  links = empty;
  distinct = tt;
  members = λ x. (λ m. m, λ m. m);
}

pub init_lem :
    (fuel : ℕ) (h : Heap)
    → h.heap_end ≡ heap_start
    → h.free_list ≡ 0
    → 0 < fuel
    → ((init fuel h ≡ none) × (map_pages 256 heap_start h ≡ none))
      ⊎ ((h' : Heap) × (l' : List ℕ) × (init fuel h ≡ some h')
          × View true h' (zipper [] heap_start 0x100000 true []) l')
unfolding init absorb_left
init_lem fuel h end empty some_fuel =
    elim (grow_heap_lem fuel h [] [] 256 (Empty-End h end empty) some_fuel (omega arith)) [
      | inl (stuck, inl over) ↦ absurd (ground (arith, over, end))
      | inl (stuck, inr no_frames) ↦
          inl (stuck, subst (λ e. map_pages 256 e h ≡ none) end no_frames)
      | inr (h', l', _, run, v) ↦
          inr (h', l', run, subst (λ e. View true h' (zipper [] e 0x100000 true []) l') end v)
    ]
