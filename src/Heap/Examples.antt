-- ===== src/Heap/Examples.antt =====
-- Runs of the model of src/mem/heap.cpp on concrete heaps.
use retux.Prelude.{
  ℕ, ◌+◌, ◌*◌, ◌≡◌, refl, inl, inr, true, false, List, [], ◌∷◌, ◌⊎◌, ◌<◌, arith, Option, none, some,
  update, All,
}
use retux.Pmm.{Pmm}
use retux.Vmm.{Vmm}
use retux.Heap.{
  Heap, heap_start, kmalloc, kfree, allocate_block, allocate_from, take_block, total_size,
  grow_heap, init, map_pages, pages_for,
}
use retux.Heap.View.{Zipper, zipper, View, absorb_next, absorb_prev}
use retux.Heap.Look.{blocks, move_left}
use retux.Heap.Walk.{NoFit}
use retux.Heap.Allocate.{Allocated, allocate_block_lem}
use retux.Heap.Free.{kfree_lem, kfree-free}
use retux.Heap.Separated.{Separated, kfree-Separated}
use retux.Heap.Kmalloc.{Given, kmalloc_lem}
use retux.Heap.Grow.{init_lem}
use retux.Heap.Pages.{Backed, map_pages-Backed}
use retux.Vmm.Examples.{state, level, state-Valid}

-- No memory at all, and the empty heap on it.
abbrev no_frames : Pmm
no_frames = record { bitmap = λ _. 0; total_frames = 0; used_frames = 0 }

abbrev no_tables : Vmm
no_tables = record { tables = λ _. λ _. 0; cr3 = 0; pmm = no_frames }

abbrev empty : Heap
empty = record {
  size = λ _. 0;
  free = λ _. false;
  footer_sizes = λ _. 0;
  footer_free = λ _. false;
  next = λ _. 0;
  free_list = 0;
  heap_end = heap_start;
  vm = no_tables;
}

-- Three blocks, of 64, 40 and 72 bytes; the one in the middle is used.
abbrev three : Heap
three = record {
  size = update (update (update (λ _. 0) heap_start 64) (heap_start + 64) 40) (heap_start + 104) 72;
  free = update (update (λ _. false) heap_start true) (heap_start + 104) true;
  footer_sizes =
      update (update (update (λ _. 0) (heap_start + 48) 64) (heap_start + 88) 40) (heap_start + 160)
        72;
  footer_free = update (update (λ _. false) (heap_start + 48) true) (heap_start + 160) true;
  next = update (λ _. 0) heap_start (heap_start + 104);
  free_list = heap_start;
  heap_end = heap_start + 176;
  vm = no_tables;
}

abbrev middle : Zipper
middle = zipper ((64, true) ∷ []) (heap_start + 64) 40 false ((72, true) ∷ [])

abbrev first : Zipper
first = zipper [] heap_start 64 true ((40, false) ∷ (72, true) ∷ [])

abbrev listed : List ℕ
listed = heap_start ∷ (heap_start + 104) ∷ []

middle-View : View middle.free three middle listed
middle-View = record {
  left = (
    omega arith,
    record { large = omega arith; header = refl; flag = refl; footer = refl; footer_flag = refl },
    refl,
  );
  here = record {
    large = omega arith;
    header = refl;
    flag = refl;
    footer = refl;
    footer_flag = refl;
  };
  right = (
    record { large = omega arith; header = refl; flag = refl; footer = refl; footer_flag = refl },
    refl,
  );
  links = (refl, λ e. omega (arith, e), (refl, λ e. omega (arith, e), refl));
  distinct = ((λ e. omega (arith, e), tt), (tt, tt));
  members = λ x. (
    λ m. (elim m [
      | inl e ↦ inr (inl (inl (e, refl)))
      | inr (inl e) ↦ inr (inr (inl (e, refl)))
      | inr (inr no_way) ↦ absurd no_way
    ]),
    λ m. (elim m [
      | inl (_, no_way) ↦ absurd (ground (arith, no_way))
      | inr (inl (inl (e, _))) ↦ inl e
      | inr (inl (inr no_way)) ↦ absurd no_way
      | inr (inr (inl (e, _))) ↦ inr (inl e)
      | inr (inr (inr no_way)) ↦ absurd no_way
    ]),
  );
}

first-View : View first.free three first listed
first-View =
    move_left three [] (heap_start + 64) 40 64 false true ((72, true) ∷ []) listed middle-View

-- 20 bytes need a block of 48: the first one is taken whole, 16 bytes being too few for a block.
address : Option (ℕ × Heap) → ℕ
address none = 0
address (some (ptr, h)) = ptr

kmalloc_20 : address (kmalloc 4 three 20) ≡ heap_start + 16
unfolding address kmalloc allocate_block allocate_from take_block total_size
kmalloc_20 = refl

-- 40 bytes need 72: the last block.
kmalloc_40 : address (kmalloc 4 three 40) ≡ heap_start + 120
unfolding address kmalloc allocate_block allocate_from take_block total_size
kmalloc_40 = refl

-- 2^64 - 8 bytes wrap to 24, and get a block of 40 bytes.
kmalloc_wraps :
    (total_size 0xfffffffffffffff8 ≡ 40)
    × (address (kmalloc 4 three 0xfffffffffffffff8) ≡ heap_start + 16)
unfolding address kmalloc allocate_block allocate_from take_block total_size
kmalloc_wraps = (refl, refl)

kfree_lem_example :
    (h' : Heap) × (l' : List ℕ) × (kfree 4 three (heap_start + 80) ≡ some h')
    × View true h' (absorb_prev (absorb_next (record middle { free = true }))) l'
kfree_lem_example = kfree_lem 4 three middle listed middle-View refl (omega arith)

kfree-free_run : kfree 4 three (heap_start + 16) ≡ some three
kfree-free_run = kfree-free 4 three first listed first-View refl

kfree-Separated_example :
    (h' : Heap) × (z' : Zipper) × (l' : List ℕ) × (kfree 4 three (heap_start + 80) ≡ some h')
    × View true h' z' l'
    × Separated (blocks z')
kfree-Separated_example =
    kfree-Separated 4 three middle listed middle-View refl ((inr refl, (inl refl, tt)))
      (omega arith)

allocate_block_lem_example :
    NoFit 4 three 0 heap_start (total_size 40) listed ⊎ Allocated 4 three middle listed 40
allocate_block_lem_example =
    allocate_block_lem 4 three middle listed 40 middle-View (omega arith) (omega arith)

kmalloc_lem_run :
    ((kmalloc 4 three 40 ≡ none)
      × All (λ x. three.size x < total_size 40) listed
      × (grow_heap 4 three (pages_for 40) ≡ none))
    ⊎ ((h' : Heap) × (ptr : ℕ) × (kmalloc 4 three 40 ≡ some (ptr, h')) × Given h' ptr 40)
kmalloc_lem_run =
    kmalloc_lem 4 three middle listed 40 middle-View (omega arith) (omega arith) (omega arith)

init_lem_run :
    ((init 1 empty ≡ none) × (map_pages 256 heap_start empty ≡ none))
    ⊎ ((h' : Heap) × (l' : List ℕ) × (init 1 empty ≡ some h')
        × View true h' (zipper [] heap_start 0x100000 true []) l')
init_lem_run = init_lem 1 empty refl refl (omega arith)

-- The empty heap over the tables of Vmm's examples.
abbrev backed : Heap
backed = record empty { vm = state }

map_pages-Backed_example :
    (map_pages 2 (0xffff800000000 * 4096) backed ≡ none)
    ⊎ ((h' : Heap) × (map_pages 2 (0xffff800000000 * 4096) backed ≡ some h')
        × Backed backed h' 0xffff800000000 2)
map_pages-Backed_example = map_pages-Backed 2 backed level 0xffff800000000 state-Valid
