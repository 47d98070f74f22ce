-- ===== src/Heap/View.antt =====
-- The heap of src/mem/heap.cpp seen from one of its blocks, and what the merges of `coalesce` are to
-- do to that view.
use retux.Prelude.{
  ℕ, ◌+◌, ◌-◌, ◌≡◌, refl, ◌≢◌, ◌⊎◌, ◌↔◌, inl, inr, Bool, true, false, List, [], ◌∷◌, arith,
}
use retux.Heap.{Heap}
use retux.Heap.Blocks.{Block, BlockAt, Left, Right, FreeLeft, FreeRight, FreeLeft-lt, FreeRight-ge}
use retux.Heap.FreeList.{Links, Distinct, On}

-- A block, and the others on both sides, the nearest first.
pub record Zipper : Type 0 where
  pub left : List Block
  pub addr : ℕ
  pub size : ℕ
  pub free : Bool
  pub right : List Block

abbrev pub zipper : List Block → ℕ → ℕ → Bool → List Block → Zipper
zipper rs b s f ys = record { left = rs; addr = b; size = s; free = f; right = ys }

-- `x` is a free block other than the one in view.
abbrev pub Elsewhere : Zipper → ℕ → Type 0
Elsewhere z x = FreeLeft z.addr z.left x ⊎ FreeRight (z.addr + z.size) z.right x

-- The invariant: the blocks tile the heap, and the list has the free ones. `listed` says whether the
-- block in view is on it.
pub record View (listed : Bool) (h : Heap) (z : Zipper) (l : List ℕ) : Type 0 where
  pub left : Left h z.addr z.left
  pub here : BlockAt h z.addr z.size z.free
  pub right : Right h (z.addr + z.size) z.right
  pub links : Links h.next h.free_list l
  pub distinct : Distinct l
  pub members : (x : ℕ) → On x l ↔ (((x ≡ z.addr) × (listed ≡ true)) ⊎ Elsewhere z x)

-- The nearest of the blocks on a side taken into the one in view, when it is free.
unfoldable pub absorb_right : List Block → Zipper → Zipper
absorb_right [] z = z
absorb_right ((t, true) ∷ bs) z = record z { size = z.size + t; right = bs }
absorb_right ((t, false) ∷ bs) z = z

unfoldable pub absorb_left : List Block → Zipper → Zipper
absorb_left [] z = z
absorb_left ((t, true) ∷ bs) z = record z { addr = z.addr - t; size = t + z.size; left = bs }
absorb_left ((t, false) ∷ bs) z = z

abbrev pub absorb_next : Zipper → Zipper
absorb_next z = absorb_right z.right z

abbrev pub absorb_prev : Zipper → Zipper
absorb_prev z = absorb_left z.left z

pub absorb_left-free : (bs : List Block) (z : Zipper) → (absorb_left bs z).free ≡ z.free
unfolding absorb_left
absorb_left-free [] z = refl
absorb_left-free ((t, true) ∷ bs) z = refl
absorb_left-free ((t, false) ∷ bs) z = refl

pub absorb_right-zipper :
    (bs : List Block) (rs : List Block) (b s : ℕ) (f : Bool) (ys : List Block)
    → (s' : ℕ) × (ys' : List Block) × (absorb_right bs (zipper rs b s f ys) ≡ zipper rs b s' f ys')
unfolding absorb_right
absorb_right-zipper [] rs b s f ys = (s, ys, refl)
absorb_right-zipper ((t, true) ∷ bs) rs b s f ys = (s + t, bs, refl)
absorb_right-zipper ((t, false) ∷ bs) rs b s f ys = (s, ys, refl)

-- The view of the next block.
abbrev pub Neighbour : Zipper → Block → List Block → Zipper
Neighbour z b bs = zipper ((z.size, z.free) ∷ z.left) (z.addr + z.size) b.0 b.1 bs

-- The list without a block that is not in view.
pub Elsewhere-ne :
    (listed : Bool) (h : Heap) (z : Zipper) (l : List ℕ) (x : ℕ)
    → View listed h z l
    → Elsewhere z x
    → x ≢ z.addr
Elsewhere-ne listed h z l x v (inl m) =
    let below = FreeLeft-lt h z.addr z.left x v.left m in λ e. omega arith
Elsewhere-ne listed h z l x v (inr m) =
    let above = FreeRight-ge (z.addr + z.size) z.right x m in
    let large = v.here.large in λ e. omega arith
