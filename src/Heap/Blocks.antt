-- ===== src/Heap/Blocks.antt =====
-- The blocks of src/mem/heap.cpp as a tiling of the heap, seen from one of them: those on its left,
-- the nearest first, and those on its right.
use retux.Prelude.{ℕ, ◌+◌, ◌-◌, ◌≤◌, ◌<◌, ◌≡◌, Bool, true, ◌⊎◌, inl, inr, List, [], ◌∷◌, arith}
use retux.Heap.{Heap, heap_start, min_block, footer_size}

-- A block's size and whether it is free.
abbrev pub Block : Type 0
Block = ℕ × Bool

-- A block at `b`: its header and its footer agree.
pub record BlockAt (h : Heap) (b s : ℕ) (f : Bool) : Type 0 where
  pub large : min_block ≤ s
  pub header : h.size b ≡ s
  pub flag : h.free b ≡ f
  pub footer : h.footer_sizes (b + s - footer_size) ≡ s
  pub footer_flag : h.footer_free (b + s - footer_size) ≡ f

-- From the start of the heap to `a`, and from `a` to its end.
abbrev pub Left : Heap → ℕ → List Block → Type 0
Left h a [] = a ≡ heap_start
Left h a ((s, f) ∷ bs) = (s ≤ a) × BlockAt h (a - s) s f × Left h (a - s) bs

abbrev pub Right : Heap → ℕ → List Block → Type 0
Right h a [] = a ≡ h.heap_end
Right h a ((s, f) ∷ bs) = BlockAt h a s f × Right h (a + s) bs

-- Two heaps have the same header and the same footer at an address.
pub record SameAt (h h' : Heap) (q : ℕ) : Type 0 where
  pub sizes : h'.size q ≡ h.size q
  pub flags : h'.free q ≡ h.free q
  pub footers : h'.footer_sizes q ≡ h.footer_sizes q
  pub footer_flags : h'.footer_free q ≡ h.footer_free q

pub BlockAt-frame :
    (h h' : Heap) (b s : ℕ) (f : Bool)
    → SameAt h h' b
    → SameAt h h' (b + s - footer_size)
    → BlockAt h b s f
    → BlockAt h' b s f
BlockAt-frame h h' b s f same same' at = ground arith

pub Left-frame :
    (h h' : Heap) (a : ℕ) (bs : List Block)
    → ((q : ℕ) → q < a → SameAt h h' q)
    → Left h a bs
    → Left h' a bs
Left-frame h h' a [] same l = l
Left-frame h h' a ((s, f) ∷ bs) same (le, at, l) =
    let large = at.large in
    (
      le,
      BlockAt-frame h h' (a - s) s f (same (a - s) (omega arith))
          (same (a - s + s - footer_size) (omega arith)) at,
      Left-frame h h' (a - s) bs (λ q lt. same q (omega arith)) l,
    )

pub Right-frame :
    (h h' : Heap) (a : ℕ) (bs : List Block)
    → h'.heap_end ≡ h.heap_end
    → ((q : ℕ) → a ≤ q → SameAt h h' q)
    → Right h a bs
    → Right h' a bs
Right-frame h h' a [] end same r = omega arith
Right-frame h h' a ((s, f) ∷ bs) end same (at, r) =
    let large = at.large in
    (
      BlockAt-frame h h' a s f (same a (omega arith)) (same (a + s - footer_size) (omega arith)) at,
      Right-frame h h' (a + s) bs end (λ q le. same q (omega arith)) r,
    )

pub Left-ge : (h : Heap) (a : ℕ) (bs : List Block) → Left h a bs → heap_start ≤ a
Left-ge h a [] l = omega arith
Left-ge h a ((s, f) ∷ bs) (le, at, l) = omega (arith, Left-ge h (a - s) bs l)

pub Right-le : (h : Heap) (a : ℕ) (bs : List Block) → Right h a bs → a ≤ h.heap_end
Right-le h a [] r = omega arith
Right-le h a ((s, f) ∷ bs) (at, r) = omega (arith, Right-le h (a + s) bs r)

-- `x` is the address of one of the free blocks.
abbrev pub FreeLeft : ℕ → List Block → ℕ → Type 0
FreeLeft a [] x = ⊥
FreeLeft a ((s, f) ∷ bs) x = ((x ≡ a - s) × (f ≡ true)) ⊎ FreeLeft (a - s) bs x

abbrev pub FreeRight : ℕ → List Block → ℕ → Type 0
FreeRight a [] x = ⊥
FreeRight a ((s, f) ∷ bs) x = ((x ≡ a) × (f ≡ true)) ⊎ FreeRight (a + s) bs x

pub FreeLeft-lt :
    (h : Heap) (a : ℕ) (bs : List Block) (x : ℕ) → Left h a bs → FreeLeft a bs x → x < a
FreeLeft-lt h a [] x l m = absurd m
FreeLeft-lt h a ((s, f) ∷ bs) x (le, at, l) (inl (e, _)) = let large = at.large in omega arith
FreeLeft-lt h a ((s, f) ∷ bs) x (le, at, l) (inr m) =
    let below = FreeLeft-lt h (a - s) bs x l m in omega arith

pub FreeRight-ge : (a : ℕ) (bs : List Block) (x : ℕ) → FreeRight a bs x → a ≤ x
FreeRight-ge a [] x m = absurd m
FreeRight-ge a ((s, f) ∷ bs) x (inl (e, _)) = omega arith
FreeRight-ge a ((s, f) ∷ bs) x (inr m) = let above = FreeRight-ge (a + s) bs x m in omega arith
