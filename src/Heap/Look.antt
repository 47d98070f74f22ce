-- ===== src/Heap/Look.antt =====
-- Views of the same heap of src/mem/heap.cpp from different blocks.
use retux.Prelude.{
  ℕ, ◌+◌, ◌-◌, ◌≡◌, refl, inl, inr, Bool, true, List, [], ◌∷◌, arith, subst, sym, ◌∙◌,
}
use retux.Heap.{Heap}
use retux.Heap.Blocks.{Block, FreeLeft, FreeRight}
use retux.Heap.FreeList.{On}
use retux.Heap.View.{Zipper, zipper, View}

-- The blocks on the left, the nearest first, before the others.
abbrev pub plug : List Block → List Block → List Block
plug [] bs = bs
plug (b ∷ rs) bs = plug rs (b ∷ bs)

-- All blocks, from the start of the heap on.
abbrev pub blocks : Zipper → List Block
blocks z = plug z.left ((z.size, z.free) ∷ z.right)

-- The view from the next block, and from the previous one.
pub move_right :
    (h : Heap) (rs : List Block) (b s t : ℕ) (f g : Bool) (ys : List Block) (l : List ℕ)
    → View f h (zipper rs b s f ((t, g) ∷ ys)) l
    → View g h (zipper ((s, f) ∷ rs) (b + s) t g ys) l
move_right h rs b s t f g ys l v =
    let back : b + s - s ≡ b = omega arith in
    record {
      left = (omega arith, rw back v.here, rw back v.left);
      here = v.right.0;
      right = v.right.1;
      links = v.links;
      distinct = v.distinct;
      members = λ x. (
        λ m. (elim ((v.members x).0 m) [
          | inl (e, on) ↦ inr (inl (inl (e ∙ sym back, on)))
          | inr (inl m') ↦ inr (inl (inr (rw back m')))
          | inr (inr (inl (e, free))) ↦ inl (e, free)
          | inr (inr (inr m')) ↦ inr (inr m')
        ]),
        λ m. (v.members x).1 (elim m [
          | inl (e, free) ↦ inr (inr (inl (e, free)))
          | inr (inl (inl (e, on))) ↦ inl (e ∙ back, on)
          | inr (inl (inr m')) ↦ inr (inl (subst (λ a. FreeLeft a rs x) back m'))
          | inr (inr m') ↦ inr (inr (inr m'))
        ]),
      );
    }

pub move_left :
    (h : Heap) (rs : List Block) (b s t : ℕ) (f g : Bool) (ys : List Block) (l : List ℕ)
    → View f h (zipper ((t, g) ∷ rs) b s f ys) l
    → View g h (zipper rs (b - t) t g ((s, f) ∷ ys)) l
move_left h rs b s t f g ys l v =
    let back : b - t + t ≡ b = omega (arith, v.left.0) in
    record {
      left = v.left.2;
      here = v.left.1;
      right = rw back (v.here, v.right);
      links = v.links;
      distinct = v.distinct;
      members = λ x. (
        λ m. (elim ((v.members x).0 m) [
          | inl (e, on) ↦ inr (inr (inl (e ∙ sym back, on)))
          | inr (inl (inl (e, free))) ↦ inl (e, free)
          | inr (inl (inr m')) ↦ inr (inl m')
          | inr (inr m') ↦ inr (inr (inr (rw back m')))
        ]),
        λ m. (v.members x).1 (elim m [
          | inl (e, free) ↦ inr (inl (inl (e, free)))
          | inr (inl m') ↦ inr (inl (inr m'))
          | inr (inr (inl (e, on))) ↦ inl (e ∙ back, on)
          | inr (inr (inr m')) ↦ inr (inr (subst (λ a. FreeRight (a + s) ys x) back m'))
        ]),
      );
    }

-- The view from a free block of the heap.
abbrev pub Seen : Heap → Zipper → List ℕ → ℕ → Type 0
Seen h z l x =
    (w : Zipper) × (w.addr ≡ x) × (w.free ≡ true) × (blocks w ≡ blocks z) × View w.free h w l

look_right :
    (h : Heap) (rs : List Block) (b s : ℕ) (f : Bool) (ys : List Block) (l : List ℕ) (x : ℕ)
    → View f h (zipper rs b s f ys) l
    → FreeRight (b + s) ys x
    → Seen h (zipper rs b s f ys) l x
look_right h rs b s f [] l x v m = absurd m
look_right h rs b s f ((t, g) ∷ ys) l x v (inl (e, free)) =
    (zipper ((s, f) ∷ rs) (b + s) t g ys, sym e, free, refl, move_right h rs b s t f g ys l v)
look_right h rs b s f ((t, g) ∷ ys) l x v (inr m) =
    look_right h ((s, f) ∷ rs) (b + s) t g ys l x (move_right h rs b s t f g ys l v) m

look_left :
    (h : Heap) (rs : List Block) (b s : ℕ) (f : Bool) (ys : List Block) (l : List ℕ) (x : ℕ)
    → View f h (zipper rs b s f ys) l
    → FreeLeft b rs x
    → Seen h (zipper rs b s f ys) l x
look_left h [] b s f ys l x v m = absurd m
look_left h ((t, g) ∷ rs) b s f ys l x v (inl (e, free)) =
    (zipper rs (b - t) t g ((s, f) ∷ ys), sym e, free, refl, move_left h rs b s t f g ys l v)
look_left h ((t, g) ∷ rs) b s f ys l x v (inr m) =
    look_left h rs (b - t) t g ((s, f) ∷ ys) l x (move_left h rs b s t f g ys l v) m

pub look : (h : Heap) (z : Zipper) (l : List ℕ) (x : ℕ) → View z.free h z l → On x l → Seen h z l x
look h z l x v on = (elim ((v.members x).0 on) [
  | inl (e, free) ↦ (z, sym e, free, refl, v)
  | inr (inl m) ↦ look_left h z.left z.addr z.size z.free z.right l x v m
  | inr (inr m) ↦ look_right h z.left z.addr z.size z.free z.right l x v m
])
