-- ===== src/Heap/Separated.antt =====
-- No two neighbours of the heap of src/mem/heap.cpp are free.
use retux.Prelude.{
  ◌<◌, some, length, ℕ, ◌+◌, ◌-◌, ◌≡◌, refl, ◌⊎◌, inl, inr, Bool, true, false, List, [], ◌∷◌, leb,
  Bool-cases, sym, subst,
}
use retux.Heap.{Heap, min_block, kfree, allocate_block, total_size}
use retux.Heap.Blocks.{Block}
use retux.Heap.View.{
  Zipper, View, zipper, absorb_left, absorb_right, absorb_next, absorb_prev, absorb_right-zipper,
}
use retux.Heap.Look.{plug, blocks}
use retux.Heap.Carve.{carve}
use retux.Heap.Allocate.{carve-fields, Allocated}
use retux.Heap.Free.{kfree_lem}

-- The blocks beside one that is free or not.
abbrev pub Apart : Bool → List Block → Type 0
Apart f [] = Unit {0}
Apart f ((t, g) ∷ bs) = ((f ≡ false) ⊎ (g ≡ false)) × Apart g bs

abbrev pub Separated : List Block → Type 0
Separated [] = Unit {0}
Separated ((s, f) ∷ bs) = Apart f bs

Sum-swap {ℓ κ} : {A : Type ℓ} {B : Type κ} → A ⊎ B → B ⊎ A
Sum-swap (inl a) = inr a
Sum-swap (inr b) = inl b

plug-out :
    (rs : List Block) (s : ℕ) (f : Bool) (ys : List Block)
    → Separated (plug rs ((s, f) ∷ ys))
    → Apart f rs × Apart f ys
plug-out [] s f ys sep = (tt, sep)
plug-out ((t, g) ∷ rs) s f ys sep =
    let (left, (either, right)) = plug-out rs t g ((s, f) ∷ ys) sep in
    ((Sum-swap either, left), right)

plug-in :
    (rs : List Block) (s : ℕ) (f : Bool) (ys : List Block)
    → Apart f rs
    → Apart f ys
    → Separated (plug rs ((s, f) ∷ ys))
plug-in [] s f ys left right = right
plug-in ((t, g) ∷ rs) s f ys (either, left) right =
    plug-in rs t g ((s, f) ∷ ys) left (Sum-swap either, right)

-- A used block may stand anywhere.
Apart-false : (f : Bool) (bs : List Block) → Apart f bs → Apart false bs
Apart-false f [] a = tt
Apart-false f ((t, g) ∷ bs) (_, a) = (inl refl, a)

right-Apart :
    (bs : List Block) (rs : List Block) (b s : ℕ)
    → Apart false bs
    → Apart true (absorb_right bs (zipper rs b s true bs)).right
unfolding absorb_right
right-Apart [] rs b s a = tt
right-Apart ((t, true) ∷ bs) rs b s (_, a) = a
right-Apart ((t, false) ∷ bs) rs b s (_, a) = (inr refl, a)

left-Apart :
    (bs : List Block) (b s : ℕ) (ys : List Block)
    → Apart false bs
    → Apart true (absorb_left bs (zipper bs b s true ys)).left
unfolding absorb_left
left-Apart [] b s ys a = tt
left-Apart ((t, true) ∷ bs) b s ys (_, a) = a
left-Apart ((t, false) ∷ bs) b s ys (_, a) = (inr refl, a)

absorb_left-zipper :
    (bs rs : List Block) (b s : ℕ) (f : Bool) (ys : List Block)
    → (rs' : List Block) × (b' : ℕ) × (s' : ℕ) × (absorb_left bs (zipper rs b s f ys)
        ≡ zipper rs' b' s' f ys)
unfolding absorb_left
absorb_left-zipper [] rs b s f ys = (rs, b, s, refl)
absorb_left-zipper ((t, true) ∷ bs) rs b s f ys = (bs, b - t, t + s, refl)
absorb_left-zipper ((t, false) ∷ bs) rs b s f ys = (rs, b, s, refl)

absorbed-Separated :
    (rs : List Block) (b s : ℕ) (ys : List Block)
    → Apart false rs
    → Apart false ys
    → Separated (blocks (absorb_prev (absorb_next (zipper rs b s true ys))))
absorbed-Separated rs b s ys left right =
    let (s1, ys1, shape) = absorb_right-zipper ys rs b s true ys in
    let (rs2, b2, s2, shape2) = absorb_left-zipper rs rs b s1 true ys1 in
    let left2 : Apart true rs2 =
      subst (λ z. Apart true z.left) shape2 (left-Apart rs b s1 ys1 left) in
    let right1 : Apart true ys1 =
      subst (λ z. Apart true z.right) shape (right-Apart ys rs b s right) in
    rw (shape, shape2) (plug-in rs2 s2 true ys1 left2 right1)

merged-Separated :
    (z : Zipper)
    → Separated (blocks z)
    → Separated (blocks (absorb_prev (absorb_next (record z { free = true }))))
merged-Separated z sep =
    let (left, right) = plug-out z.left z.size z.free z.right sep in
    absorbed-Separated z.left z.addr z.size z.right (Apart-false z.free z.left left)
      (Apart-false z.free z.right right)

carve-Separated :
    (total : ℕ) (z : Zipper)
    → z.free ≡ true
    → Separated (blocks z)
    → Separated (blocks (carve total z))
unfolding carve
carve-Separated total z free sep =
    let (left, right) = plug-out z.left z.size z.free z.right sep in
    let left' = Apart-false z.free z.left left in
    let right' : Apart true z.right = subst (λ f. Apart f z.right) free right in
    elim (Bool-cases (leb min_block (z.size - total))) [
      | inl split ↦
          rw split
            (plug-in z.left total false ((z.size - total, true) ∷ z.right) left' (inl refl, right'))
      | inr small ↦
          rw small (plug-in z.left z.size false z.right left' (Apart-false true z.right right'))
    ]

-- On a well-formed heap with fuel for the free list in which no two neighbours are free, kfree of
-- a used block leaves a well-formed heap in which no two neighbours are free.
pub kfree-Separated :
    (fuel : ℕ) (h : Heap) (z : Zipper) (l : List ℕ)
    → View z.free h z l
    → z.free ≡ false
    → Separated (blocks z)
    → length l < fuel
    → (h' : Heap) × (z' : Zipper) × (l' : List ℕ) × (kfree fuel h (z.addr + 16) ≡ some h')
      × View true h' z' l'
      × Separated (blocks z')
kfree-Separated fuel h z l v used sep enough =
    let (h', l', run, v') = kfree_lem fuel h z l v used enough in
    (h', absorb_prev (absorb_next (record z { free = true })), l', run, v', merged-Separated z sep)

pub allocate_block-Separated :
    (fuel : ℕ) (h : Heap) (z : Zipper) (l : List ℕ) (size : ℕ)
    → Allocated fuel h z l size
    → Separated (blocks z)
    → (h' : Heap) × (w : Zipper) × (l' : List ℕ) × (allocate_block fuel h size ≡ some (w.addr, h'))
      × View false h' w l'
      × Separated (blocks w)
allocate_block-Separated fuel h z l size
      (w, h', l', before, after, split, all, fits, free, same, real, run, v) sep =
    (
      h',
      carve (total_size size) w,
      l',
      subst (λ a. allocate_block fuel h size ≡ some (a, h'))
          (sym (carve-fields (total_size size) w fits).0) run,
      v,
      carve-Separated (total_size size) w free (rw same sep),
    )
