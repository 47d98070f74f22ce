-- ===== src/Heap/Merge.antt =====
-- The two merges of `coalesce` of src/mem/heap.cpp.
use retux.Prelude.{
  ℕ, ◌+◌, ◌-◌, ◌≤◌, ◌<◌, ◌≡◌, ◌≢◌, ◌⊎◌, refl, sym, subst, ltb, ◌==◌, ==_refl, ap, ◌∙◌, inl, inr,
  true, false, List, [], ◌∷◌, arith, length, some,
}
use native.Mathlib.Nat.{add_assoc, le_refl}
use retux.Heap.{Heap, merge_next, merge_prev, next_block, prev_block, heap_start}
use retux.Heap.Blocks.{
  Block, Left, Right, Left-frame, Right-frame, FreeRight, FreeLeft-lt, FreeRight-ge, Left-ge,
  Right-le,
}
use retux.Heap.FreeList.{without, unlink_lem, Distinct-without, length-without}
use retux.Heap.View.{zipper, Elsewhere, View, absorb_right, absorb_left, absorb_next, absorb_prev}
use retux.Heap.Grown.{grown, grown-Same, grown-BlockAt, without-members}

next_split :
    (rs : List Block) (b s t : ℕ) (ys : List Block) (x : ℕ)
    → Elsewhere (zipper rs b s true ((t, true) ∷ ys)) x
    → (x ≡ b + s) ⊎ Elsewhere (zipper rs b (s + t) true ys) x
next_split rs b s t ys x (inl m) = inr (inl m)
next_split rs b s t ys x (inr (inl (e, _))) = inl e
next_split rs b s t ys x (inr (inr m)) = inr (inr (rw (sym (add_assoc b s t)) m))

next_back :
    (h : Heap) (rs : List Block) (b s t : ℕ) (ys : List Block)
    → Left h b rs
    → 0 < t
    → (x : ℕ) → Elsewhere (zipper rs b (s + t) true ys) x
    → Elsewhere (zipper rs b s true ((t, true) ∷ ys)) x × (x ≢ b + s)
next_back h rs b s t ys left pos_t x (inl m) =
    let below = FreeLeft-lt h b rs x left m in (inl m, λ e. omega arith)
next_back h rs b s t ys left pos_t x (inr m) =
    let above = FreeRight-ge (b + (s + t)) ys x m in
    (inr (inr (rw (add_assoc b s t) m)), λ e. omega arith)

-- A free block on the right is taken in.
merge_next-free :
    (fuel : ℕ) (h : Heap) (rs : List Block) (b s t : ℕ) (ys : List Block) (l : List ℕ)
    → View false h (zipper rs b s true ((t, true) ∷ ys)) l
    → length l < fuel
    → (h' : Heap) × (merge_next fuel h b ≡ some h')
      × View false h' (zipper rs b (s + t) true ys) (without (b + s) l)
unfolding merge_next next_block
merge_next-free fuel h rs b s t ys l v enough =
    let (next, list, run, links) = unlink_lem fuel h (b + s) l v.links v.distinct enough in
    let at = v.here in
    let large = at.large in
    let (beyond, right) = v.right in
    let large' = beyond.large in
    let header = at.header in
    let header' = beyond.header in
    let flag = beyond.flag in
    let inside = Right-le h (b + s + t) ys right in
    let below = Left-ge h b rs v.left in
    let in_range : ltb (b + s) h.heap_end ≡ true = ground arith in
    (
      grown h next list b (s + t),
      rw (header, in_range, flag, run, header, header', ==_refl b) refl,
      record {
        left =
            Left-frame h (grown h next list b (s + t)) b rs
              (λ q lt. grown-Same h next list b (s + t) q (λ e. omega arith) (λ e. omega arith))
              v.left;
        here = grown-BlockAt h next list b (s + t) (omega arith) at.flag;
        right =
            subst (λ a. Right (grown h next list b (s + t)) a ys) (add_assoc b s t)
              (Right-frame h (grown h next list b (s + t)) (b + s + t) ys refl
                (λ q le. grown-Same h next list b (s + t) q (λ e. omega arith) (λ e. omega arith))
                right);
        links = links;
        distinct = Distinct-without (b + s) l v.distinct;
        members =
            without-members b b (b + s) l (Elsewhere (zipper rs b s true ((t, true) ∷ ys)))
              (Elsewhere (zipper rs b (s + t) true ys)) v.distinct v.members
              (next_split rs b s t ys) (next_back h rs b s t ys v.left (omega arith));
      },
    )

pub merge_next_lem :
    (fuel : ℕ) (h : Heap) (rs : List Block) (b s : ℕ) (ys : List Block) (l : List ℕ)
    → View false h (zipper rs b s true ys) l
    → length l < fuel
    → (h' : Heap) × (l' : List ℕ) × (length l' ≤ length l)
      × (merge_next fuel h b ≡ some h')
      × View false h' (absorb_next (zipper rs b s true ys)) l'
unfolding merge_next next_block absorb_right
merge_next_lem fuel h rs b s [] l v enough =
    let end : b + s ≡ h.heap_end = v.right in
    let header = v.here.header in (h, l, le_refl (length l), ground (arith, end, header), v)
merge_next_lem fuel h rs b s ((t, false) ∷ ys) l v enough =
    let header = v.here.header in
    let flag = v.right.0.flag in (h, l, le_refl (length l), rw (header, flag) (ground arith), v)
merge_next_lem fuel h rs b s ((t, true) ∷ ys) l v enough =
    let (h', run, v') = merge_next-free fuel h rs b s t ys l v enough in
    (h', without (b + s) l, length-without (b + s) l, run, v')

prev_split :
    (rs : List Block) (b s t : ℕ) (ys : List Block) (x : ℕ)
    → t ≤ b
    → Elsewhere (zipper ((t, true) ∷ rs) b s true ys) x
    → (x ≡ b - t) ⊎ Elsewhere (zipper rs (b - t) (t + s) true ys) x
prev_split rs b s t ys x le (inl (inl (e, _))) = inl e
prev_split rs b s t ys x le (inl (inr m)) = inr (inl m)
prev_split rs b s t ys x le (inr m) =
    let same : b - t + (t + s) ≡ b + s = omega arith in inr (inr (rw same m))

prev_back :
    (h : Heap) (rs : List Block) (b s t : ℕ) (ys : List Block)
    → Left h (b - t) rs
    → t ≤ b
    → 0 < t
    → (x : ℕ) → Elsewhere (zipper rs (b - t) (t + s) true ys) x
    → Elsewhere (zipper ((t, true) ∷ rs) b s true ys) x × (x ≢ b - t)
prev_back h rs b s t ys left le pos_t x (inl m) =
    let below = FreeLeft-lt h (b - t) rs x left m in (inl (inr m), λ e. omega arith)
prev_back h rs b s t ys left le pos_t x (inr m) =
    let above = FreeRight-ge (b - t + (t + s)) ys x m in
    let same : b - t + (t + s) ≡ b + s = omega arith in
    (inr (subst (λ a. FreeRight a ys x) same m), λ e. omega arith)

-- A free block on the left takes the block in view in.
merge_prev-free :
    (fuel : ℕ) (h : Heap) (rs : List Block) (b s t : ℕ) (ys : List Block) (l : List ℕ)
    → View false h (zipper ((t, true) ∷ rs) b s true ys) l
    → length l < fuel
    → (h' : Heap) × (merge_prev fuel h b ≡ some (b - t, h'))
      × View false h' (zipper rs (b - t) (t + s) true ys) (without (b - t) l)
unfolding merge_prev prev_block
merge_prev-free fuel h rs b s t ys l v enough =
    let (next, list, run, links) = unlink_lem fuel h (b - t) l v.links v.distinct enough in
    let at = v.here in
    let large = at.large in
    let header = at.header in
    let (le, before, left) = v.left in
    let large' = before.large in
    let header' = before.header in
    let flag = before.flag in
    let edge : b - t + t - 16 ≡ b - 16 = omega arith in
    let footer : h.footer_sizes (b - 16) ≡ t = sym (ap h.footer_sizes edge) ∙ before.footer in
    let below = Left-ge h (b - t) rs left in
    let same : b + s ≡ b - t + (t + s) = omega arith in
    let inside : ltb (b - 16) heap_start ≡ false = ground arith in
    let inside' : ltb (b - t) heap_start ≡ false = ground arith in
    let real : (b - t == 0) ≡ false = ground arith in
    (
      grown h next list (b - t) (t + s),
      rw (inside, footer, inside', real, flag, run, header, header', ==_refl (b - t)) refl,
      record {
        left =
            Left-frame h (grown h next list (b - t) (t + s)) (b - t) rs
              (λ q lt.
                grown-Same h next list (b - t) (t + s) q (λ e. omega arith) (λ e. omega arith))
              left;
        here = grown-BlockAt h next list (b - t) (t + s) (omega arith) flag;
        right =
            subst (λ a. Right (grown h next list (b - t) (t + s)) a ys) same
              (Right-frame h (grown h next list (b - t) (t + s)) (b + s) ys refl
                (λ q ge.
                  grown-Same h next list (b - t) (t + s) q (λ e. omega arith) (λ e. omega arith))
                v.right);
        links = links;
        distinct = Distinct-without (b - t) l v.distinct;
        members =
            without-members b (b - t) (b - t) l (Elsewhere (zipper ((t, true) ∷ rs) b s true ys))
              (Elsewhere (zipper rs (b - t) (t + s) true ys)) v.distinct v.members
              (λ x m. prev_split rs b s t ys x le m)
              (prev_back h rs b s t ys left le (omega arith));
      },
    )

pub merge_prev_lem :
    (fuel : ℕ) (h : Heap) (rs : List Block) (b s : ℕ) (ys : List Block) (l : List ℕ)
    → View false h (zipper rs b s true ys) l
    → length l < fuel
    → (h' : Heap) × (l' : List ℕ) × (length l' ≤ length l)
      × (merge_prev fuel h b ≡ some ((absorb_prev (zipper rs b s true ys)).addr, h'))
      × View false h' (absorb_prev (zipper rs b s true ys)) l'
unfolding merge_prev prev_block absorb_left
merge_prev_lem fuel h [] b s ys l v enough =
    let start : b ≡ heap_start = v.left in (h, l, le_refl (length l), ground (arith, start), v)
merge_prev_lem fuel h ((t, false) ∷ rs) b s ys l v enough =
    let (le, before, left) = v.left in
    let large' = before.large in
    let flag = before.flag in
    let edge : b - t + t - 16 ≡ b - 16 = omega arith in
    let footer : h.footer_sizes (b - 16) ≡ t = sym (ap h.footer_sizes edge) ∙ before.footer in
    let below = Left-ge h (b - t) rs left in
    (h, l, le_refl (length l), rw footer (ground (arith, flag, below, large')), v)
merge_prev_lem fuel h ((t, true) ∷ rs) b s ys l v enough =
    let (h', run, v') = merge_prev-free fuel h rs b s t ys l v enough in
    (h', without (b - t) l, length-without (b - t) l, run, v')
