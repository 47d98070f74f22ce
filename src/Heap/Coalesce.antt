-- ===== src/Heap/Coalesce.antt =====
-- `coalesce` of src/mem/heap.cpp.
use retux.Prelude.{
  ℕ, suc, ◌+◌, ◌-◌, ◌≤◌, ◌<◌, ◌≡◌, refl, sym, subst, ◌==◌, ==_iff, Bool-cases, ap, ◌∙◌, inl, inr,
  Bool, true, false, List, ◌∷◌, arith, length, some, update,
}
use retux.Heap.{Heap, coalesce, add_block_to_free_list}
use retux.Heap.Blocks.{Block, SameAt, BlockAt-frame, Left-frame, Right-frame, Left-ge}
use retux.Heap.FreeList.{Links, On, On-NotIn, Links-frame}
use retux.Heap.View.{
  Zipper, zipper, View, absorb_left-free, absorb_right-zipper, Elsewhere-ne, absorb_next,
  absorb_prev,
}
use retux.Heap.Merge.{merge_next_lem, merge_prev_lem}

update-same : (f : ℕ → Bool) (b : ℕ) (x : Bool) (q : ℕ) → f b ≡ x → update f b x q ≡ f q
update-same f b x q e = elim (Bool-cases (b == q)) [
  | inl z ↦ rw z (sym e ∙ ap f ((==_iff b q).0 z))
  | inr ne ↦ rw ne refl
]

-- The block in view goes on the list.
pub list_block :
    (h : Heap) (z : Zipper) (l : List ℕ)
    → View false h z l
    → z.free ≡ true
    → View true (add_block_to_free_list h z.addr) z (z.addr ∷ l)
unfolding add_block_to_free_list
list_block h z l v flag =
    let here = v.here in
    let below = Left-ge h z.addr z.left v.left in
    let large = here.large in
    let unlisted : ¬ On z.addr l = λ m. (elim ((v.members z.addr).0 m) [
      | inl (_, no_way) ↦ ground (arith, no_way)
      | inr e ↦ Elsewhere-ne false h z l z.addr v e refl
    ]) in
    let out = On-NotIn z.addr l unlisted in
    let h' = add_block_to_free_list h z.addr in
    let at : h'.next z.addr ≡ h.free_list = ground arith in
    let same : (q : ℕ) → SameAt h h' q = λ q. record {
      sizes = refl;
      flags = update-same h.free z.addr true q (here.flag ∙ flag);
      footers = refl;
      footer_flags = refl;
    } in
    record {
      left = Left-frame h h' z.addr z.left (λ q _. same q) v.left;
      here =
          BlockAt-frame h h' z.addr z.size z.free (same z.addr) (same (z.addr + z.size - 16)) here;
      right = Right-frame h h' (z.addr + z.size) z.right refl (λ q _. same q) v.right;
      links = (
        refl,
        λ e. omega arith,
        subst (λ p. Links h'.next p l) (sym at)
            (Links-frame h.next h'.next z.addr h.free_list l (λ q ne. ground (arith, ne)) out
              v.links),
      );
      distinct = (out, v.distinct);
      members = λ x. (
        λ m. (elim m [
          | inl e ↦ inl (e, refl)
          | inr m' ↦ (elim ((v.members x).0 m') [
            | inl (_, no_way) ↦ absurd (ground (arith, no_way))
            | inr e ↦ inr e
          ])
        ]),
        λ m. (elim m [ inl (e, _) ↦ inl e | inr e ↦ inr ((v.members x).1 (inr e)) ]),
      );
    }

pub coalesce_lem :
    (fuel : ℕ) (h : Heap) (rs : List Block) (b s : ℕ) (ys : List Block) (l : List ℕ)
    → View false h (zipper rs b s true ys) l
    → length l < fuel
    → (h' : Heap) × (l' : List ℕ) × (length l' ≤ suc (length l))
      × (coalesce fuel h b ≡ some h')
      × View true h' (absorb_prev (absorb_next (zipper rs b s true ys))) l'
unfolding coalesce
coalesce_lem fuel h rs b s ys l v enough =
    let (h1, l1, fewer, run1, v1) = merge_next_lem fuel h rs b s ys l v enough in
    let (s1, ys1, shape) = absorb_right-zipper ys rs b s true ys in
    let v1' : View false h1 (zipper rs b s1 true ys1) l1 =
      subst (λ z. View false h1 z l1) shape v1 in
    let (h2, l2, fewer2, run2, v2) = merge_prev_lem fuel h1 rs b s1 ys1 l1 v1' (omega arith) in
    let z = absorb_prev (zipper rs b s1 true ys1) in
    let listed = list_block h2 z l2 v2 (absorb_left-free rs (zipper rs b s1 true ys1)) in
    (
      add_block_to_free_list h2 z.addr,
      z.addr ∷ l2,
      omega arith,
      rw (run1, run2) refl,
      rw shape listed,
    )
