-- ===== src/Heap/Carve.antt =====
-- A free block of src/mem/heap.cpp taken whole or cut in two.
use retux.Prelude.{
  ℕ, ◌+◌, ◌-◌, ◌≤◌, ◌≡◌, refl, ◌≢◌, ◌↔◌, inl, inr, true, false, List, ◌∷◌, arith, subst, sym, leb,
  update, if◌then◌else◌,
}
use retux.Heap.{Heap, min_block}
use retux.Heap.Blocks.{
  SameAt, Right, FreeRight, Left-frame, Right-frame, Left-ge, FreeLeft-lt, FreeRight-ge,
}
use retux.Heap.FreeList.{Links, On, without, On-without, Distinct-without, Links-frame, On-NotIn}
use retux.Heap.View.{Zipper, Elsewhere, Elsewhere-ne, View}

-- What is to become of a free block: the end is cut off as a free block when it is large enough.
unfoldable pub carve : ℕ → Zipper → Zipper
carve total z =
    if leb min_block (z.size - total)
    then record z { size = total; free = false; right = (z.size - total, true) ∷ z.right }
    else record z { free = false }

-- The heap with `c` off the list and taken whole.
abbrev pub whole : Heap → (ℕ → ℕ) → ℕ → ℕ → ℕ → Heap
whole h next list c s = record h {
  next = next;
  free_list = list;
  free = update h.free c false;
  footer_free = update h.footer_free (c + s - 16) false;
}

-- The heap with `c` off the list and cut at `total`, `r` bytes being left.
abbrev pub cut : Heap → (ℕ → ℕ) → ℕ → ℕ → ℕ → ℕ → Heap
cut h next list c total r = record h {
  next = update next (c + total) list;
  free_list = c + total;
  size = update (update h.size (c + total) r) c total;
  free = update (update (update h.free (c + total) true) (c + total) true) c false;
  footer_sizes = update (update h.footer_sizes (c + total + r - 16) r) (c + total - 16) total;
  footer_free = update (update h.footer_free (c + total + r - 16) true) (c + total - 16) false;
}

cut-Same :
    (h : Heap) (next : ℕ → ℕ) (list c total r q : ℕ)
    → (q ≢ c) × (q ≢ c + total) × (q ≢ c + total - 16) × (q ≢ c + total + r - 16)
    → SameAt h (cut h next list c total r) q
cut-Same h next list c total r q (ne, ne1, ne2, ne3) = record {
  sizes = ground (arith, ne, ne1);
  flags = ground (arith, ne, ne1);
  footers = ground (arith, ne2, ne3);
  footer_flags = ground (arith, ne2, ne3);
}

-- What is free once `c` is off the list.
members-without :
    (h : Heap) (z : Zipper) (l : List ℕ)
    → View true h z l
    → (x : ℕ) → On x (without z.addr l) ↔ Elsewhere z x
members-without h z l v x =
    let there = On-without x z.addr l v.distinct in
    let large = v.here.large in
    (
      λ m.
          let (m', ne) = there.0 m in
          (elim ((v.members x).0 m') [ inl (e, _) ↦ absurd (ne e) | inr e ↦ e ]),
      λ m. there.1 ((v.members x).1 (inr m)) (Elsewhere-ne true h z l x v m),
    )

pub whole-View :
    (h : Heap) (next : ℕ → ℕ) (list : ℕ) (z : Zipper) (l : List ℕ)
    → View true h z l
    → Links next list (without z.addr l)
    → View false (whole h next list z.addr z.size) (record z { free = false }) (without z.addr l)
whole-View h next list z l v links =
    let large = v.here.large in
    let same : (q : ℕ)
        → q ≢ z.addr
        → q ≢ z.addr + z.size - 16
        → SameAt h (whole h next list z.addr z.size) q =
      λ q ne ne'. record {
        sizes = refl;
        flags = ground (arith, ne);
        footers = refl;
        footer_flags = ground (arith, ne');
      } in
    record {
      left =
          Left-frame h (whole h next list z.addr z.size) z.addr z.left
            (λ q lt. same q (λ e. omega arith) (λ e. omega arith)) v.left;
      here = record {
        large = large;
        header = v.here.header;
        flag = ground arith;
        footer = v.here.footer;
        footer_flag = ground arith;
      };
      right =
          Right-frame h (whole h next list z.addr z.size) (z.addr + z.size) z.right refl
            (λ q ge. same q (λ e. omega arith) (λ e. omega arith)) v.right;
      links = links;
      distinct = Distinct-without z.addr l v.distinct;
      members = λ x.
          let on = members-without h z l v x in
          (
            λ m. inr (on.0 m),
            λ m. (elim m [ inl (_, no_way) ↦ absurd (ground (arith, no_way)) | inr e ↦ on.1 e ]),
          );
    }

pub cut-View :
    (h : Heap) (next : ℕ → ℕ) (list total r : ℕ) (z : Zipper) (l : List ℕ)
    → View true h z l
    → Links next list (without z.addr l)
    → 40 ≤ total
    → 40 ≤ r
    → z.size ≡ total + r
    → View false
        (cut h next list z.addr total r)
        (record z { size = total; free = false; right = (r, true) ∷ z.right })
        ((z.addr + total) ∷ without z.addr l)
cut-View h next list total r z l v links big big' size =
    let h' = cut h next list z.addr total r in
    let end : z.addr + z.size ≡ z.addr + total + r = omega arith in
    let on = members-without h z l v in
    let out : ¬ On (z.addr + total) (without z.addr l) = λ m. (elim ((on (z.addr + total)).0 m) [
      | inl m' ↦ let below = FreeLeft-lt h z.addr z.left (z.addr + total) v.left m' in omega arith
      | inr m' ↦
          let above = FreeRight-ge (z.addr + z.size) z.right (z.addr + total) m' in omega arith
    ]) in
    let out' = On-NotIn (z.addr + total) (without z.addr l) out in
    let below = Left-ge h z.addr z.left v.left in
    let at : h'.next (z.addr + total) ≡ list = ground arith in
    record {
      left =
          Left-frame h h' z.addr z.left
            (λ q lt.
              cut-Same h next list z.addr total r q
                (λ e. omega arith, λ e. omega arith, λ e. omega arith, λ e. omega arith))
            v.left;
      here = record {
        large = big;
        header = ground arith;
        flag = ground arith;
        footer = ground arith;
        footer_flag = ground arith;
      };
      right = (
        record {
          large = big';
          header = ground (arith, big);
          flag = ground (arith, big);
          footer = ground (arith, big');
          footer_flag = ground (arith, big');
        },
        subst (λ a. Right h' a z.right) end
            (Right-frame h h' (z.addr + z.size) z.right refl
              (λ q ge.
                cut-Same h next list z.addr total r q
                  (λ e. omega arith, λ e. omega arith, λ e. omega arith, λ e. omega arith))
              v.right),
      );
      links = (
        refl,
        λ e. omega arith,
        subst (λ p. Links h'.next p (without z.addr l)) (sym at)
            (Links-frame next h'.next (z.addr + total) list (without z.addr l)
              (λ q ne. ground (arith, ne)) out' links),
      );
      distinct = (out', Distinct-without z.addr l v.distinct);
      members = λ x. (
        λ m. (elim m [
          | inl e ↦ inr (inr (inl (e, refl)))
          | inr m' ↦ (elim ((on x).0 m') [
            | inl e ↦ inr (inl e)
            | inr e ↦ inr (inr (inr (subst (λ a. FreeRight a z.right x) end e)))
          ])
        ]),
        λ m. (elim m [
          | inl (_, no_way) ↦ absurd (ground (arith, no_way))
          | inr (inl e) ↦ inr ((on x).1 (inl e))
          | inr (inr (inl (e, _))) ↦ inl e
          | inr (inr (inr e)) ↦ inr ((on x).1 (inr (rw end e)))
        ]),
      );
    }
