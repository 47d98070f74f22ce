-- ===== src/Heap/Grown.antt =====
-- A block of src/mem/heap.cpp that has taken its neighbour in.
use retux.Prelude.{
  ℕ, ◌+◌, ◌-◌, ◌≤◌, ◌≡◌, ◌≢◌, ◌⊎◌, ◌↔◌, refl, inl, inr, true, false, List, arith, update,
}
use retux.Heap.{Heap}
use retux.Heap.Blocks.{BlockAt, SameAt}
use retux.Heap.FreeList.{Distinct, On, without, On-without}

-- The heap with the block in view grown to `s`, once its neighbour is off the list.
abbrev pub grown : Heap → (ℕ → ℕ) → ℕ → ℕ → ℕ → Heap
grown h next list b s = record h {
  next = next;
  free_list = list;
  size = update h.size b s;
  footer_sizes = update h.footer_sizes (b + s - 16) s;
  footer_free = update h.footer_free (b + s - 16) true;
}

pub grown-Same :
    (h : Heap) (next : ℕ → ℕ) (list b s q : ℕ)
    → q ≢ b
    → q ≢ b + s - 16
    → SameAt h (grown h next list b s) q
grown-Same h next list b s q ne ne' = record {
  sizes = ground (arith, ne);
  flags = refl;
  footers = ground (arith, ne');
  footer_flags = ground (arith, ne');
}

pub grown-BlockAt :
    (h : Heap) (next : ℕ → ℕ) (list b s : ℕ)
    → 40 ≤ s
    → h.free b ≡ true
    → BlockAt (grown h next list b s) b s true
grown-BlockAt h next list b s large flag = record {
  large = large;
  header = ground arith;
  flag = flag;
  footer = ground arith;
  footer_flag = ground arith;
}

-- The members of the list once the block `t` is off it: a block in view is not listed.
pub without-members :
    (a a' t : ℕ) (l : List ℕ) (E E' : ℕ → Type 0)
    → Distinct l
    → ((x : ℕ) → On x l ↔ (((x ≡ a) × (false ≡ true)) ⊎ E x))
    → ((x : ℕ) → E x → (x ≡ t) ⊎ E' x)
    → ((x : ℕ) → E' x → E x × (x ≢ t))
    → (x : ℕ) → On x (without t l) ↔ (((x ≡ a') × (false ≡ true)) ⊎ E' x)
without-members a a' t l E E' d on split back x =
    let there = On-without x t l d in
    (
      λ m.
          let (m', ne) = there.0 m in
          (elim ((on x).0 m') [
            | inl (_, no_way) ↦ absurd (ground (arith, no_way))
            | inr e ↦ (elim (split x e) [ inl z ↦ absurd (ne z) | inr e' ↦ inr e' ])
          ]),
      λ m. (elim m [
        | inl (_, no_way) ↦ absurd (ground (arith, no_way))
        | inr e' ↦ there.1 ((on x).1 (inr ((back x e').0))) ((back x e').1)
      ]),
    )
