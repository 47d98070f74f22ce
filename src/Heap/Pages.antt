-- ===== src/Heap/Pages.antt =====
-- The pages that grow_heap of src/mem/heap.cpp puts behind the heap.
use retux.Prelude.{
  ℕ, zero, suc, ◌+◌, ◌*◌, ◌/◌, ◌==◌, ltb, true, none, some, ◌≡◌, ◌≢◌, ◌⊎◌, ◌<◌, ◌≤◌, refl, sym, ap,
  ◌∙◌, arith, Bool-cases, Option-cases, inl, inr,
}
use retux.Pmm.{Pmm, alloc_frame, is_used}
use retux.Vmm.{Vmm, virt_to_phys}
use retux.Vmm.Hidden.{Valid, alloc_frame-Fresh, virt_to_phys-pmm, Valid-pmm}
use retux.Vmm.Map.{Present, Mapped, map_lem}
use retux.Heap.{Heap, kernel_rw, map_pages}

-- The pages from `a` are mapped, nothing is unmapped, no frame in use becomes free, and of the heap
-- only the page tables and the frames have changed.
pub record Backed (h h' : Heap) (a n : ℕ) : Type 0 where
  pub level : ℕ → ℕ
  pub valid : Valid h'.vm level
  pub mapped : (u : ℕ) → a ≤ u / 4096 → u / 4096 < a + n → virt_to_phys h'.vm u ≢ 0
  pub stays : (u : ℕ) → virt_to_phys h.vm u ≢ 0 → virt_to_phys h'.vm u ≢ 0
  pub in_use : (g : ℕ) → is_used h.vm.pmm.bitmap g ≡ true → is_used h'.vm.pmm.bitmap g ≡ true
  pub same : h' ≡ record h { vm = h'.vm }

kernel_rw-Present : Present kernel_rw
kernel_rw-Present = (refl, omega arith, omega arith)

Backed-page :
    (h h1 h' : Heap) (a n : ℕ) → Backed h h1 a 1 → Backed h1 h' (a + 1) n → Backed h h' a (suc n)
Backed-page h h1 h' a n b1 b2 = record {
  level = b2.level;
  valid = b2.valid;
  mapped = λ u from to. elim (Bool-cases (ltb a (u / 4096))) [
    | inl later ↦ b2.mapped u (ground (arith, later)) (omega (arith, to))
    | inr here ↦ b2.stays u (b1.mapped u from (ground (arith, here)))
  ];
  stays = λ u shown. b2.stays u (b1.stays u shown);
  in_use = λ g used. b2.in_use g (b1.in_use g used);
  same = b2.same ∙ ap (λ (x : Heap). record x { vm = h'.vm }) b1.same;
}

Mapped-Backed :
    (h : Heap) (level : ℕ → ℕ) (a : ℕ) (frame : ℕ × Pmm) (s2 : Vmm)
    → Valid h.vm level
    → alloc_frame h.vm.pmm ≡ some frame
    → frame.0 ≢ 0
    → Mapped (record h.vm { pmm = frame.1 }) s2 (a * 4096) frame.0 kernel_rw
    → Backed h (record h { vm = s2 }) a 1
Mapped-Backed h level a (n, q) s2 v got real m =
    let new = alloc_frame-Fresh h.vm level n q v got in
    record {
      level = m.level;
      valid = m.valid;
      mapped = λ u from to z.
          let page : u / 4096 ≡ a * 4096 / 4096 = omega (arith, from, to) in
          omega (arith, m.shown u (m.page u page), z, real, new.aligned);
      stays = λ u shown z. shown (
          sym (virt_to_phys-pmm h.vm q u)
          ∙ sym (m.others u (λ leaf. omega (arith, m.shown u leaf, z, real, new.aligned)))
          ∙ z);
      in_use = λ g used. m.in_use g (new.kept g used);
      same = refl;
    }

-- On tables that have their levels below the root, in frames that are not free, with no page of 1
-- GiB, the loop of grow_heap over new pages halts or has every address of them mapped; every
-- address that was mapped still is, no frame in use becomes free, and nothing else of the heap has
-- changed.
pub map_pages-Backed :
    (pages : ℕ) (h : Heap) (level : ℕ → ℕ) (a : ℕ)
    → Valid h.vm level
    → (map_pages pages (a * 4096) h ≡ none)
      ⊎ ((h' : Heap) × (map_pages pages (a * 4096) h ≡ some h') × Backed h h' a pages)
unfolding map_pages
map_pages-Backed zero h level a v = inr (
  h,
  refl,
  record {
    level = level;
    valid = v;
    mapped = λ u from to. absurd (omega (arith, from, to));
    stays = λ u shown. shown;
    in_use = λ g used. used;
    same = refl;
  },
)
map_pages-Backed (suc pages) h level a v = elim (Option-cases (alloc_frame h.vm.pmm)) [
  | inl full ↦ inl (rw full refl)
  | inr (frame, got) ↦ (elim (Bool-cases (frame.0 == 0)) [
    | inl null ↦ inl (rw (got, null) refl)
    | inr some_frame ↦
        let real : frame.0 ≢ 0 = λ z. ground (arith, some_frame, z) in
        let new = alloc_frame-Fresh h.vm level frame.0 frame.1 v got in
        let s : Vmm = record h.vm { pmm = frame.1 } in
        (elim (map_lem s level (a * 4096) frame.0 kernel_rw
          (Valid-pmm h.vm level frame.0 frame.1 v new) (omega (arith, new.low)) kernel_rw-Present) [
            | inl full ↦ inl (rw (got, some_frame, full) refl)
            | inr (s2, run, m) ↦
                let b1 = Mapped-Backed h level a frame s2 v got real m in
                let h1 : Heap = record h { vm = s2 } in
                let next : a * 4096 + 4096 ≡ (a + 1) * 4096 = omega arith in
                (elim (map_pages-Backed pages h1 b1.level (a + 1) b1.valid) [
                  | inl full ↦ inl (rw (got, some_frame, run, next, full) refl)
                  | inr (h', rest, b2) ↦ inr (
                    h',
                    rw (got, some_frame, run, next, rest) refl,
                    Backed-page h h1 h' a pages b1 b2,
                  )
                ])
          ])
  ])
]
