-- ===== src/Vmm/Hidden.antt =====
-- Changes of the tables of src/mem/vmm.cpp that no translation shows.
use mathlib.Core.Bool.{true≢false}
use retux.Prelude.{
  ℕ, suc, ◌/◌, ◌%◌, ◌^◌, ◌==◌, true, false, some, ◌≡◌, ◌≢◌, ◌⊎◌, ◌<◌, ◌≤◌, refl, sym, ap, ◌∙◌,
  arith, Bool-cases, inl, inr, ==_iff, ==_refl,
}
use retux.Pmm.{Pmm, alloc_frame, is_used}
use retux.Pmm.Bitmap.{Bytes}
use retux.Pmm.Alloc.{alloc_frame-Allocates, alloc_frame-Bytes}
use retux.Vmm.{Vmm, present, huge, entry_phys, write, fill, get_pml4, virt_to_phys}
use retux.Vmm.Walk.{Tree, lookup, index, is_big}
use retux.Vmm.Tables.{
  placed, placed-old, fill-Tree, fill-lookup, fill-old, write-Tree, write-lookup,
}

-- The tables have their levels below the root, of level 4, and their frames are not free.
pub record Valid (s : Vmm) (level : ℕ → ℕ) : Type 0 where
  pub tree : Tree s.tables level
  pub root : level (get_pml4 s) ≡ 4
  pub bytes : Bytes s.pmm.bitmap
  pub taken : (f : ℕ) → level f ≢ 0 → is_used s.pmm.bitmap (f / 4096) ≡ true

-- A change of tables of a level and below that no translation shows.
pub record Hidden (s s' : Vmm) (level level' : ℕ → ℕ) (at : ℕ) : Type 0 where
  pub valid : Valid s' level'
  pub same_root : s'.cr3 ≡ s.cr3
  pub keeps :
      (virt : ℕ) → lookup s'.tables 3 (get_pml4 s) virt ≡ lookup s.tables 3 (get_pml4 s) virt
  pub above : (f j : ℕ) → at < level f → s'.tables f j ≡ s.tables f j
  pub stays : (f : ℕ) → level f ≢ 0 → level' f ≡ level f
  pub in_use : (g : ℕ) → is_used s.pmm.bitmap g ≡ true → is_used s'.pmm.bitmap g ≡ true

-- What is known of a frame that is allocated.
pub record Fresh (s : Vmm) (level : ℕ → ℕ) (n : ℕ) (q : Pmm) : Type 0 where
  pub unplaced : level n ≡ 0
  pub aligned : n % 4096 ≡ 0
  pub low : n / 4096 < 2 ^ 40
  pub bytes : Bytes q.bitmap
  pub used : is_used q.bitmap (n / 4096) ≡ true
  pub kept : (f : ℕ) → is_used s.pmm.bitmap f ≡ true → is_used q.bitmap f ≡ true

pub virt_to_phys-pmm :
    (s : Vmm) (q : Pmm) (u : ℕ) → virt_to_phys (record s { pmm = q }) u ≡ virt_to_phys s u
unfolding virt_to_phys get_pml4
virt_to_phys-pmm s q u = refl

pub Valid-pmm :
    (s : Vmm) (level : ℕ → ℕ) (n : ℕ) (q : Pmm)
    → Valid s level
    → Fresh s level n q
    → Valid (record s { pmm = q }) level
unfolding get_pml4
Valid-pmm s level n q v new = record {
  tree = v.tree;
  root = v.root;
  bytes = new.bytes;
  taken = λ f real. new.kept (f / 4096) (v.taken f real);
}

pub alloc_frame-Fresh :
    (s : Vmm) (level : ℕ → ℕ) (n : ℕ) (q : Pmm)
    → Valid s level
    → alloc_frame s.pmm ≡ some (n, q)
    → Fresh s level n q
alloc_frame-Fresh s level n q v run =
    let a = alloc_frame-Allocates s.pmm v.bytes run in
    let unplaced : level n ≡ 0 = (elim (Bool-cases (level n == 0)) [
      | inl z ↦ (==_iff (level n) 0).0 z
      | inr real ↦ absurd (true≢false (sym (v.taken n (λ z. ground (arith, real, z))) ∙ a.was_free))
    ]) in
    record {
      unplaced = unplaced;
      aligned = a.aligned;
      low = omega (arith, a.in_range);
      bytes = alloc_frame-Bytes s.pmm v.bytes run;
      used = a.marked (n / 4096) ∙ rw (==_refl (n / 4096)) refl;
      kept = λ f used. a.marked f ∙ ground (arith, used);
    }

pub Hidden-refl : (s : Vmm) (level : ℕ → ℕ) (at : ℕ) → Valid s level → Hidden s s level level at
Hidden-refl s level at v = record {
  valid = v;
  same_root = refl;
  keeps = λ virt. refl;
  above = λ f j lt. refl;
  stays = λ f real. refl;
  in_use = λ g used. used;
}

pub Hidden-higher :
    (s s' : Vmm) (level level' : ℕ → ℕ) (a b : ℕ)
    → Hidden s s' level level' a
    → a ≤ b
    → Hidden s s' level level' b
Hidden-higher s s' level level' a b h le = record {
  valid = h.valid;
  same_root = h.same_root;
  keeps = h.keeps;
  above = λ f j lt. h.above f j (omega (arith, lt, le));
  stays = h.stays;
  in_use = h.in_use;
}

pub Hidden-trans :
    (s s1 s2 : Vmm) (level level1 level2 : ℕ → ℕ) (a b : ℕ)
    → Hidden s s1 level level1 a
    → Hidden s1 s2 level1 level2 b
    → a ≤ b
    → Hidden s s2 level level2 b
unfolding get_pml4
Hidden-trans s s1 s2 level level1 level2 a b h k le = record {
  valid = k.valid;
  same_root = k.same_root ∙ h.same_root;
  keeps = λ virt.
      ap (λ c. lookup s2.tables 3 (entry_phys c) virt) (sym h.same_root)
      ∙ k.keeps virt
      ∙ ap (λ c. lookup s1.tables 3 (entry_phys c) virt) h.same_root
      ∙ h.keeps virt;
  above = λ f j lt.
      let placed_there = h.stays f (λ z. omega (arith, lt, z)) in
      k.above f j (omega (arith, lt, placed_there)) ∙ h.above f j (omega (arith, lt, le));
  stays = λ f real. let l = h.stays f real in k.stays f (λ z. real (sym l ∙ z)) ∙ l;
  in_use = λ g used. k.in_use g (h.in_use g used);
}

module _ (s : Vmm) (level : ℕ → ℕ) (v : Valid s level) where
  pub Hidden-fill :
      (n : ℕ) (q : Pmm) (entry : ℕ → ℕ) (l : ℕ)
      → Fresh s level n q
      → (l ≡ 0) ⊎ ((j : ℕ) → present (entry j) ≡ false)
      → Hidden s
          (record s { tables = fill s.tables n entry; pmm = q })
          level
          (placed level n (suc l))
          0
  unfolding get_pml4
  Hidden-fill n q entry l new plain =
      let ne : (f : ℕ) → level f ≢ 0 → f ≢ n = λ f real same. real (ap level same ∙ new.unplaced) in
      let root_ne = ne (get_pml4 s) (λ z. ground (arith, v.root, z)) in
      record {
        valid = record {
          tree = fill-Tree s.tables level v.tree n new.unplaced entry l plain;
          root = placed-old level n (suc l) (get_pml4 s) root_ne ∙ v.root;
          bytes = new.bytes;
          taken = λ f real. (elim (Bool-cases (f == n)) [
            | inl same ↦ ap (λ g. is_used q.bitmap (g / 4096)) ((==_iff f n).0 same) ∙ new.used
            | inr other ↦
                let f_ne : f ≢ n = λ z. ground (arith, other, z) in
                new.kept (f / 4096) (v.taken f (λ z. real (placed-old level n (suc l) f f_ne ∙ z)))
          ]);
        };
        same_root = refl;
        keeps = λ virt.
            fill-lookup s.tables level v.tree n new.unplaced entry l 3 (get_pml4 s) virt v.root;
        above = λ f j lt.
            fill-old s.tables level v.tree n new.unplaced entry l f j (λ z. omega (arith, lt, z));
        stays = λ f real. placed-old level n (suc l) f (ne f real);
        in_use = new.kept;
      }

  pub Hidden-write :
      (table idx e k : ℕ)
      → level table ≡ suc k
      → idx < 512
      → ((l : ℕ) → k ≡ suc l → present e ≡ true → is_big k e ≡ false → level (entry_phys e) ≡ k)
      → (k ≡ 2 → huge e ≡ false)
      → ((virt : ℕ)
          → index k virt ≡ idx
          → lookup (write s.tables table idx e) k table virt ≡ lookup s.tables k table virt)
      → Hidden s (record s { tables = write s.tables table idx e }) level level (suc k)
  unfolding get_pml4
  Hidden-write table idx e k here small linked not_flat behind = record {
    valid = record {
      tree = write-Tree s.tables level v.tree table idx e k here small linked not_flat;
      root = v.root;
      bytes = v.bytes;
      taken = v.taken;
    };
    same_root = refl;
    keeps = λ virt.
        write-lookup s.tables level v.tree table idx e k here small 3 (get_pml4 s) virt v.root
          (λ _. behind virt);
    above = λ f j lt.
        let ne : f ≢ table = λ z. omega (arith, lt, here, ap level z) in ground (arith, ne);
    stays = λ f real. refl;
    in_use = λ g used. used;
  }
