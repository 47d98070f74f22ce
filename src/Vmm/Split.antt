-- ===== src/Vmm/Split.antt =====
-- split_huge_page of src/mem/vmm.cpp.
use mathlib.Core.Option.{some_inj, none-ne-some}
use retux.Prelude.{
  ℕ, ◌+◌, ◌*◌, ◌/◌, ◌%◌, ◌^◌, ◌==◌, Bool, true, false, ◌&&◌, none, some, ◌≡◌, ◌<◌, refl, sym, ap,
  ◌∙◌, arith, Bool-cases, Option-cases, inl, inr, ==_refl, subst,
}
use retux.Pmm.{Pmm, alloc_frame}
use retux.Vmm.{
  Vmm, present, huge, entry_phys, write, fill, split_huge_page, split_if_huge, small_flags,
}
use retux.Vmm.Walk.{Tables, lookup, through, index}
use retux.Vmm.Tables.{placed, placed-new, write-hit, write-behind, lookup-entry}
use retux.Vmm.Hidden.{
  Valid, Hidden, Fresh, alloc_frame-Fresh, Hidden-fill, Hidden-write, Hidden-trans, Hidden-refl,
}
use retux.Vmm.Ensure.{through-table}

-- The entry of a page of 4 KiB in place of the huge one.
abbrev small_entry : (e i : ℕ) → ℕ
small_entry e i = e / 2 ^ 21 % 2 ^ 31 * 2 ^ 21 + i * 2 ^ 12 + small_flags e

small_entry_lem :
    (e virt : ℕ)
    → e % 2 ≡ 1
    → (present (small_entry e (index 0 virt)) ≡ true)
      × (entry_phys (small_entry e (index 0 virt)) + virt % 4096
          ≡ entry_phys e / 2 ^ 21 * 2 ^ 21 + virt % 2 ^ 21)
small_entry_lem e virt odd =
    let bit : small_entry e (index 0 virt) % 2 ≡ 1 = omega (arith, odd) in
    (ap (λ b. b == 1) bit, omega arith)

pointer_lem :
    (n : ℕ)
    → n % 4096 ≡ 0
    → n / 4096 < 2 ^ 40
    → (present (n + 3) ≡ true) × (huge (n + 3) ≡ false) × (entry_phys (n + 3) ≡ n)
pointer_lem n aligned low =
    (ground (arith, aligned), ground (arith, aligned), omega (arith, aligned, low))

and_left : (a b : Bool) → a && b ≡ true → a ≡ true
and_left true b e = refl
and_left false b e = cc

and_right : (a b : Bool) → a && b ≡ true → b ≡ true
and_right true b e = e
and_right false b e = cc

and_false : (a b : Bool) → a ≡ true → a && b ≡ false → false ≡ b
and_false true b h e = sym e
and_false false b h e = cc

pub leaf_lookup :
    (t : Tables) (table virt e : ℕ)
    → t table (index 0 virt) ≡ e
    → present e ≡ true
    → lookup t 0 table virt ≡ entry_phys e + virt % 4096
unfolding lookup
leaf_lookup t table virt e same there = rw (same, there) refl

big_page :
    (e r virt : ℕ)
    → present e ≡ true
    → huge e ≡ true
    → through 1 e r virt ≡ entry_phys e / 2 ^ 21 * 2 ^ 21 + virt % 2 ^ 21
big_page e r virt there big = rw (there, big) refl

module _ (s : Vmm) (level : ℕ → ℕ) (v : Valid s level) (pd idx : ℕ) (here : level pd ≡ 2)
    (in_table : idx < 512) where
  split_new :
      (n : ℕ) (q : Pmm)
      → present (s.tables pd idx) ≡ true
      → huge (s.tables pd idx) ≡ true
      → Fresh s level n q
      → (level' : ℕ → ℕ) × Hidden s
          (record s {
            tables = write (fill s.tables n (small_entry (s.tables pd idx))) pd idx (n + 3);
            pmm = q;
          })
          level
          level'
          2
  split_new n q there big new =
      let e = s.tables pd idx in
      let (there', not_huge, phys) = pointer_lem n new.aligned new.low in
      let level1 = placed level n 1 in
      let s1 : Vmm = record s { tables = fill s.tables n (small_entry e); pmm = q } in
      let filled = Hidden-fill s level v n q (small_entry e) 0 new (inl refl) in
      let same_level = filled.stays pd (λ z. omega (arith, here, z)) in
      let here1 : level1 pd ≡ 2 = same_level ∙ here in
      let same_entry : s1.tables pd idx ≡ e = filled.above pd idx (omega (arith, here)) in
      let child_level : level1 (entry_phys (n + 3)) ≡ 1 = ap level1 phys ∙ placed-new level n 1 in
      let odd : e % 2 ≡ 1 = ground (arith, there) in
      let written =
        Hidden-write s1 level1 filled.valid pd idx (n + 3) 1 here1 in_table (λ l _ _ _. child_level)
          (λ _. not_huge)
          (λ virt on_path.
            let i = index 0 virt in
            let (leaf, moved) = small_entry_lem e virt odd in
            let new_leaf : s1.tables n i ≡ small_entry e i = rw (==_refl n) refl in
            let small_page : lookup s1.tables 0 n virt
                ≡ entry_phys (small_entry e i) + virt % 4096 =
              leaf_lookup s1.tables n virt (small_entry e i) new_leaf leaf in
            write-behind s1.tables level1 pd idx (n + 3) 0 virt filled.valid.tree here1 on_path
              (λ _ _. child_level)
            ∙ through-table 1 (n + 3) (lookup s1.tables 0 (entry_phys (n + 3)) virt) virt there'
                not_huge
            ∙ ap (λ c. lookup s1.tables 0 c virt) phys
            ∙ small_page
            ∙ moved
            ∙ sym (
                lookup-entry s1.tables 0 pd virt idx on_path
                ∙ ap (λ x. through 1 x (lookup s1.tables 0 (entry_phys x) virt) virt) same_entry
                ∙ big_page e (lookup s1.tables 0 (entry_phys e) virt) virt there big)) in
      (
        level1,
        Hidden-trans s s1 (record s1 { tables = write s1.tables pd idx (n + 3) }) level level1
            level1 0 2 filled written (omega arith),
      )

  abbrev Split : Vmm → Type 0
  Split s' =
      (level' : ℕ → ℕ) × Hidden s s' level level' 2
      × (present (s'.tables pd idx) ≡ true → huge (s'.tables pd idx) ≡ false)

  -- Nothing shows, and the entry is no huge page any more.
  pub split_if_huge_lem : (s' : Vmm) → split_if_huge s pd idx ≡ some s' → Split s'
  unfolding split_if_huge split_huge_page
  split_if_huge_lem s' run =
      let e = s.tables pd idx in
      elim (Bool-cases (present e && huge e)) [
        | inr not_big ↦
            let step : split_if_huge s pd idx ≡ some s = rw not_big refl in
            subst Split (some_inj.0 (sym step ∙ run)) (
              level,
              Hidden-refl s level 2 v,
              λ there. sym (and_false (present e) (huge e) there not_big),
            )
        | inl big ↦ (elim (Option-cases (alloc_frame s.pmm)) [
          | inl full ↦
              let step : split_if_huge s pd idx ≡ none = rw (big, full) refl in
              absurd (none-ne-some s' (sym step ∙ run))
          | inr ((n, q), got) ↦
              let new = alloc_frame-Fresh s level n q v got in
              let after : Vmm = record s {
                tables = write (fill s.tables n (small_entry e)) pd idx (n + 3);
                pmm = q;
              } in
              let step : split_if_huge s pd idx ≡ some after = rw (big, got) refl in
              let (_, not_huge, _) = pointer_lem n new.aligned new.low in
              let (level', hidden) =
                split_new n q (and_left (present e) (huge e) big)
                  (and_right (present e) (huge e) big) new in
              subst Split (some_inj.0 (sym step ∙ run)) (
                level',
                hidden,
                λ _.
                    ap huge (write-hit (fill s.tables n (small_entry e)) pd idx (n + 3)) ∙ not_huge,
              )
        ])
      ]
