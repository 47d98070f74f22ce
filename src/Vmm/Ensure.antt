-- ===== src/Vmm/Ensure.antt =====
-- ensure_table of src/mem/vmm.cpp.
use mathlib.Core.Option.{some_inj, none-ne-some}
use retux.Prelude.{
  ℕ, suc, ◌+◌, ◌%◌, true, false, none, some, ◌≡◌, ◌≢◌, ◌<◌, refl, sym, ap, ◌∙◌, arith, Bool-cases,
  Option-cases, inl, inr, ==_refl, subst,
}
use retux.Pmm.{Pmm, alloc_frame}
use retux.Vmm.{Vmm, present, entry_phys, write, fill, ensure_table, set_bit, widened}
use retux.Vmm.Walk.{lookup, through, is_big}
use retux.Vmm.Tables.{placed, placed-new, write-hit, write-behind, lookup-entry, lookup-empty}
use retux.Vmm.Hidden.{
  Valid, Hidden, Fresh, alloc_frame-Fresh, Hidden-fill, Hidden-write, Hidden-trans,
}
use retux.Vmm.Entries.{widened_lem, fresh_entry, is_big-of_huge}

-- The entry leads to a table.
pub record Linked (s : Vmm) (table idx k child : ℕ) : Type 0 where
  pub there : present (s.tables table idx) ≡ true
  pub small : is_big (suc k) (s.tables table idx) ≡ false
  pub leads : child ≡ entry_phys (s.tables table idx)

-- What a step of the walk in a valid state does: nothing shows, and the entry leads to a table.
abbrev pub Ensured : (s s' : Vmm) (level : ℕ → ℕ) (table idx k child : ℕ) → Type 0
Ensured s s' level table idx k child =
    (level' : ℕ → ℕ) × Hidden s s' level level' (suc (suc k)) × Linked s' table idx k child

pub through-alike :
    (l e e' r r' virt : ℕ)
    → present e' ≡ present e
    → is_big l e' ≡ is_big l e
    → entry_phys e' ≡ entry_phys e
    → r' ≡ r
    → through l e' r' virt ≡ through l e r virt
through-alike l e e' r r' virt a b c d = rw (a, b, c, d) refl

pub through-none : (l e r virt : ℕ) → present e ≡ false → through l e r virt ≡ 0
through-none l e r virt absent = rw absent refl

pub through-table :
    (l e r virt : ℕ) → present e ≡ true → is_big l e ≡ false → through l e r virt ≡ r
through-table l e r virt there small = rw (there, small) refl

module _ (s : Vmm) (level : ℕ → ℕ) (v : Valid s level) (table idx k : ℕ)
    (here : level table ≡ suc (suc k)) (in_table : idx < 512) where
  ensure_widened :
      (flags : ℕ)
      → present (s.tables table idx) ≡ true
      → is_big (suc k) (s.tables table idx) ≡ false
      → Ensured s
          (record s { tables = write s.tables table idx (widened (s.tables table idx) flags) })
          level
          table
          idx
          k
          (entry_phys (widened (s.tables table idx) flags))
  ensure_widened flags there small =
      let e = s.tables table idx in
      let wide = widened e flags in
      let (same_present, same_huge, same_big, same_phys) = widened_lem (suc k) e flags in
      let child_level = v.tree.child table idx k in_table here there small in
      let hit = write-hit s.tables table idx wide in
      (
        level,
        Hidden-write s level v table idx wide (suc k) here in_table
            (λ l _ _ _. ap level same_phys ∙ child_level)
            (λ two. same_huge ∙ v.tree.flat table idx in_table (omega (arith, here, two)) there)
            (λ virt on_path.
              write-behind s.tables level table idx wide k virt v.tree here on_path
                (λ _ _. ap level same_phys ∙ child_level)
              ∙ through-alike (suc k) e wide (lookup s.tables k (entry_phys e) virt)
                  (lookup s.tables k (entry_phys wide) virt) virt same_present same_big same_phys
                  (ap (λ c. lookup s.tables k c virt) same_phys)
              ∙ sym (lookup-entry s.tables k table virt idx on_path)),
        record {
          there = ap present hit ∙ same_present ∙ there;
          small = ap (is_big (suc k)) hit ∙ same_big ∙ small;
          leads = ap entry_phys (sym hit);
        },
      )

  ensure_new :
      (flags n : ℕ) (q : Pmm)
      → present (s.tables table idx) ≡ false
      → Fresh s level n q
      → flags % 2 ≡ 1
      → flags < 8
      → Ensured s
          (record s {
            tables = write (fill s.tables n (λ _. 0)) table idx (n + set_bit 1 flags 1);
            pmm = q;
          })
          level
          table
          idx
          k
          (entry_phys (n + set_bit 1 flags 1))
  ensure_new flags n q absent new odd low =
      let entry = n + set_bit 1 flags 1 in
      let (there, not_huge, phys) = fresh_entry n flags new.aligned new.low odd low in
      let level1 = placed level n (suc k) in
      let s1 : Vmm = record s { tables = fill s.tables n (λ _. 0); pmm = q } in
      let filled = Hidden-fill s level v n q (λ _. 0) k new (inr (λ j. refl)) in
      let real : level table ≢ 0 = λ z. omega (arith, here, z) in
      let same_level = filled.stays table real in
      let here1 : level1 table ≡ suc (suc k) = same_level ∙ here in
      let same_entry : s1.tables table idx ≡ s.tables table idx =
        filled.above table idx (omega (arith, here)) in
      let child_level : level1 (entry_phys entry) ≡ suc k =
        ap level1 phys ∙ placed-new level n (suc k) in
      let hit = write-hit s1.tables table idx entry in
      let written =
        Hidden-write s1 level1 filled.valid table idx entry (suc k) here1 in_table
          (λ l _ _ _. child_level) (λ _. not_huge)
          (λ virt on_path.
            write-behind s1.tables level1 table idx entry k virt filled.valid.tree here1 on_path
              (λ _ _. child_level)
            ∙ through-table (suc k) entry (lookup s1.tables k (entry_phys entry) virt) virt there
                (is_big-of_huge (suc k) entry not_huge)
            ∙ ap (λ c. lookup s1.tables k c virt) phys
            ∙ lookup-empty s1.tables k n virt (λ j. rw (==_refl n) refl)
            ∙ sym (
                lookup-entry s1.tables k table virt idx on_path
                ∙ through-none (suc k) (s1.tables table idx)
                    (lookup s1.tables k (entry_phys (s1.tables table idx)) virt) virt
                    (ap present same_entry ∙ absent))) in
      (
        level1,
        Hidden-trans s s1 (record s1 { tables = write s1.tables table idx entry }) level level1
            level1 0 (suc (suc k)) filled written (omega arith),
        record {
          there = ap present hit ∙ there;
          small = ap (is_big (suc k)) hit ∙ is_big-of_huge (suc k) entry not_huge;
          leads = ap entry_phys (sym hit);
        },
      )

  pub ensure_table_lem :
      (flags child : ℕ) (s' : Vmm)
      → flags % 2 ≡ 1
      → flags < 8
      → (present (s.tables table idx) ≡ true → is_big (suc k) (s.tables table idx) ≡ false)
      → ensure_table s table idx flags ≡ some (child, s')
      → Ensured s s' level table idx k child
  unfolding ensure_table
  ensure_table_lem flags child s' odd low small run =
      elim (Bool-cases (present (s.tables table idx))) [
        | inl there ↦
            let step : ensure_table s table idx flags
                ≡ some (
                  entry_phys (widened (s.tables table idx) flags),
                  record s {
                    tables = write s.tables table idx (widened (s.tables table idx) flags);
                  },
                ) =
              rw there refl in
            subst (λ (r : ℕ × Vmm). Ensured s r.1 level table idx k r.0)
              (some_inj.0 (sym step ∙ run)) (ensure_widened flags there (small there))
        | inr absent ↦ (elim (Option-cases (alloc_frame s.pmm)) [
          | inl full ↦
              let step : ensure_table s table idx flags ≡ none = rw (absent, full) refl in
              absurd (none-ne-some (child, s') (sym step ∙ run))
          | inr ((n, q), got) ↦
              let step : ensure_table s table idx flags
                  ≡ some (
                    entry_phys (n + set_bit 1 flags 1),
                    record s {
                      tables = write (fill s.tables n (λ _. 0)) table idx (n + set_bit 1 flags 1);
                      pmm = q;
                    },
                  ) =
                rw (absent, got) refl in
              subst (λ (r : ℕ × Vmm). Ensured s r.1 level table idx k r.0)
                (some_inj.0 (sym step ∙ run))
                (ensure_new flags n q absent (alloc_frame-Fresh s level n q v got) odd low)
        ])
      ]
