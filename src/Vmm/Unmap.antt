-- ===== src/Vmm/Unmap.antt =====
-- unmap and protect of src/mem/vmm.cpp.
use mathlib.Core.Bool.{true≢false}
use retux.Prelude.{
  ℕ, subst, suc, ◌/◌, if◌then◌else◌, true, false, not, none, some, ◌≡◌, ◌⊎◌, refl, sym, ap, ◌∙◌,
  arith, Bool-cases, Option-cases, inl, inr,
}
use retux.Vmm.{Vmm, present, huge, entry_phys, write, get_pml4, split_if_huge, unmap, virt_to_phys}
use retux.Vmm.Walk.{
  Tables, is_big, lookup, index, index-lt, virt_to_phys-lookup, Reaches, Reaches-present,
  Reaches-here, Reaches-step, lookup-Reaches, Reaches-page, index-page,
}
use retux.Vmm.Hidden.{Valid, Hidden-refl}
use retux.Vmm.Split.{split_if_huge_lem}
use retux.Vmm.At.{
  get_pml4-cr3, At, At-level, At-hidden, SameLeaf, SameLeaf-page, with_entry, At-write,
}

-- What `unmap` leaves: no address that reads the entry, and none of the page, shows a frame, and every
-- other one is as it was.
pub record Unmapped (s s' : Vmm) (virt : ℕ) : Type 0 where
  pub level : ℕ → ℕ
  pub valid : Valid s' level
  pub page : (u : ℕ) → u / 4096 ≡ virt / 4096 → virt_to_phys s' u ≡ 0
  pub shared : (u : ℕ) → SameLeaf s' u virt → virt_to_phys s' u ≡ 0
  pub others : (u : ℕ) → ¬ SameLeaf s' u virt → virt_to_phys s' u ≡ virt_to_phys s u

-- An entry that is not present ends the walk before the leaf.
not_SameLeaf :
    (s : Vmm) (virt u k table : ℕ)
    → Reaches s.tables 3 (get_pml4 s) virt (suc k) table
    → present (s.tables table (index (suc k) virt)) ≡ false
    → ¬ SameLeaf s u virt
not_SameLeaf s virt u k table way absent (leaf, _, path, _) =
    true≢false (sym (Reaches-present s.tables 3 (get_pml4 s) virt k table leaf way path) ∙ absent)

absent_top :
    (s : Vmm) (virt u : ℕ)
    → present (s.tables (get_pml4 s) (index 3 virt)) ≡ false
    → u / 4096 ≡ virt / 4096
    → virt_to_phys s u ≡ 0
unfolding virt_to_phys
absent_top s virt u absent same =
    let absent' : present (s.tables (get_pml4 s) (index 3 u)) ≡ false =
      ap (λ i. present (s.tables (get_pml4 s) i)) (index-page 3 u virt same) ∙ absent in
    rw absent' refl

absent_second :
    (s : Vmm) (virt u : ℕ)
    → present (s.tables (get_pml4 s) (index 3 virt)) ≡ true
    → present (s.tables (entry_phys (s.tables (get_pml4 s) (index 3 virt))) (index 2 virt)) ≡ false
    → u / 4096 ≡ virt / 4096
    → virt_to_phys s u ≡ 0
unfolding virt_to_phys
absent_second s virt u there absent same =
    let first = index-page 3 u virt same in
    let there' : present (s.tables (get_pml4 s) (index 3 u)) ≡ true =
      ap (λ i. present (s.tables (get_pml4 s) i)) first ∙ there in
    let absent' : present (s.tables (entry_phys (s.tables (get_pml4 s) (index 3 u))) (index 2 u))
        ≡ false =
      ap (λ i. present (s.tables (entry_phys (s.tables (get_pml4 s) i)) (index 2 u))) first
      ∙ ap (λ i. present (s.tables (entry_phys (s.tables (get_pml4 s) (index 3 virt))) i))
          (index-page 2 u virt same)
      ∙ absent in
    rw (there', absent') refl

abbrev At-next :
    (s s1 : Vmm) (level : ℕ → ℕ) (virt k table : ℕ)
    → (here : At s s1 level virt (suc k) table)
    → present (s1.tables table (index (suc k) virt)) ≡ true
    → is_big (suc k) (s1.tables table (index (suc k) virt)) ≡ false
    → At s s1 level virt k (entry_phys (s1.tables table (index (suc k) virt)))
At-next s s1 level virt k table here there small = record {
  level' = here.level';
  hidden = here.hidden;
  path = Reaches-step s1.tables 3 (get_pml4 s) virt k table here.path there small;
}

empty_entry :
    (t : Tables) (pd virt : ℕ) → present (t pd (index 1 virt)) ≡ false → lookup t 1 pd virt ≡ 0
unfolding lookup
empty_entry t pd virt absent = rw absent refl

-- From the directory on.
unmap_below :
    (s s1 : Vmm) (level : ℕ → ℕ) (virt pd : ℕ)
    → Valid s level
    → At s s1 level virt 1 pd
    → (present (s1.tables pd (index 1 virt)) ≡ true → huge (s1.tables pd (index 1 virt)) ≡ false)
    → (s' : Vmm) × ((if not (present (s1.tables pd (index 1 virt)))
          then some s1
          else some (record s1 {
            tables = write s1.tables (entry_phys (s1.tables pd (index 1 virt))) (index 0 virt) 0;
          }))
        ≡ some s')
      × Unmapped s s' virt
unmap_below s s1 level virt pd v here not_big =
    elim (Bool-cases (present (s1.tables pd (index 1 virt)))) [
      | inr absent ↦
          let root = get_pml4-cr3 s s1 here.hidden.same_root in
          (
            s1,
            rw absent refl,
            record {
              level = here.level';
              valid = here.hidden.valid;
              page = λ u same.
                  virt_to_phys-lookup s1 u
                  ∙ ap (λ c. lookup s1.tables 3 c u) root
                  ∙ lookup-Reaches s1.tables 3 (get_pml4 s) u 1 pd
                      (Reaches-page s1.tables 3 (get_pml4 s) u virt 1 pd same here.path)
                  ∙ empty_entry s1.tables pd u
                      (ap (λ i. present (s1.tables pd i)) (index-page 1 u virt same) ∙ absent);
              shared = λ u leaf. absurd (
                  not_SameLeaf s1 virt u 0 pd
                    (subst (λ c. Reaches s1.tables 3 c virt 1 pd) (sym root) here.path) absent
                    leaf);
              others = λ u _.
                  virt_to_phys-lookup s1 u
                  ∙ ap (λ c. lookup s1.tables 3 c u) root
                  ∙ here.hidden.keeps u
                  ∙ sym (virt_to_phys-lookup s u);
            },
          )
      | inl there ↦
          let pt = entry_phys (s1.tables pd (index 1 virt)) in
          let last = At-next s s1 level virt 0 pd here there (not_big there) in
          let (v', path, new, old) = At-write s s1 level virt pt 0 v last in
          let s' = with_entry s1 pt virt 0 in
          (
            s',
            rw there refl,
            record {
              level = last.level';
              valid = v';
              page = λ u same. new u (SameLeaf-page s' u virt pt path same);
              shared = new;
              others = old;
            },
          )
    ]

-- Under the same conditions on tables, unmap halts or succeeds; then the tables have their levels,
-- no address of the page and none whose walk reads the entry of the one unmapped shows a frame,
-- and every other address shows what it did, also where a huge page was split.
pub unmap_lem :
    (s : Vmm) (level : ℕ → ℕ) (virt : ℕ)
    → Valid s level
    → (unmap s virt ≡ none) ⊎ ((s' : Vmm) × (unmap s virt ≡ some s') × Unmapped s s' virt)
unfolding unmap
unmap_lem s level virt v =
    let root = get_pml4 s in
    let e4 = s.tables root (index 3 virt) in
    let pdpt = entry_phys e4 in
    let e3 = s.tables pdpt (index 2 virt) in
    let pd = entry_phys e3 in
    let start : At s s level virt 3 root = record {
      level' = level;
      hidden = Hidden-refl s level 4 v;
      path = Reaches-here s.tables 3 root virt;
    } in
    elim (Bool-cases (present e4)) [
      | inr absent ↦ inr (
        s,
        rw absent refl,
        record {
          level = level;
          valid = v;
          page = λ u. absent_top s virt u absent;
          shared = λ u leaf. absurd (not_SameLeaf s virt u 2 root start.path absent leaf);
          others = λ u _. refl;
        },
      )
      | inl there4 ↦
          let at2 = At-next s s level virt 2 root start there4 refl in
          (elim (Bool-cases (present e3)) [
            | inr absent ↦ inr (
              s,
              rw (there4, absent) refl,
              record {
                level = level;
                valid = v;
                page = λ u. absent_second s virt u there4 absent;
                shared = λ u leaf. absurd (not_SameLeaf s virt u 1 pdpt at2.path absent leaf);
                others = λ u _. refl;
              },
            )
            | inl there3 ↦
                let level_pdpt = At-level s s level virt 2 pdpt v at2 in
                let flat = v.tree.flat pdpt (index 2 virt) (index-lt 2 virt) level_pdpt there3 in
                let at1 = At-next s s level virt 1 pdpt at2 there3 flat in
                let level_pd = At-level s s level virt 1 pd v at1 in
                (elim (Option-cases (split_if_huge s pd (index 1 virt))) [
                  | inl full ↦ inl (rw (there4, there3, full) refl)
                  | inr (s1, run) ↦
                      let (level1, hidden, not_big) =
                        split_if_huge_lem s at1.level' v pd (index 1 virt) level_pd
                          (index-lt 1 virt) s1 run in
                      let at1' =
                        At-hidden s s level virt 1 pd v at1 s1 level1 2 hidden (omega arith)
                          (omega arith) in
                      let (s', below, done) = unmap_below s s1 level virt pd v at1' not_big in
                      inr (s', rw (there4, there3, run) below, done)
                ])
          ])
    ]
