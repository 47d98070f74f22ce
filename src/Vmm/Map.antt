-- ===== src/Vmm/Map.antt =====
-- map of src/mem/vmm.cpp: the tables on the way to an address, and the entry at its end.
use retux.Prelude.{
  ℕ, ◌+◌, ◌*◌, ◌/◌, ◌%◌, ◌^◌, true, Option, none, some, ◌≡◌, ◌⊎◌, ◌<◌, refl, ◌∙◌, arith,
  Option-cases, inl, inr,
}
use retux.Pmm.{is_used}
use retux.Vmm.{
  Vmm, present, entry_phys, write, get_pml4, ensure_table, split_if_huge, intermediate, map_into,
  map, virt_to_phys,
}
use retux.Vmm.Tables.{write-hit}
use retux.Vmm.Walk.{Reaches, index, index-lt, Reaches-here}
use retux.Vmm.Hidden.{Valid, Hidden-refl}
use retux.Vmm.At.{
  SameLeaf, with_entry, SameLeaf-page, At, At-Valid, At-level, At-hidden, At-ensure, At-write,
}
use retux.Vmm.Split.{split_if_huge_lem}

-- The tables of a walk that a map makes, or the halt of the allocator.
abbrev Made : Vmm → (level : ℕ → ℕ) → (virt phys flags : ℕ) → Option Vmm → Type 0
Made s level virt phys flags r =
    (r ≡ none)
    ⊎ ((s' : Vmm) × (table : ℕ) × At s s' level virt 0 table
        × (r
            ≡ some (record s' {
              tables = write s'.tables table (index 0 virt) (phys / 2 ^ 12 * 2 ^ 12 + flags);
            })))

map_into_lem :
    (s : Vmm) (level : ℕ → ℕ) (virt phys flags : ℕ)
    → Valid s level
    → Made s level virt phys flags (map_into s (get_pml4 s) virt phys flags)
unfolding map_into
map_into_lem s level virt phys flags v =
    let start : At s s level virt 3 (get_pml4 s) = record {
      level' = level;
      hidden = Hidden-refl s level 4 v;
      path = Reaches-here s.tables 3 (get_pml4 s) virt;
    } in
    let more = intermediate flags in
    elim (Option-cases (ensure_table s (get_pml4 s) (index 3 virt) more)) [
      | inl full ↦ inl (rw full refl)
      | inr ((pdpt, s1), run1) ↦
          let at2 =
            At-ensure s s s1 level virt 2 (get_pml4 s) flags pdpt v (omega arith) start (λ _. refl)
              run1 in
          let level_pdpt = At-level s s1 level virt 2 pdpt v at2 in
          let v1 = At-Valid s s1 level virt 2 pdpt v at2 in
          (elim (Option-cases (ensure_table s1 pdpt (index 2 virt) more)) [
            | inl full ↦ inl (rw (run1, full) refl)
            | inr ((pd, s2), run2) ↦
                let at1 =
                  At-ensure s s1 s2 level virt 1 pdpt flags pd v (omega arith) at2
                    (v1.tree.flat pdpt (index 2 virt) (index-lt 2 virt) level_pdpt) run2 in
                let level_pd = At-level s s2 level virt 1 pd v at1 in
                let v2 = At-Valid s s2 level virt 1 pd v at1 in
                (elim (Option-cases (split_if_huge s2 pd (index 1 virt))) [
                  | inl full ↦ inl (rw (run1, run2, full) refl)
                  | inr (s3, run3) ↦
                      let (level3, hidden, not_big) =
                        split_if_huge_lem s2 at1.level' v2 pd (index 1 virt) level_pd
                          (index-lt 1 virt) s3 run3 in
                      let at1' =
                        At-hidden s s2 level virt 1 pd v at1 s3 level3 2 hidden (omega arith)
                          (omega arith) in
                      (elim (Option-cases (ensure_table s3 pd (index 1 virt) more)) [
                        | inl full ↦ inl (rw (run1, run2, run3, full) refl)
                        | inr ((pt, s4), run4) ↦ inr (
                          s4,
                          pt,
                          At-ensure s s3 s4 level virt 0 pd flags pt v (omega arith) at1' not_big
                              run4,
                          rw (run1, run2, run3, run4) refl,
                        )
                      ])
                ])
          ])
    ]

-- Flags of a leaf that is present, none of them a bit of the address.
abbrev pub Present : ℕ → Type 0
Present flags = (flags % 2 ≡ 1) × (flags % 2 ^ 63 < 4096) × (flags < 2 ^ 64)

leaf_lem :
    (phys flags : ℕ)
    → phys < 2 ^ 52
    → Present flags
    → (present (phys / 2 ^ 12 * 2 ^ 12 + flags) ≡ true)
      × (entry_phys (phys / 2 ^ 12 * 2 ^ 12 + flags) ≡ phys / 4096 * 4096)
leaf_lem phys flags low (odd, plain, word) = (ground (arith, odd), omega (arith, low, plain, word))

-- What map leaves: the frame at every address that reads the entry of `virt`, in all of its page and
-- wherever else a table on the way is shared, and at no other address.
pub record Mapped (s s' : Vmm) (virt phys flags : ℕ) : Type 0 where
  pub level : ℕ → ℕ
  pub valid : Valid s' level
  pub page : (u : ℕ) → u / 4096 ≡ virt / 4096 → SameLeaf s' u virt
  pub table : ℕ
  pub path : Reaches s'.tables 3 (get_pml4 s') virt 0 table
  pub entry : s'.tables table (index 0 virt) ≡ phys / 4096 * 4096 + flags
  pub shown : (u : ℕ) → SameLeaf s' u virt → virt_to_phys s' u ≡ phys / 4096 * 4096 + u % 4096
  pub others : (u : ℕ) → ¬ SameLeaf s' u virt → virt_to_phys s' u ≡ virt_to_phys s u
  pub in_use : (g : ℕ) → is_used s.pmm.bitmap g ≡ true → is_used s'.pmm.bitmap g ≡ true

-- On tables that have their levels below the root, in frames that are not free, with no page of 1
-- GiB, for a frame below 2^52 and flags of a present leaf, map halts or succeeds; then the tables
-- have their levels, the entry that the walk reads holds the frame and the flags, every address
-- whose walk reads the entry of the one mapped, as all of its page do, shows the frame, every
-- other address shows what it did, and no frame in use becomes free.
pub map_lem :
    (s : Vmm) (level : ℕ → ℕ) (virt phys flags : ℕ)
    → Valid s level
    → phys < 2 ^ 52
    → Present flags
    → (map s virt phys flags ≡ none)
      ⊎ ((s' : Vmm) × (map s virt phys flags ≡ some s') × Mapped s s' virt phys flags)
unfolding map
map_lem s level virt phys flags v low_phys flag = elim (map_into_lem s level virt phys flags v) [
  | inl full ↦ inl full
  | inr (s1, table, here, run) ↦
      let e = phys / 2 ^ 12 * 2 ^ 12 + flags in
      let (there, frame) = leaf_lem phys flags low_phys flag in
      let (v', path, new, old) = At-write s s1 level virt table e v here in
      let s' = with_entry s1 table virt e in
      inr (
        s',
        run,
        record {
          level = here.level';
          valid = v';
          page = λ u same. SameLeaf-page s' u virt table path same;
          table = table;
          path = path;
          entry = write-hit s1.tables table (index 0 virt) e;
          shown = λ u same. new u same ∙ rw (there, frame) refl;
          others = old;
          in_use = here.hidden.in_use;
        },
      )
]
