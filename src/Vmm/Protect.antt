-- ===== src/Vmm/Protect.antt =====
-- protect of src/mem/vmm.cpp.
use retux.Prelude.{
  ℕ, ◌/◌, ◌%◌, ◌^◌, ◌==◌, none, some, ◌≡◌, ◌⊎◌, ◌<◌, refl, ◌∙◌, arith, Bool-cases, inl, inr,
}
use retux.Vmm.{Vmm, present, huge, entry_phys, get_pml4, protect, virt_to_phys}
use retux.Vmm.Hidden.{Valid}
use retux.Vmm.Map.{Present, Mapped, map_lem}

-- An address keeps its place in the page.
phys_shape :
    (s : Vmm) (virt : ℕ)
    → (virt_to_phys s virt ≡ 0)
      ⊎ ((virt_to_phys s virt % 4096 ≡ virt % 4096) × (virt_to_phys s virt < 2 ^ 52))
unfolding virt_to_phys
phys_shape s virt =
    let e4 = s.tables (get_pml4 s) (virt / 2 ^ 39 % 512) in
    let e3 = s.tables (entry_phys e4) (virt / 2 ^ 30 % 512) in
    let e2 = s.tables (entry_phys e3) (virt / 2 ^ 21 % 512) in
    let e1 = s.tables (entry_phys e2) (virt / 2 ^ 12 % 512) in
    elim (Bool-cases (present e4)) [
      | inr absent ↦ inl (rw absent refl)
      | inl a4 ↦ (elim (Bool-cases (present e3)) [
        | inr absent ↦ inl (rw (a4, absent) refl)
        | inl a3 ↦ (elim (Bool-cases (huge e3)) [
          | inl big ↦ inr (rw (a4, a3, big) (omega arith, omega arith))
          | inr b3 ↦ (elim (Bool-cases (present e2)) [
            | inr absent ↦ inl (rw (a4, a3, b3, absent) refl)
            | inl a2 ↦ (elim (Bool-cases (huge e2)) [
              | inl big ↦ inr (rw (a4, a3, b3, a2, big) (omega arith, omega arith))
              | inr b2 ↦ (elim (Bool-cases (present e1)) [
                | inr absent ↦ inl (rw (a4, a3, b3, a2, b2, absent) refl)
                | inl a1 ↦ inr (rw (a4, a3, b3, a2, b2, a1) (omega arith, omega arith))
              ])
            ])
          ])
        ])
      ])
    ]

-- What `protect` leaves: a page that is not mapped as it was, and another one with its frame and the
-- new flags in the entry.
abbrev pub Protected : (s s' : Vmm) (virt flags : ℕ) → Type 0
Protected s s' virt flags =
    ((virt_to_phys s virt ≡ 0) × (s' ≡ s))
    ⊎ (Mapped s s' virt (virt_to_phys s virt) flags × (virt_to_phys s' virt ≡ virt_to_phys s virt))

-- Under the same conditions on tables, with flags of a present leaf, protect halts or succeeds;
-- then nothing has changed where the address showed no frame, and otherwise the entry that its
-- walk reads holds its frame and the flags, the address shows what it did, and so does every
-- address whose walk does not read that entry.
pub protect_lem :
    (s : Vmm) (level : ℕ → ℕ) (virt flags : ℕ)
    → Valid s level
    → Present flags
    → (protect s virt flags ≡ none)
      ⊎ ((s' : Vmm) × (protect s virt flags ≡ some s') × Protected s s' virt flags)
unfolding protect
protect_lem s level virt flags v flag = elim (phys_shape s virt) [
  | inl unmapped ↦ inr (s, rw unmapped refl, inl (unmapped, refl))
  | inr (offset, low_phys) ↦ (elim (Bool-cases (virt_to_phys s virt == 0)) [
    | inl unmapped ↦ inr (s, rw unmapped refl, inl (ground (arith, unmapped), refl))
    | inr there ↦ (elim (map_lem s level virt (virt_to_phys s virt) flags v low_phys flag) [
      | inl full ↦ inl (rw (there, full) refl)
      | inr (s', run, m) ↦ inr (
        s',
        rw (there, run) refl,
        inr (m, m.shown virt (m.page virt refl) ∙ omega (arith, offset)),
      )
    ])
  ])
]
