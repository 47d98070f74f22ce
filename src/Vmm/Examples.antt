-- ===== src/Vmm/Examples.antt =====
-- Tables under src/mem/vmm.cpp as src/boot/boot.asm shares them: one directory, whose first 2 MiB are
-- a huge page, stands below entry 0 of the root and below entry 384.
use retux.Prelude.{
  ℕ, ◌+◌, ◌*◌, ◌/◌, ◌^◌, ◌==◌, ltb, if◌then◌else◌, true, none, some, ◌≡◌, ◌≢◌, ◌⊎◌, refl, arith,
  Bool-cases, inl, inr, ==_iff, update,
}
use retux.Vfs.{◌>>=◌}
use retux.Pmm.{Pmm, is_used, alloc_frame, scan, set_used}
use retux.Vmm.{
  Vmm, write, get_pml4, map_into, ensure_table, split_if_huge, split_huge_page, map, unmap, protect,
  virt_to_phys,
}
use retux.Vmm.Walk.{Tables, Tree}
use retux.Vmm.Tables.{write-Tree}
use retux.Vmm.Hidden.{Valid}
use retux.Vmm.Map.{Present, Mapped, map_lem}
use retux.Vmm.Unmap.{Unmapped, unmap_lem}
use retux.Vmm.Protect.{Protected, protect_lem}

-- The frames from 16 on are free.
abbrev frames : Pmm
frames = record { bitmap = λ i. if ltb i 2 then 255 else 0; total_frames = 100; used_frames = 16 }

abbrev pub level : ℕ → ℕ
level = update (update (update (update (λ _. 0) 0x1000 4) 0x2000 3) 0x4000 3) 0x3000 2

abbrev none_yet : Tables
none_yet f i = 0

abbrev one : Tables
one = write none_yet 0x3000 0 0x83

abbrev two : Tables
two = write one 0x2000 0 0x3003

abbrev three : Tables
three = write two 0x4000 0 0x3003

abbrev four : Tables
four = write three 0x1000 0 0x2003

abbrev pub state : Vmm
state = record { tables = write four 0x1000 384 0x4003; cr3 = 0x1000; pmm = frames }

none_yet-Tree : Tree none_yet level
none_yet-Tree = record { child = λ f i l _ _ there _. cc; flat = λ f i _ _ there. cc }

one-Tree : Tree one level
one-Tree =
    write-Tree none_yet level none_yet-Tree 0x3000 0 0x83 1 refl (omega arith) (λ l _ _ small. cc)
      (λ z. absurd (omega (arith, z)))

two-Tree : Tree two level
two-Tree =
    write-Tree one level one-Tree 0x2000 0 0x3003 2 refl (omega arith) (λ l _ _ _. refl) (λ _. refl)

three-Tree : Tree three level
three-Tree =
    write-Tree two level two-Tree 0x4000 0 0x3003 2 refl (omega arith) (λ l _ _ _. refl) (λ _. refl)

four-Tree : Tree four level
four-Tree =
    write-Tree three level three-Tree 0x1000 0 0x2003 3 refl (omega arith) (λ l _ _ _. refl)
      (λ z. absurd (omega (arith, z)))

a_table : (f : ℕ) → level f ≢ 0 → is_used frames.bitmap (f / 4096) ≡ true
unfolding is_used
a_table f real = elim (Bool-cases (0x3000 == f)) [
  | inl here ↦ rw (← (==_iff 0x3000 f).0 here) refl
  | inr no3 ↦ (elim (Bool-cases (0x2000 == f)) [
    | inl here ↦ rw (← (==_iff 0x2000 f).0 here) refl
    | inr no2 ↦ (elim (Bool-cases (0x1000 == f)) [
      | inl here ↦ rw (← (==_iff 0x1000 f).0 here) refl
      | inr no1 ↦ (elim (Bool-cases (0x4000 == f)) [
        | inl here ↦ rw (← (==_iff 0x4000 f).0 here) refl
        | inr no4 ↦
            let nowhere : level f ≡ 0 = rw (no3, no4, no2, no1) refl in absurd (real nowhere)
      ])
    ])
  ])
]

pub state-Valid : Valid state level
unfolding get_pml4
state-Valid = record {
  tree =
      write-Tree four level four-Tree 0x1000 384 0x4003 3 refl (omega arith) (λ l _ _ _. refl)
        (λ z. absurd (omega (arith, z)));
  root = refl;
  bytes = λ i. ground arith;
  taken = λ f real. a_table f real;
}

flags-Present : Present 7
flags-Present = (refl, omega arith, omega arith)

map_lem_example :
    (map state 0x5123 0x8000 7 ≡ none)
    ⊎ ((s' : Vmm) × (map state 0x5123 0x8000 7 ≡ some s') × Mapped state s' 0x5123 0x8000 7)
map_lem_example = map_lem state level 0x5123 0x8000 7 state-Valid (omega arith) flags-Present

unmap_lem_example :
    (unmap state 0x5123 ≡ none)
    ⊎ ((s' : Vmm) × (unmap state 0x5123 ≡ some s') × Unmapped state s' 0x5123)
unmap_lem_example = unmap_lem state level 0x5123 state-Valid

protect_lem_example :
    (protect state 0x5123 7 ≡ none)
    ⊎ ((s' : Vmm) × (protect state 0x5123 7 ≡ some s') × Protected state s' 0x5123 7)
protect_lem_example = protect_lem state level 0x5123 7 state-Valid flags-Present

-- The huge page shows the addresses below 2 MiB as they are.
huge_page : virt_to_phys state 0x5123 ≡ 0x5123
unfolding virt_to_phys get_pml4
huge_page = refl

-- The page is moved, and its neighbour in the same huge page is not.
map_moves :
    (map state 0x5123 0x8000 7 >>= λ s'.
    some (virt_to_phys s' 0x5123 + virt_to_phys s' 0x6123 * 2 ^ 32))
    ≡ some (0x8123 + 0x6123 * 2 ^ 32)
unfolding map map_into ensure_table split_if_huge split_huge_page virt_to_phys get_pml4 alloc_frame
    scan is_used set_used
map_moves = refl

-- The other way to the directory shows the page that is moved.
map_moves_alias :
    (map state 0x5123 0x8000 7 >>= λ s'. some (virt_to_phys s' 0xffffc00000005123)) ≡ some 0x8123
unfolding map map_into ensure_table split_if_huge split_huge_page virt_to_phys get_pml4 alloc_frame
    scan is_used set_used
map_moves_alias = refl
