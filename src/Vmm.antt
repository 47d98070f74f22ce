-- ===== src/Vmm.antt =====
-- src/mem/vmm.cpp: the page tables that the processor walks. A table is named by its physical
-- address, through which the physmap reaches it, and is the function from the index to the entry. An
-- outer `none` is that the frame allocator halts. A `|` of numbers that share no bit is a sum; the
-- flushes of the TLB are left out.
pub mod Walk
pub mod Tables
pub mod Entries
pub mod Hidden
pub mod Ensure
pub mod Split
pub mod At
pub mod Map
pub mod Unmap
pub mod Protect
pub mod Examples
use retux.Prelude.{
  ℕ, zero, suc, ◌+◌, ◌-◌, ◌*◌, ◌/◌, ◌%◌, ◌^◌, ◌==◌, ltb, if◌then◌else◌, Bool, true, false, not,
  ◌&&◌, ◌||◌, Option, none, some,
}
use retux.Pmm.{Pmm, alloc_frame}
use retux.Vfs.{◌>>=◌}

pub record Vmm : Type 0 where
  pub tables : ℕ → ℕ → ℕ
  pub cr3 : ℕ
  pub pmm : Pmm

-- PRESENT and HUGE_PAGE.
abbrev pub present : ℕ → Bool
present e = e % 2 == 1

abbrev pub huge : ℕ → Bool
huge e = e / 2 ^ 7 % 2 == 1

-- Bits 51 to 12 of an entry.
abbrev pub entry_phys : ℕ → ℕ
entry_phys e = e / 2 ^ 12 % 2 ^ 40 * 2 ^ 12

unfoldable pub get_pml4 : Vmm → ℕ
get_pml4 s = entry_phys s.cr3

-- `table[idx] = e`
abbrev pub write : (ℕ → ℕ → ℕ) → (table idx e : ℕ) → ℕ → ℕ → ℕ
write t table idx e f i = if f == table && i == idx then e else t f i

-- A loop that writes all entries of a table.
abbrev pub fill : (ℕ → ℕ → ℕ) → (table : ℕ) → (ℕ → ℕ) → ℕ → ℕ → ℕ
fill t table entry f i = if f == table then entry i else t f i

-- `e |= flags & bit` for one bit.
abbrev pub set_bit : (bit e flags : ℕ) → ℕ
set_bit bit e flags = if flags / bit % 2 == 1 && e / bit % 2 == 0 then e + bit else e

-- WRITABLE is bit 1 and USER bit 2.
abbrev pub widened : (e flags : ℕ) → ℕ
widened e flags = set_bit 4 (set_bit 2 e flags) flags

-- The table below, and the state in which it is there.
unfoldable pub ensure_table : Vmm → (table idx flags : ℕ) → Option (ℕ × Vmm)
ensure_table s table idx flags =
    let e = s.tables table idx in
    let wide = widened e flags in
    if not (present e)
    then (alloc_frame s.pmm >>= λ got.
        let entry = got.0 + set_bit 1 flags 1 in
        some (
          entry_phys entry,
          record s { tables = write (fill s.tables got.0 (λ _. 0)) table idx entry; pmm = got.1 },
        ))
    else some (entry_phys wide, record s { tables = write s.tables table idx wide })

-- The flags of a huge page without its bit 7; bit 12 is not among them.
abbrev pub small_flags : ℕ → ℕ
small_flags e = e % 2 ^ 12 - e / 2 ^ 7 % 2 * 2 ^ 7

unfoldable pub split_huge_page : Vmm → (pd pd_idx : ℕ) → Option Vmm
split_huge_page s pd pd_idx =
    let entry = s.tables pd pd_idx in
    let base = entry / 2 ^ 21 % 2 ^ 31 * 2 ^ 21 in
    (alloc_frame s.pmm >>= λ got. some (record s {
      tables =
          write (fill s.tables got.0 (λ i. base + i * 2 ^ 12 + small_flags entry)) pd pd_idx
            (got.0 + 3);
      pmm = got.1;
    }))

-- `intermediate`: PRESENT, WRITABLE and the USER of the leaf.
abbrev pub intermediate : ℕ → ℕ
intermediate flags = 3 + flags / 4 % 2 * 4

unfoldable pub split_if_huge : Vmm → (pd pd_idx : ℕ) → Option Vmm
split_if_huge s pd pd_idx =
    if present (s.tables pd pd_idx) && huge (s.tables pd pd_idx)
    then split_huge_page s pd pd_idx
    else some s

unfoldable pub map_into : Vmm → (pml4 virt phys flags : ℕ) → Option Vmm
map_into s pml4 virt phys flags = do
  pdpt ← ensure_table s pml4 (virt / 2 ^ 39 % 512) (intermediate flags)
  pd ← ensure_table pdpt.1 pdpt.0 (virt / 2 ^ 30 % 512) (intermediate flags)
  s' ← split_if_huge pd.1 pd.0 (virt / 2 ^ 21 % 512)
  pt ← ensure_table s' pd.0 (virt / 2 ^ 21 % 512) (intermediate flags)
  some (record pt.1 {
    tables = write pt.1.tables pt.0 (virt / 2 ^ 12 % 512) (phys / 2 ^ 12 * 2 ^ 12 + flags);
  })

unfoldable pub map : Vmm → (virt phys flags : ℕ) → Option Vmm
map s virt phys flags = map_into s (get_pml4 s) virt phys flags

pub unmap : Vmm → (virt : ℕ) → Option Vmm
unmap s virt =
    let e4 = s.tables (get_pml4 s) (virt / 2 ^ 39 % 512) in
    let pdpt = entry_phys e4 in
    let e3 = s.tables pdpt (virt / 2 ^ 30 % 512) in
    let pd = entry_phys e3 in
    if not (present e4)
    then some s
    else if not (present e3)
    then some s
    else (split_if_huge s pd (virt / 2 ^ 21 % 512) >>= λ s'.
        let e2 = s'.tables pd (virt / 2 ^ 21 % 512) in
        if not (present e2)
        then some s'
        else some (record s' { tables = write s'.tables (entry_phys e2) (virt / 2 ^ 12 % 512) 0 }))

unfoldable pub virt_to_phys : Vmm → (virt : ℕ) → ℕ
virt_to_phys s virt =
    let e4 = s.tables (get_pml4 s) (virt / 2 ^ 39 % 512) in
    let e3 = s.tables (entry_phys e4) (virt / 2 ^ 30 % 512) in
    let e2 = s.tables (entry_phys e3) (virt / 2 ^ 21 % 512) in
    let e1 = s.tables (entry_phys e2) (virt / 2 ^ 12 % 512) in
    if present e4
    then if present e3
      then if huge e3
        then entry_phys e3 / 2 ^ 30 * 2 ^ 30 + virt % 2 ^ 30
        else if present e2
        then if huge e2
          then entry_phys e2 / 2 ^ 21 * 2 ^ 21 + virt % 2 ^ 21
          else if present e1
          then entry_phys e1 + virt % 2 ^ 12
          else 0
        else 0
      else 0
    else 0

pub protect : Vmm → (virt flags : ℕ) → Option Vmm
protect s virt flags =
    if virt_to_phys s virt == 0 then some s else map s virt (virt_to_phys s virt) flags
