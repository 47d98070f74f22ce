-- ===== src/Elf/Segment.antt =====
-- What load_segment of src/task/elf.cpp copies to a page, and the pages that it maps.
use retux.Prelude.{
  ℕ, zero, suc, ◌+◌, ◌-◌, ◌*◌, ◌/◌, ◌%◌, ◌^◌, ◌==◌, ltb, Bool, true, false, ◌||◌, none, some, ◌≡◌,
  ◌⊎◌, ◌≤◌, refl, arith, Bool-cases, inl, inr,
}
use retux.Pmm.{is_used}
use retux.Vmm.Hidden.{Valid}
use retux.Vmm.Map.{Present}
use retux.UserMem.{Space, page_down, pages_between}
use retux.UserMem.Calls.{pages, page_up_lem, Grown, Grown-refl, Grown-both, new_page_lem}
use retux.Elf.{Phdr, page_bytes, load_page, load_pages, segment_flags, load_segment}

-- The header is refused.
abbrev pub refused : Phdr → (file_size : ℕ) → Bool
refused ph file_size =
    ltb ph.p_memsz ph.p_filesz
    || ltb file_size ph.p_offset
    || ltb (file_size - ph.p_offset) ph.p_filesz

segment_flags-Present : (p_flags : ℕ) → Present (segment_flags p_flags)
segment_flags-Present p_flags = elim (Bool-cases (p_flags / 2 % 2 == 0)) [
  | inl read_only ↦ (elim (Bool-cases (p_flags % 2 == 0)) [
    | inl data_only ↦ rw (read_only, data_only) (refl, omega arith, omega arith)
    | inr code ↦ rw (read_only, code) (refl, omega arith, omega arith)
  ])
  | inr writable ↦ (elim (Bool-cases (p_flags % 2 == 0)) [
    | inl data_only ↦ rw (writable, data_only) (refl, omega arith, omega arith)
    | inr code ↦ rw (writable, code) (refl, omega arith, omega arith)
  ])
]

load_pages_lem :
    (file : ℕ → ℕ) (ph : Phdr) (rounds : ℕ) (sp : Space) (level : ℕ → ℕ) (a flags : ℕ)
    → Valid sp.vm level
    → is_used sp.vm.pmm.bitmap 0 ≡ true
    → Present flags
    → (load_pages rounds file ph flags (a * 4096) sp ≡ none)
      ⊎ ((sp' : Space) × (load_pages rounds file ph flags (a * 4096) sp ≡ some sp')
          × Grown sp sp' a rounds)
unfolding load_pages load_page
load_pages_lem file ph zero sp level a flags v null flag = inr (sp, refl, Grown-refl sp level a v)
load_pages_lem file ph (suc rounds) sp level a flags v null flag =
    elim (new_page_lem (page_bytes file ph (a * 4096)) sp level a flags v null flag) [
      | inl full ↦ inl (rw full refl)
      | inr (sp1, run, g1) ↦
          let next : a * 4096 + 4096 ≡ (a + 1) * 4096 = omega arith in
          (elim (load_pages_lem file ph rounds sp1 g1.level (a + 1) flags g1.valid
            (g1.in_use 0 null) flag) [
              | inl full ↦ inl (rw (run, next, full) refl)
              | inr (sp', rest, g2) ↦
                  inr (sp', rw (run, next, rest) refl, Grown-both sp sp1 sp' a rounds g1 g2)
            ])
    ]

-- On tables that have their levels below the root, in frames that are not free, with no page of 1
-- GiB, and with frame 0 not free, for a segment that ends a page below 2^64, load_segment fails
-- with nothing changed if the header asks for more of the file than memory or than the file has,
-- and otherwise halts or succeeds; then every address from the page of the start to the page of
-- the end is mapped, every address that was mapped still is, and the frames in use stay in use and
-- keep their bytes.
pub load_segment_lem :
    (file : ℕ → ℕ) (size : ℕ) (ph : Phdr) (sp : Space) (level : ℕ → ℕ)
    → Valid sp.vm level
    → is_used sp.vm.pmm.bitmap 0 ≡ true
    → ph.p_vaddr + ph.p_memsz + 4096 ≤ 2 ^ 64
    → ((refused ph size ≡ true) × (load_segment file size ph sp ≡ some (false, sp)))
      ⊎ ((refused ph size ≡ false)
          × ((load_segment file size ph sp ≡ none)
              ⊎ ((sp' : Space) × (load_segment file size ph sp ≡ some (true, sp'))
                  × Grown sp sp'
                      (ph.p_vaddr / 4096)
                      (pages (ph.p_vaddr + ph.p_memsz) - ph.p_vaddr / 4096))))
unfolding load_segment page_down
load_segment_lem file size ph sp level v null user = elim (Bool-cases (refused ph size)) [
  | inl bad ↦ inl (bad, ground (arith, bad))
  | inr good ↦
      let a = ph.p_vaddr / 4096 in
      let b = pages (ph.p_vaddr + ph.p_memsz) in
      let fits : ltb ph.p_memsz ph.p_filesz ≡ false = ground (arith, good) in
      let there : (ltb size ph.p_offset || ltb (size - ph.p_offset) ph.p_filesz) ≡ false =
        ground (arith, good) in
      let no_wrap : (ph.p_vaddr + ph.p_memsz) % 2 ^ 64 ≡ ph.p_vaddr + ph.p_memsz =
        omega (arith, user) in
      let up = page_up_lem (ph.p_vaddr + ph.p_memsz) (omega (arith, user)) in
      let count : pages_between (a * 4096) (b * 4096) ≡ b - a = omega arith in
      inr (
        good,
        (elim (load_pages_lem file ph (b - a) sp level a (segment_flags ph.p_flags) v null
            (segment_flags-Present ph.p_flags)) [
              | inl full ↦ inl (rw (fits, there, no_wrap, up, count, full) refl)
              | inr (sp', run, g) ↦ inr (sp', rw (fits, there, no_wrap, up, count, run) refl, g)
            ]),
      )
]
