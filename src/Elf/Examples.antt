-- ===== src/Elf/Examples.antt =====
-- A file for src/task/elf.cpp with two segments, the first on two pages, over the tables of Vmm's examples.
use retux.Prelude.{
  true, false, none, ◌⊎◌, ℕ, ◌+◌, ◌-◌, ◌*◌, ◌/◌, ◌%◌, ◌^◌, ltb, leb, if◌then◌else◌, ◌&&◌, some, ◌≡◌,
  refl, arith,
}
use retux.Vfs.{◌>>=◌}
use retux.Pmm.{alloc_frame, is_used, scan, set_used}
use retux.Vmm.{map, map_into, ensure_table, split_if_huge, split_huge_page, virt_to_phys, get_pml4}
use retux.Vmm.Examples.{state, level, state-Valid}
use retux.UserMem.{Space, put_page, page_up, page_down}
use retux.Elf.{
  Phdr, phdr_at, is_supported, has_table, load_all, parse_and_load, load_segment, load_pages,
  load_page, page_bytes,
}
use retux.Elf.Segment.{refused, load_segment_lem}
use retux.UserMem.Calls.{Grown}
use retux.Partitions.{number_at}

-- A number of `n` bytes, the lowest first, over the other bytes.
abbrev with_number : (n at value : ℕ) → (ℕ → ℕ) → ℕ → ℕ
with_number n at value rest a =
    if leb at a && ltb a (at + n) then value / 256 ^ (a - at) % 256 else rest a

abbrev with_phdr : (at : ℕ) → Phdr → (ℕ → ℕ) → ℕ → ℕ
with_phdr at ph rest = with_number 4 at ph.p_type (
    with_number 4 (at + 4) ph.p_flags (
      with_number 8 (at + 8) ph.p_offset (
        with_number 8 (at + 16) ph.p_vaddr
          (with_number 8 (at + 32) ph.p_filesz (with_number 8 (at + 40) ph.p_memsz rest)))))

abbrev segment : Phdr
segment = record {
  p_type = 1;
  p_flags = 6;
  p_offset = 10;
  p_vaddr = 0x5ff8;
  p_filesz = 20;
  p_memsz = 40;
}

abbrev code : Phdr
code = record {
  p_type = 1;
  p_flags = 5;
  p_offset = 64;
  p_vaddr = 0x9040;
  p_filesz = 112;
  p_memsz = 112;
}

-- Two segments, the table of headers in the second.
abbrev file : ℕ → ℕ
file = with_number 4 0 0x464c457f (
    with_number 2 4 0x102 (
      with_number 2 16 2 (
        with_number 2 18 62 (
          with_number 8 24 0x9050 (
            with_number 8 32 64 (
              with_number 2 54 56
                (with_number 2 56 2 (with_phdr 64 segment (with_phdr 120 code (λ a. 9))))))))))

abbrev space : Space
space = record { vm = state; memory = λ a. 7 }

-- The last byte of the file's part, and the first that is cleared.
two_pages :
    (load_segment (λ a. a % 256) 100 segment space >>= λ done. some (
      done.1.memory (virt_to_phys done.1.vm 0x600b)
      + done.1.memory (virt_to_phys done.1.vm 0x600c) * 2 ^ 8))
    ≡ some 29
unfolding load_segment load_pages load_page put_page page_bytes page_up page_down map map_into
    ensure_table split_if_huge split_huge_page virt_to_phys get_pml4 alloc_frame scan is_used
    set_used
two_pages = refl

-- The entry, where the table of headers is, and the end.
two_segments :
    (parse_and_load file 176 space >>= λ done.
    done.0 >>= λ out. some (out.entry + out.phdr_vaddr * 2 ^ 16 + out.highest_addr * 2 ^ 32))
    ≡ some (0x9050 + 0x9040 * 2 ^ 16 + 0xa000 * 2 ^ 32)
unfolding parse_and_load is_supported has_table load_all phdr_at number_at load_segment load_pages
    load_page put_page page_bytes page_up page_down map map_into ensure_table split_if_huge
    split_huge_page virt_to_phys get_pml4 alloc_frame scan is_used set_used
two_segments = refl

null_frame : is_used space.vm.pmm.bitmap 0 ≡ true
unfolding is_used
null_frame = refl

load_segment_lem_example :
    ((refused segment 176 ≡ true) × (load_segment file 176 segment space ≡ some (false, space)))
    ⊎ ((refused segment 176 ≡ false)
        × ((load_segment file 176 segment space ≡ none)
            ⊎ ((sp' : Space) × (load_segment file 176 segment space ≡ some (true, sp'))
                × Grown space sp' 5 2)))
load_segment_lem_example =
    load_segment_lem file 176 segment space level state-Valid null_frame (omega arith)
