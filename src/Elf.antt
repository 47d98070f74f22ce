-- ===== src/Elf.antt =====
-- src/task/elf.cpp: the checks of an ELF file and the loading of its segments, over the tables of Vmm
-- and the frames of Pmm. The file is the function from the offset to the byte, with its size. An outer
-- `none` is that the kernel halts for want of memory.
pub mod Segment
mod Examples
use retux.Prelude.{
  ℕ, zero, suc, ◌+◌, ◌-◌, ◌*◌, ◌/◌, ◌%◌, ◌^◌, ◌==◌, ltb, leb, if◌then◌else◌, Bool, true, false, not,
  ◌&&◌, ◌||◌, Option, none, some,
}
use retux.Partitions.{number_at}
use retux.Pmm.{alloc_frame}
use retux.Vmm
use retux.Vmm.{Vmm}
use retux.Vfs.{◌>>=◌}
use retux.UserMem.{Space, put_page, page_down, page_up, pages_between}

pub record Phdr : Type 0 where
  pub p_type : ℕ
  pub p_flags : ℕ
  pub p_offset : ℕ
  pub p_vaddr : ℕ
  pub p_filesz : ℕ
  pub p_memsz : ℕ

pub phdr_at : (file : ℕ → ℕ) → (at : ℕ) → Phdr
phdr_at file at = record {
  p_type = number_at 4 file at;
  p_flags = number_at 4 file (at + 4);
  p_offset = number_at 8 file (at + 8);
  p_vaddr = number_at 8 file (at + 16);
  p_filesz = number_at 8 file (at + 32);
  p_memsz = number_at 8 file (at + 40);
}

-- What a page at `va` holds after the memset and the memcpy.
pub page_bytes : (ℕ → ℕ) → Phdr → (va : ℕ) → ℕ → ℕ
page_bytes file ph va j =
    let seg_file_end = (ph.p_vaddr + ph.p_filesz) % 2 ^ 64 in
    let page_end = (va + 4096) % 2 ^ 64 in
    let copy_start = if ltb va ph.p_vaddr then ph.p_vaddr else va in
    let copy_end = if ltb seg_file_end page_end then seg_file_end else page_end in
    let file_off = (ph.p_offset + (copy_start - ph.p_vaddr)) % 2 ^ 64 in
    if ltb copy_start copy_end && leb copy_start (va + j) && ltb (va + j) copy_end
    then file (file_off + (va + j - copy_start))
    else 0

pub load_page : (ℕ → ℕ) → Phdr → (flags va : ℕ) → Space → Option Space
load_page file ph flags va sp = do
  got ← alloc_frame sp.vm.pmm
  vm ← Vmm.map (record sp.vm { pmm = got.1 }) va got.0 flags
  some (record { vm = vm; memory = put_page sp.memory got.0 (page_bytes file ph va) })

pub load_pages : (rounds : ℕ) → (ℕ → ℕ) → Phdr → (flags va : ℕ) → Space → Option Space
load_pages zero file ph flags va sp = some sp
load_pages (suc rounds) file ph flags va sp =
    load_page file ph flags va sp >>= λ sp'. load_pages rounds file ph flags (va + 4096) sp'

-- PRESENT and USER, WRITABLE with PF_W, NO_EXECUTE without PF_X.
abbrev pub segment_flags : ℕ → ℕ
segment_flags p_flags =
    5 + (if p_flags / 2 % 2 == 0 then 0 else 2) + (if p_flags % 2 == 0 then 2 ^ 63 else 0)

-- Whether it succeeds, and the state.
pub load_segment : (ℕ → ℕ) → (file_size : ℕ) → Phdr → Space → Option (Bool × Space)
load_segment file file_size ph sp =
    let va = page_down ph.p_vaddr in
    let va_end = page_up ((ph.p_vaddr + ph.p_memsz) % 2 ^ 64) in
    if ltb ph.p_memsz ph.p_filesz
    then some (false, sp)
    else if ltb file_size ph.p_offset || ltb (file_size - ph.p_offset) ph.p_filesz
    then some (false, sp)
    else (load_pages (pages_between va va_end) file ph (segment_flags ph.p_flags) va sp >>= λ sp'.
        some (true, sp'))

pub record LoadResult : Type 0 where
  pub entry : ℕ
  pub phdr_vaddr : ℕ
  pub phnum : ℕ
  pub phentsize : ℕ
  pub highest_addr : ℕ

-- The checks of the header, without those of the table of program headers.
pub is_supported : (ℕ → ℕ) → (size : ℕ) → Bool
is_supported file size =
    leb 64 size
    && number_at 4 file 0 == 0x464c457f
    && number_at 1 file 4 == 2
    && number_at 1 file 5 == 1
    && number_at 2 file 16 == 2
    && number_at 2 file 18 == 62

pub has_table : (ℕ → ℕ) → (size : ℕ) → Bool
has_table file size =
    let phoff = number_at 8 file 32 in
    not (phoff == 0 || number_at 2 file 56 == 0)
    && not (
        ltb (number_at 2 file 54) 56
        || ltb size phoff
        || ltb (size - phoff) (number_at 2 file 56 * number_at 2 file 54))

-- The loop over the program headers, with `phdr_vaddr` and `highest_addr`; null when a segment is
-- refused.
pub load_all :
    (rounds i : ℕ)
    → (ℕ → ℕ)
    → (size phdr_vaddr highest : ℕ) → Space
    → Option (Option (ℕ × ℕ) × Space)
load_all zero i file size phdr_vaddr highest sp = some (some (phdr_vaddr, highest), sp)
load_all (suc rounds) i file size phdr_vaddr highest sp =
    let phoff = number_at 8 file 32 in
    let ph = phdr_at file (phoff + i * number_at 2 file 54) in
    let seg_end = page_up ((ph.p_vaddr + ph.p_memsz) % 2 ^ 64) in
    let covers = leb ph.p_offset phoff && ltb (phoff - ph.p_offset) ph.p_filesz in
    let vaddr' = if covers then (ph.p_vaddr + (phoff - ph.p_offset)) % 2 ^ 64 else phdr_vaddr in
    let highest' = if ltb highest seg_end then seg_end else highest in
    let skipped = load_all rounds (i + 1) file size phdr_vaddr highest sp in
    if not (ph.p_type == 1)
    then skipped
    else (load_segment file size ph sp >>= λ done.
        let rest = load_all rounds (i + 1) file size vaddr' highest' done.1 in
        if done.0 then rest else some (none, done.1))

-- The result that `out` gets from the loop's variables.
abbrev pub result_of : (ℕ → ℕ) → Option (ℕ × ℕ) → Option LoadResult
result_of file none = none
result_of file (some (phdr_vaddr, highest)) = some (record {
  entry = number_at 8 file 24;
  phdr_vaddr = phdr_vaddr;
  phnum = number_at 2 file 56;
  phentsize = number_at 2 file 54;
  highest_addr = highest;
})

pub parse_and_load : (ℕ → ℕ) → (size : ℕ) → Space → Option (Option LoadResult × Space)
parse_and_load file size sp =
    if not (is_supported file size && has_table file size)
    then some (none, sp)
    else (load_all (number_at 2 file 56) 0 file size 0 0 sp >>= λ done.
        some (result_of file done.0, done.1))
