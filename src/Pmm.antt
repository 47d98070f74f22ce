-- ===== src/Pmm.antt =====
-- src/mem/pmm.cpp: the physical frame allocator, one bit per 4 KiB frame.
-- The bitmap is the function from an index to its byte; the counters are u64 and wrap.
pub mod Bitmap
pub mod Counts
pub mod Alloc
pub mod Ranges
pub mod Init
mod Examples
use retux.Prelude.{
  ℕ, zero, suc, ◌+◌, ◌-◌, ◌*◌, ◌/◌, ◌%◌, ◌^◌, ◌==◌, leb, if◌then◌else◌, Bool, not, ◌||◌, Option,
  none, some, List, [], ◌∷◌, bit_and, bit_or, update,
}
use retux.Prelude.Bits.{test_bit}

abbrev pub page_size : ℕ
page_size = 4096

abbrev pub max_frames : ℕ
max_frames = 0x100000000 / page_size

abbrev pub u64_mod : ℕ
u64_mod = 2 ^ 64

pub record Pmm : Type 0 where
  pub bitmap : ℕ → ℕ
  pub total_frames : ℕ
  pub used_frames : ℕ

abbrev pub Bitmap : Type 0
Bitmap = ℕ → ℕ

unfoldable pub set_used : Bitmap → ℕ → Bitmap
set_used b frame = update b (frame / 8) (bit_or (b (frame / 8)) (2 ^ (frame % 8)))

pub set_free : Bitmap → ℕ → Bitmap
set_free b frame = update b (frame / 8) (bit_and (b (frame / 8)) (255 - 2 ^ (frame % 8)))

unfoldable pub is_used : Bitmap → ℕ → Bool
is_used b frame = test_bit (b (frame / 8)) (frame % 8)

-- `x & ~(PAGE_SIZE - 1)` and `(x + PAGE_SIZE - 1) & ~(PAGE_SIZE - 1)` on u64.
abbrev pub floor_page : ℕ → ℕ
floor_page x = x % u64_mod / page_size * page_size

abbrev pub ceil_page : ℕ → ℕ
ceil_page x = floor_page (x + page_size - 1)

-- One round of the loop of `mark_range_free`, and of that of `mark_range_used`.
pub free_one : Pmm → ℕ → Pmm
free_one p frame =
    if is_used p.bitmap frame
    then record p {
      bitmap = set_free p.bitmap frame;
      total_frames = (p.total_frames + 1) % u64_mod;
    }
    else p

pub use_one : Pmm → ℕ → Pmm
use_one p frame =
    if is_used p.bitmap frame
    then p
    else record p { bitmap = set_used p.bitmap frame; used_frames = (p.used_frames + 1) % u64_mod }

-- `for (addr = start; addr < end; addr += PAGE_SIZE)`, by the rounds left; `start` and `end` are
-- page-aligned, so there are `(end - start) / PAGE_SIZE` of them.
pub mark_loop : (Pmm → ℕ → Pmm) → ℕ → ℕ → Pmm → Pmm
mark_loop one zero addr p = p
mark_loop one (suc rounds) addr p =
    let rest = mark_loop one rounds (addr + page_size) (one p (addr / page_size)) in
    if leb max_frames (addr / page_size) then p else rest

pub mark_range_free : Pmm → ℕ → ℕ → Pmm
mark_range_free p base len =
    let start = ceil_page base in
    let end = floor_page (base + len) in
    if leb end start then p else mark_loop free_one ((end - start) / page_size) start p

pub mark_range_used : Pmm → ℕ → ℕ → Pmm
mark_range_used p base len =
    let start = floor_page base in
    let end = ceil_page (base + len) in mark_loop use_one ((end - start) / page_size) start p

unfoldable pub scan : ℕ → ℕ → Bitmap → Option ℕ
scan zero i b = none
scan (suc rounds) i b = let rest = scan rounds (i + 1) b in if is_used b i then rest else some i

-- `none` is the halt when no frame is left.
unfoldable pub alloc_frame : Pmm → Option (ℕ × Pmm)
alloc_frame p = elim (scan max_frames 0 p.bitmap) [
  | none ↦ none
  | some i ↦ some (
    i * page_size,
    record p { bitmap = set_used p.bitmap i; used_frames = (p.used_frames + 1) % u64_mod },
  )
]

pub free_frame : Pmm → ℕ → Pmm
free_frame p phys_addr =
    if leb max_frames (phys_addr / page_size) || not (is_used p.bitmap (phys_addr / page_size))
    then p
    else record p {
      bitmap = set_free p.bitmap (phys_addr / page_size);
      used_frames = (p.used_frames + u64_mod - 1) % u64_mod;
    }

-- What the boot loader hands over: the tags of boot/mb2.hpp that `init` reads, in order.
pub record MemMapEntry : Type 0 where
  pub base_addr : ℕ
  pub len : ℕ
  pub type : ℕ

pub data Tag : Type 0 where
  mem_map : List MemMapEntry → Tag
  boot_module : (mod_start mod_end : ℕ) → Tag
  other : Tag

pub record BootInfo : Type 0 where
  pub addr : ℕ
  pub total_size : ℕ
  pub tags : List Tag
  pub kernel_start : ℕ
  pub kernel_end : ℕ

abbrev pub avail : ℕ
avail = 1

-- `mb2::find_tag(…, TAG_MEMMAP)`
pub find_mem_map : List Tag → Option (List MemMapEntry)
find_mem_map [] = none
find_mem_map (mem_map es ∷ ts) = some es
find_mem_map (boot_module s e ∷ ts) = find_mem_map ts
find_mem_map (other ∷ ts) = find_mem_map ts

pub free_entries : List MemMapEntry → Pmm → Pmm
free_entries [] p = p
free_entries (e ∷ es) p =
    free_entries es (if e.type == avail then mark_range_free p e.base_addr e.len else p)

-- The u32 subtraction of the module's ends wraps.
pub use_modules : List Tag → Pmm → Pmm
use_modules [] p = p
use_modules (mem_map es ∷ ts) p = use_modules ts p
use_modules (boot_module s e ∷ ts) p =
    use_modules ts (mark_range_used p s ((e + 2 ^ 32 - s) % 2 ^ 32))
use_modules (other ∷ ts) p = use_modules ts p

abbrev pub all_reserved : Pmm
all_reserved = record { bitmap = λ i. 255; total_frames = 0; used_frames = 0 }

-- The ranges that are carved out once the memory map has been read.
pub carve : BootInfo → Pmm → Pmm
carve info p =
    let image =
      mark_range_used p info.kernel_start
        ((info.kernel_end + u64_mod - info.kernel_start) % u64_mod) in
    let low = mark_range_used image 0 0x100000 in
    use_modules info.tags (mark_range_used low info.addr info.total_size)

-- `none` is the halt when there is no memory map.
pub init : BootInfo → Option Pmm
init info = elim (find_mem_map info.tags) [
  | none ↦ none
  | some es ↦ some (carve info (free_entries es all_reserved))
]

pub total_frame_count : Pmm → ℕ
total_frame_count p = p.total_frames

pub used_frame_count : Pmm → ℕ
used_frame_count p = p.used_frames
