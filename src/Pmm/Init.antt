-- ===== src/Pmm/Init.antt =====
-- `init` of src/mem/pmm.cpp: which frames are free once the memory map has been read.
use retux.Prelude.{
  ℕ, ◌+◌, ◌-◌, ◌%◌, ◌^◌, ◌≤◌, ◌<◌, ◌≡◌, Bool, false, not, ◌&&◌, ◌||◌, List, [], ◌∷◌, some, arith,
  ◌==◌, if◌then◌else◌, Bool-cases, inl, inr, true,
}
use retux.Pmm.{
  Pmm, is_used, max_frames, page_size, u64_mod, mark_range_free, mark_range_used, MemMapEntry, Tag,
  mem_map, boot_module, other, BootInfo, free_entries, use_modules, carve, init, find_mem_map,
  all_reserved, avail,
}
use retux.Pmm.Bitmap.{Bytes}
use retux.Pmm.Counts.{all_reserved-is_used, init-inv}
use retux.Pmm.Ranges.{
  Marked, Marked-trans, inside, touches, mark_range_free_frames, mark_range_used_frames,
}

-- Frame `g` lies wholly within one region that the boot loader reports as available.
pub available : List MemMapEntry → ℕ → Bool
available [] g = false
available (e ∷ es) g = (e.type == avail && inside e.base_addr e.len g) || available es g

-- Frame `g` shares a byte with a boot module.
pub in_module : List Tag → ℕ → Bool
in_module [] g = false
in_module (mem_map es ∷ ts) g = in_module ts g
in_module (boot_module s e ∷ ts) g = touches s (e - s) g || in_module ts g
in_module (other ∷ ts) g = in_module ts g

-- Frame `g` shares a byte with the kernel image, the first MiB, the boot information or a module.
pub reserved : BootInfo → ℕ → Bool
reserved info g =
    touches info.kernel_start (info.kernel_end - info.kernel_start) g
    || touches 0 0x100000 g
    || touches info.addr info.total_size g
    || in_module info.tags g

-- Ranges that do not run past the end of the 64-bit addresses.
abbrev pub EntriesFit : List MemMapEntry → Type 0
EntriesFit [] = Unit {0}
EntriesFit (e ∷ es) = (e.base_addr + e.len + page_size ≤ u64_mod) × EntriesFit es

abbrev pub ModulesFit : List Tag → Type 0
ModulesFit [] = Unit {0}
ModulesFit (mem_map es ∷ ts) = EntriesFit es × ModulesFit ts
ModulesFit (boot_module s e ∷ ts) = (s ≤ e) × (e < 2 ^ 32) × ModulesFit ts
ModulesFit (other ∷ ts) = ModulesFit ts

pub record Fits (info : BootInfo) : Type 0 where
  pub tags : ModulesFit info.tags
  pub image_ordered : info.kernel_start ≤ info.kernel_end
  pub image : info.kernel_end + page_size ≤ u64_mod
  pub boot_info : info.addr + info.total_size + page_size ≤ u64_mod

free_entry-Marked :
    (e : MemMapEntry) (p : Pmm)
    → e.base_addr + e.len + page_size ≤ u64_mod
    → Bytes p.bitmap
    → Marked false
        (λ g. e.type == avail && inside e.base_addr e.len g)
        p
        (if e.type == avail then mark_range_free p e.base_addr e.len else p)
free_entry-Marked e p fit b = elim (Bool-cases (e.type == avail)) [
  | inl is_avail ↦ rw is_avail (mark_range_free_frames p e.base_addr e.len fit b)
  | inr skipped ↦ rw skipped (b, λ g h. ground arith)
]

free_entries-Marked :
    (es : List MemMapEntry) (p : Pmm)
    → EntriesFit es
    → Bytes p.bitmap
    → Marked false (available es) p (free_entries es p)
unfolding free_entries available
free_entries-Marked [] p fit b = (b, λ g h. ground arith)
free_entries-Marked (e ∷ es) p fit b =
    let q : Pmm = if e.type == avail then mark_range_free p e.base_addr e.len else p in
    let m = free_entry-Marked e p fit.0 b in
    Marked-trans false (λ g. e.type == avail && inside e.base_addr e.len g) (available es) p q
      (free_entries es q) m (free_entries-Marked es q fit.1 m.0)

boot_module-Marked :
    (s e : ℕ) (p : Pmm)
    → s ≤ e
    → e < 2 ^ 32
    → Bytes p.bitmap
    → Marked true (touches s (e - s)) p (mark_range_used p s ((e + 2 ^ 32 - s) % 2 ^ 32))
boot_module-Marked s e p lo hi b =
    let size : (e + 2 ^ 32 - s) % 2 ^ 32 ≡ e - s = omega arith in
    rw size (mark_range_used_frames p s (e - s) (omega arith) b)

use_modules-Marked :
    (ts : List Tag) (p : Pmm)
    → ModulesFit ts
    → Bytes p.bitmap
    → Marked true (in_module ts) p (use_modules ts p)
unfolding use_modules in_module
use_modules-Marked [] p fit b = (b, λ g h. ground arith)
use_modules-Marked (mem_map es ∷ ts) p fit b = use_modules-Marked ts p fit.1 b
use_modules-Marked (boot_module s e ∷ ts) p fit b =
    let q = mark_range_used p s ((e + 2 ^ 32 - s) % 2 ^ 32) in
    let m = boot_module-Marked s e p fit.0 fit.1 b in
    Marked-trans true (touches s (e - s)) (in_module ts) p q (use_modules ts q) m
      (use_modules-Marked ts q fit.2 m.0)
use_modules-Marked (other ∷ ts) p fit b = use_modules-Marked ts p fit b

image-Marked :
    (info : BootInfo) (p : Pmm)
    → Fits info
    → Bytes p.bitmap
    → Marked true (touches info.kernel_start (info.kernel_end - info.kernel_start)) p (
        mark_range_used p info.kernel_start
          ((info.kernel_end + u64_mod - info.kernel_start) % u64_mod))
image-Marked info p fit b =
    let size : (info.kernel_end + u64_mod - info.kernel_start) % u64_mod
        ≡ info.kernel_end - info.kernel_start =
      omega arith in
    rw size (
      mark_range_used_frames p info.kernel_start (info.kernel_end - info.kernel_start) (omega arith)
        b)

carve-Marked :
    (info : BootInfo) (p : Pmm)
    → Fits info
    → Bytes p.bitmap
    → Marked true (reserved info) p (carve info p)
unfolding carve reserved
carve-Marked info p fit b =
    let image = image-Marked info p fit b in
    let low = mark_range_used_frames _ 0 0x100000 (omega arith) image.0 in
    let boot = mark_range_used_frames _ info.addr info.total_size fit.boot_info low.0 in
    let mods = use_modules-Marked info.tags _ fit.tags boot.0 in
    (mods.0, λ g h. ground (arith, image.1 g h, low.1 g h, boot.1 g h, mods.1 g h))

find_mem_map-EntriesFit :
    (ts : List Tag) {es : List MemMapEntry}
    → ModulesFit ts
    → find_mem_map ts ≡ some es
    → EntriesFit es
unfolding find_mem_map
find_mem_map-EntriesFit [] fit e = cc
find_mem_map-EntriesFit (mem_map es' ∷ ts) {es} fit e = let h : es' ≡ es = cc in rw (← h) fit.0
find_mem_map-EntriesFit (boot_module s t ∷ ts) fit e = find_mem_map-EntriesFit ts fit.2 e
find_mem_map-EntriesFit (other ∷ ts) fit e = find_mem_map-EntriesFit ts fit e

-- If the memory map, the kernel image, the boot information and the modules fit in the address
-- space, init leaves free exactly the frames that lie wholly within an available region and share
-- no byte with the kernel image, the first MiB, the boot information or a module.
pub init_frames :
    (info : BootInfo) {p : Pmm} {es : List MemMapEntry}
    → Fits info
    → find_mem_map info.tags ≡ some es
    → init info ≡ some p
    → (g : ℕ) → g < max_frames
    → is_used p.bitmap g ≡ reserved info g || not (available es g)
init_frames info {p} {es} fit found e g h =
    let (es', found', made) = init-inv info e in
    let same : es' ≡ es = cc in
    let (b, freed) =
      free_entries-Marked es all_reserved (find_mem_map-EntriesFit info.tags fit.tags found)
        (λ i. omega arith) in
    let (_, carved) = carve-Marked info (free_entries es all_reserved) fit b in
    rw (made, same) (ground (arith, freed g h, carved g h, all_reserved-is_used g))
