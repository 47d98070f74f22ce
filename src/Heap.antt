-- ===== src/Heap.antt =====
-- src/mem/heap.cpp: kmalloc and kfree over blocks with a header and a footer, and a list of the free
-- ones. A block is its address. The words of the metadata are arrays of their own: headers and the
-- pointers in free blocks by the block's address, footers by the footer's. The pages of the heap come
-- from the frame allocator, and what `vmm::map` is asked for is a list. A walk of the free list runs
-- on fuel; `none` is that the fuel was not enough, or that the kernel halts.
pub mod Blocks
pub mod FreeList
pub mod View
pub mod Grown
pub mod Merge
pub mod Coalesce
pub mod Free
pub mod Look
pub mod Walk
pub mod Carve
pub mod Allocate
pub mod Separated
pub mod Grow
pub mod Pages
pub mod Kmalloc
mod Examples
use retux.Prelude.{
  ℕ, zero, suc, ◌+◌, ◌-◌, ◌*◌, ◌/◌, ◌%◌, ◌^◌, ◌==◌, ltb, leb, if◌then◌else◌, Bool, true, false, not,
  ◌&&◌, ◌||◌, Option, none, some, List, [], ◌∷◌, update,
}
use retux.Pmm.{alloc_frame}
use retux.Vmm
use retux.Vmm.{Vmm}

infixl 5 ◌>>=◌
abbrev pub ◌>>=◌ {ℓ κ} : {A : Type ℓ} {B : Type κ} → Option A → (A → Option B) → Option B
none >>= f = none
some a >>= f = f a

abbrev pub heap_start : ℕ
heap_start = 0xffff800000000000

abbrev pub heap_max : ℕ
heap_max = heap_start + 0xffffffff

abbrev pub page_size : ℕ
page_size = 4096

abbrev pub block_size : ℕ
block_size = 16

abbrev pub footer_size : ℕ
footer_size = 16

abbrev pub min_block : ℕ
min_block = block_size + 8 + footer_size

abbrev pub u64_mod : ℕ
u64_mod = 2 ^ 64

-- `size` and `free` are the headers', `footer_sizes` and `footer_free` the footers', `next` the
-- pointers in the free blocks.
pub record Heap : Type 0 where
  pub size : ℕ → ℕ
  pub free : ℕ → Bool
  pub footer_sizes : ℕ → ℕ
  pub footer_free : ℕ → Bool
  pub next : ℕ → ℕ
  pub free_list : ℕ
  pub heap_end : ℕ
  pub vm : Vmm

abbrev pub footer_of_block : Heap → ℕ → ℕ
footer_of_block h b = b + h.size b - footer_size

abbrev pub set_size : Heap → ℕ → ℕ → Heap
set_size h b s = record h { size = update h.size b s }

abbrev pub set_free : Heap → ℕ → Bool → Heap
set_free h b f = record h { free = update h.free b f }

-- The footer of a block, where the header says that it is, and its flag alone.
abbrev pub set_footer : Heap → ℕ → ℕ → Bool → Heap
set_footer h b s f = record h {
  footer_sizes = update h.footer_sizes (footer_of_block h b) s;
  footer_free = update h.footer_free (footer_of_block h b) f;
}

abbrev pub set_footer_free : Heap → ℕ → Bool → Heap
set_footer_free h b f = record h { footer_free = update h.footer_free (footer_of_block h b) f }

abbrev pub set_next : Heap → ℕ → ℕ → Heap
set_next h b n = record h { next = update h.next b n }

pub next_block : Heap → ℕ → ℕ
next_block h b = b + h.size b

-- 0 is null.
pub prev_block : Heap → ℕ → ℕ
prev_block h b =
    if ltb (b - footer_size) heap_start
    then 0
    else if ltb (b - h.footer_sizes (b - footer_size)) heap_start
    then 0
    else b - h.footer_sizes (b - footer_size)

-- The last lines of `coalesce` are the same.
pub add_block_to_free_list : Heap → ℕ → Heap
add_block_to_free_list h b = record (set_next (set_free h b true) b h.free_list) { free_list = b }

pub remove_block_from_free_list : Heap → ℕ → ℕ → Heap
remove_block_from_free_list h b prev =
    if prev == 0 then record h { free_list = h.next b } else set_next h prev (h.next b)

-- `for (curr = free_list; curr; prev = curr, curr = get_next(curr))` with the removal of `target`.
pub unlink : ℕ → Heap → (prev curr target : ℕ) → Option Heap
unlink zero h prev curr target = none
unlink (suc fuel) h prev curr target =
    let rest = unlink fuel h curr (h.next curr) target in
    if curr == 0
    then some h
    else if curr == target
    then some (remove_block_from_free_list h curr prev)
    else rest

-- The two halves of `coalesce`; the second returns the block that has grown, too.
pub merge_next : ℕ → Heap → ℕ → Option Heap
merge_next fuel h block =
    let next = next_block h block in
    if ltb next h.heap_end && h.free next
    then (do
      h' ← unlink fuel h 0 h.free_list next
      let grown = set_size h' block (h'.size block + h'.size next)
      some (set_footer grown block (grown.size block) true))
    else some h

pub merge_prev : ℕ → Heap → ℕ → Option (ℕ × Heap)
merge_prev fuel h block =
    let prev = prev_block h block in
    if not (prev == 0) && h.free prev
    then (do
      h' ← unlink fuel h 0 h.free_list prev
      let grown = set_size h' prev (h'.size prev + h'.size block)
      some (prev, set_footer grown prev (grown.size prev) true))
    else some (block, h)

pub coalesce : ℕ → Heap → ℕ → Option Heap
coalesce fuel h block = do
  h1 ← merge_next fuel h block
  merged ← merge_prev fuel h1 block
  some (add_block_to_free_list merged.1 merged.0)

-- PRESENT, WRITABLE and NO_EXECUTE.
abbrev pub kernel_rw : ℕ
kernel_rw = 3 + 2 ^ 63

-- The loop over the new pages, from page `i` on; the address space is checked before. The tables are
-- the ones of Vmm, with the frames of Pmm.
pub map_pages : ℕ → ℕ → Heap → Option Heap
map_pages zero virt h = some h
map_pages (suc pages) virt h = do
  frame ← alloc_frame h.vm.pmm
  if frame.0 == 0
      then none
      else (Vmm.map (record h.vm { pmm = frame.1 }) virt frame.0 kernel_rw >>= λ vm.
          map_pages pages (virt + page_size) (record h { vm = vm }))

-- The free block that covers the new pages.
pub new_block : Heap → ℕ → ℕ → Heap
new_block h virt bytes =
    set_footer (set_free (set_size (record h { heap_end = virt + bytes }) virt bytes) virt true)
      virt bytes true

pub grow_heap : ℕ → Heap → ℕ → Option Heap
grow_heap fuel h pages =
    if ltb heap_max ((h.heap_end + pages * page_size) % u64_mod) then none else (do
      h' ← map_pages pages h.heap_end h
      coalesce fuel (new_block h' h'.heap_end (pages * page_size)) h'.heap_end)

-- The size of a block for `size` bytes, in u64.
pub total_size : ℕ → ℕ
total_size size =
    let total = ((size + block_size + footer_size) % u64_mod + 7) % u64_mod / 8 * 8 in
    if ltb total min_block then min_block else total

-- What the loop of `allocate_block` does once a block that is large enough has been found.
pub take_block : Heap → (curr prev total : ℕ) → Heap
take_block h curr prev total =
    let removed = remove_block_from_free_list h curr prev in
    let remaining = h.size curr - total in
    let rest = curr + total in
    let split =
      set_footer (set_free (set_size removed rest remaining) rest true) rest remaining true in
    let shrunk = set_size (add_block_to_free_list split rest) curr total in
    let cut =
      if leb min_block remaining
      then record shrunk {
        footer_sizes = update shrunk.footer_sizes (footer_of_block shrunk curr) total;
      }
      else removed in
    set_footer_free (set_free cut curr false) curr false

-- 0 is `nullptr`.
pub allocate_from : ℕ → Heap → (prev curr total : ℕ) → Option (ℕ × Heap)
allocate_from zero h prev curr total = none
allocate_from (suc fuel) h prev curr total =
    let rest = allocate_from fuel h curr (h.next curr) total in
    if curr == 0
    then some (0, h)
    else if leb total (h.size curr)
    then some (curr, take_block h curr prev total)
    else rest

pub allocate_block : ℕ → Heap → ℕ → Option (ℕ × Heap)
allocate_block fuel h size = allocate_from fuel h 0 h.free_list (total_size size)

pub pages_for : ℕ → ℕ
pages_for size =
    let pages_needed =
      ((size + block_size + footer_size) % u64_mod + page_size - 1) % u64_mod / page_size in
    if ltb 4 pages_needed then pages_needed else 4

-- The address of the data, 0 for a request of 0 bytes.
pub kmalloc : ℕ → Heap → ℕ → Option (ℕ × Heap)
kmalloc fuel h size = if size == 0 then some (0, h) else (do
  found ← allocate_block fuel h size
  if not (found.0 == 0) then some (found.0 + block_size, found.1) else (do
    grown ← grow_heap fuel found.1 (pages_for size)
    again ← allocate_block fuel grown size
    if again.0 == 0 then none else some (again.0 + block_size, again.1)))

pub kfree : ℕ → Heap → ℕ → Option Heap
kfree fuel h ptr =
    let block = ptr - block_size in
    if ptr == 0 || h.free block
    then some h
    else coalesce fuel (set_footer_free (set_free h block true) block true) block

-- `init` grows the empty heap by 256 pages.
pub init : ℕ → Heap → Option Heap
init fuel h = grow_heap fuel h 256
