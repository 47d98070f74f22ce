-- ===== src/UserMem.antt =====
-- The system calls of src/cpu/syscall.cpp on a process's memory: brk, mmap, munmap and mprotect, over
-- the tables of Vmm and the frames of Pmm. The outer `none` is that the kernel halts for want of
-- memory.
pub mod Calls
mod Examples
use retux.Prelude.{
  ℕ, zero, suc, ◌+◌, ◌-◌, ◌*◌, ◌/◌, ◌%◌, ◌^◌, ◌==◌, ltb, leb, if◌then◌else◌, ◌||◌, ◌&&◌, Option,
  none, some,
}
use retux.Prelude.Int.{ℤ, pos, neg}
use retux.Pmm.{alloc_frame, free_frame}
use retux.Vmm
use retux.Vmm.{Vmm, virt_to_phys}
use retux.Vfs.{◌>>=◌}

abbrev pub brk_ceiling : ℕ
brk_ceiling = 0x1000000

abbrev pub page_size : ℕ
page_size = 0x1000

abbrev pub enodev : ℕ
enodev = 19

abbrev pub einval : ℕ
einval = 22

-- The page tables and the frames, and the bytes by their physical address.
pub record Space : Type 0 where
  pub vm : Vmm
  pub memory : ℕ → ℕ

-- The fields of a task that the calls use.
pub record Task : Type 0 where
  pub brk_start : ℕ
  pub brk_cur : ℕ
  pub mmap_next : ℕ

unfoldable pub page_down : ℕ → ℕ
page_down x = x / page_size * page_size

unfoldable pub page_up : ℕ → ℕ
page_up x = (x + page_size - 1) % 2 ^ 64 / page_size * page_size

-- The rounds of `for (va = start; va < end; va += PAGE_SIZE)`.
abbrev pub pages_between : ℕ → ℕ → ℕ
pages_between start end = (end - start + (page_size - 1)) / page_size

-- PRESENT, WRITABLE, USER and NO_EXECUTE.
pub flags_of : (prot : ℕ) → ℕ
flags_of prot = 5 + (if prot / 2 % 2 == 0 then 0 else 2) + (if prot / 4 % 2 == 0 then 2 ^ 63 else 0)

abbrev pub user_rw : ℕ
user_rw = 7 + 2 ^ 63

-- A page of memory that is written as a whole.
unfoldable pub put_page : (ℕ → ℕ) → (phys : ℕ) → (ℕ → ℕ) → ℕ → ℕ
put_page memory phys bytes a =
    if leb phys a && ltb a (phys + 4096) then bytes (a - phys) else memory a

-- A round of the loop that maps new pages.
pub map_page : (va flags : ℕ) → Space → Option Space
map_page va flags s = do
  got ← alloc_frame s.vm.pmm
  vm ← Vmm.map (record s.vm { pmm = got.1 }) va got.0 flags
  some (record { vm = vm; memory = put_page s.memory got.0 (λ _. 0) })

pub map_range : (rounds va flags : ℕ) → Space → Option Space
map_range zero va flags s = some s
map_range (suc rounds) va flags s =
    map_page va flags s >>= λ s'. map_range rounds (va + page_size) flags s'

-- The loop that gives pages back.
pub unmap_range : (rounds va : ℕ) → Space → Option Space
unmap_range zero va s = some s
unmap_range (suc rounds) va s = do
  let phys = virt_to_phys s.vm va
  vm ← Vmm.unmap s.vm va
  let freed = record vm { pmm = free_frame vm.pmm phys }
  unmap_range rounds (va + page_size) (record s { vm = if phys == 0 then vm else freed })

pub protect_range : (rounds va flags : ℕ) → Space → Option Space
protect_range zero va flags s = some s
protect_range (suc rounds) va flags s = do
  vm ← Vmm.protect s.vm va flags
  protect_range rounds (va + page_size) flags (record s { vm = vm })

pub sys_brk : Task → Space → (addr : ℕ) → Option (ℕ × Task × Space)
sys_brk t s addr =
    let old_top = page_up t.brk_cur in
    let new_top = page_up addr in
    if addr == 0 || ltb addr t.brk_start
    then some (t.brk_cur, t, s)
    else if ltb brk_ceiling addr
    then some (t.brk_cur, t, s)
    else if ltb old_top new_top
    then (map_range (pages_between old_top new_top) old_top user_rw s >>= λ s'.
        some (addr, record t { brk_cur = addr }, s'))
    else if ltb new_top old_top
    then (unmap_range (pages_between new_top old_top) new_top s >>= λ s'.
        some (addr, record t { brk_cur = addr }, s'))
    else some (addr, record t { brk_cur = addr }, s)

-- MAP_ANONYMOUS is bit 5; a file and a hint are ignored.
pub sys_mmap : Task → Space → (len prot flags : ℕ) → Option (ℤ × Task × Space)
sys_mmap t s len prot flags =
    let base = t.mmap_next in
    let end = (base + page_up len) % 2 ^ 64 in
    if flags / 32 % 2 == 0
    then some (neg enodev, t, s)
    else if len == 0
    then some (neg einval, t, s)
    else (map_range (pages_between base end) base (flags_of prot) s >>= λ s'.
        some (pos base, record t { mmap_next = end }, s'))

pub sys_munmap : Space → (addr len : ℕ) → Option (ℤ × Space)
sys_munmap s addr len =
    let start = page_down addr in
    let end = page_up ((addr + len) % 2 ^ 64) in
    unmap_range (pages_between start end) start s >>= λ s'. some (pos 0, s')

pub sys_mprotect : Space → (addr len prot : ℕ) → Option (ℤ × Space)
sys_mprotect s addr len prot =
    let start = page_down addr in
    let end = page_up ((addr + len) % 2 ^ 64) in
    protect_range (pages_between start end) start (flags_of prot) s >>= λ s'. some (pos 0, s')
