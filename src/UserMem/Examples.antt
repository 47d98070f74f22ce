-- ===== src/UserMem/Examples.antt =====
-- mmap and brk of src/cpu/syscall.cpp over the tables of Vmm's examples.
use retux.Prelude.{◌+◌, ◌*◌, ◌^◌, true, none, some, ◌≡◌, ◌⊎◌, refl, arith}
use retux.Prelude.Int.{pos}
use retux.Vfs.{◌>>=◌}
use retux.Pmm.{alloc_frame, is_used, scan, set_used}
use retux.Vmm.{map, map_into, ensure_table, split_if_huge, split_huge_page, virt_to_phys, get_pml4}
use retux.Vmm.Examples.{state, level, state-Valid}
use retux.UserMem.{Space, Task, sys_brk, sys_mmap, map_page, map_range, put_page, page_up, flags_of}
use retux.UserMem.Calls.{pages, Grown, sys_mmap_lem}

abbrev space : Space
space = record { vm = state; memory = λ a. 7 }

abbrev task : Task
task = record { brk_start = 0x400000; brk_cur = 0x400800; mmap_next = 0x10000000 }

-- One page more for the break, which ends inside it: it shows a frame that is cleared.
brk_grows :
    (sys_brk task space 0x401001 >>= λ r.
    some (r.0 + r.2.memory (virt_to_phys r.2.vm 0x401123) * 2 ^ 32))
    ≡ some 0x401001
unfolding sys_brk page_up map_range map_page put_page map map_into ensure_table split_if_huge
    split_huge_page virt_to_phys get_pml4 alloc_frame scan is_used set_used
brk_grows = refl

-- A length whose pages wrap to none: an address comes back with nothing behind it.
mmap_wraps :
    (sys_mmap task space 0xfffffffffffff001 3 32 >>= λ r. some (virt_to_phys r.2.vm 0x10000000))
    ≡ some 0
unfolding sys_mmap page_up map_range flags_of virt_to_phys get_pml4
mmap_wraps = refl

null_frame : is_used state.pmm.bitmap 0 ≡ true
unfolding is_used
null_frame = refl

sys_mmap_lem_example :
    (sys_mmap task space 5000 3 32 ≡ none)
    ⊎ ((sp' : Space) × (sys_mmap task space 5000 3 32
          ≡ some (
            pos (0x10000 * 4096),
            record task { mmap_next = (0x10000 + pages 5000) * 4096 },
            sp',
          ))
        × Grown space sp' 0x10000 (pages 5000))
sys_mmap_lem_example =
    sys_mmap_lem task space level 5000 3 32 0x10000 state-Valid null_frame refl refl (omega arith)
      (omega arith)
