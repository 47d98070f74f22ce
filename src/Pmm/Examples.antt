-- ===== src/Pmm/Examples.antt =====
-- Runs of the frame allocator, and its theorems at concrete inputs.
use retux.Prelude.{
  ℕ, ◌*◌, ◌%◌, ◌+◌, ◌-◌, ◌<◌, ◌≡◌, refl, true, false, not, ◌||◌, List, [], ◌∷◌, none, some, arith,
  ◌==◌, if◌then◌else◌,
}
use retux.Pmm.{
  Pmm, is_used, max_frames, u64_mod, MemMapEntry, mem_map, boot_module, other, BootInfo, init,
  all_reserved, carve, free_entries, alloc_frame, free_frame, set_used, mark_range_free,
  mark_range_used, total_frame_count, used_frame_count, scan, mark_loop, free_one, use_one,
  set_free, use_modules, find_mem_map,
}
use retux.Pmm.Counts.{Call, alloc, free, run, step, free_count, free_count_of_counters}
use retux.Pmm.Alloc.{Allocates, alloc_frame-Allocates, alloc_frame_halts, free_frame-alloc_frame}
use retux.Pmm.Init.{init_frames, reserved, available}

-- Frames 0, 1 and 3 are used, frame 2 is free, and so is frame 4 and up to 7.
abbrev nearly_full : Pmm
nearly_full = record {
  bitmap = λ i. if i == 0 then 0b1011 else 255;
  total_frames = 8;
  used_frames = 3;
}

abbrev after_alloc : Pmm
after_alloc = record nearly_full { bitmap = set_used nearly_full.bitmap 2; used_frames = 4 }

allocates_frame_2 : alloc_frame nearly_full ≡ some (2 * 4096, after_alloc)
unfolding alloc_frame scan is_used
allocates_frame_2 = refl

nearly_full_bytes : (i : ℕ) → nearly_full.bitmap i < 256
nearly_full_bytes i = ground arith

alloc_frame-Allocates_example : Allocates nearly_full 8192 after_alloc
alloc_frame-Allocates_example =
    alloc_frame-Allocates nearly_full nearly_full_bytes allocates_frame_2

alloc_frame_halts_example :
    (alloc_frame nearly_full ≡ none
      → (f : ℕ) → f < max_frames
      → is_used nearly_full.bitmap f ≡ true)
    × (((f : ℕ) → f < max_frames → is_used nearly_full.bitmap f ≡ true)
        → alloc_frame nearly_full ≡ none)
alloc_frame_halts_example = alloc_frame_halts nearly_full

free_frame-alloc_frame_example :
    ((g : ℕ) → is_used (free_frame after_alloc 8192).bitmap g ≡ is_used nearly_full.bitmap g)
    × ((free_frame after_alloc 8192).used_frames ≡ 3)
    × ((free_frame after_alloc 8192).total_frames ≡ 8)
free_frame-alloc_frame_example =
    free_frame-alloc_frame nearly_full nearly_full_bytes (omega arith) allocates_frame_2

abbrev ram : List MemMapEntry
ram =
    record { base_addr = 0xff800; len = 0x10800; type = 1 }
    ∷ record { base_addr = 0x200000; len = 0x1000; type = 2 }
    ∷ []

-- 16 frames of RAM above 1 MiB; the kernel takes two, a module a third.
abbrev small_machine : BootInfo
small_machine = record {
  addr = 0x10f000;
  total_size = 16;
  tags = other ∷ mem_map ram ∷ boot_module 0x104800 0x104900 ∷ [];
  kernel_start = 0x100000;
  kernel_end = 0x101001;
}

abbrev booted : Pmm
booted = carve small_machine (free_entries ram all_reserved)

booted-init : init small_machine ≡ some booted
unfolding init find_mem_map
booted-init = refl

init_frames_example :
    is_used booted.bitmap 0x103 ≡ reserved small_machine 0x103 || not (available ram 0x103)
unfolding find_mem_map
init_frames_example = init_frames small_machine (omega arith) refl booted-init 0x103 (omega arith)

frames_after_boot : (is_used booted.bitmap 0x103 ≡ false) × (is_used booted.bitmap 0x104 ≡ true)
unfolding carve free_entries use_modules mark_range_free mark_range_used mark_loop free_one use_one
    set_used set_free is_used
frames_after_boot = (refl, refl)

abbrev calls : List Call
calls = alloc ∷ free 0x102000 ∷ free 0x7000 ∷ []

abbrev after_calls : Pmm
after_calls =
    free_frame
      (free_frame
        (record booted {
          bitmap = set_used booted.bitmap 0x102;
          used_frames = (booted.used_frames + 1) % u64_mod;
        })
        0x102000)
      0x7000

calls-run : run booted calls ≡ some after_calls
unfolding run step alloc_frame scan carve free_entries use_modules mark_range_free mark_range_used
    mark_loop free_one use_one set_used set_free is_used free_frame
calls-run = refl

free_count_of_counters_example :
    (total_frame_count after_calls + u64_mod - used_frame_count after_calls % u64_mod) % u64_mod
    ≡ free_count max_frames after_calls.bitmap
free_count_of_counters_example =
    free_count_of_counters small_machine booted after_calls calls booted-init calls-run
