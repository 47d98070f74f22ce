-- ===== src/Dirents/Examples.antt =====
-- The directory of procfs read through `sys_getdents64`.
use retux.Prelude.{
  ℕ, ◌+◌, ◌^◌, ◌≤◌, ◌<◌, ◌≡◌, refl, none, some, List, [], ◌++◌, length, take, drop, All, arith, map,
}
use retux.Prelude.Int.{pos, neg}
use retux.Tarfs.{record_of, le_bytes}
use retux.Strings.{strlen}
use retux.Vfs.{File}
use retux.Vfs.Chunks.{records}
use retux.Procfs.{names, bytes, proc_readdir}
use retux.Procfs.Mounted.{root_inode, names-Lists}
use retux.Dirents.{collect_chunk, sys_getdents64, max_entries}
use retux.Dirents.Collect.{IsShort}
use retux.Dirents.Emit.{
  Full, dirents, bytes_of, Full, sys_getdents64_lem, sys_getdents64-sys_getdents64,
}

abbrev proc_dir : File
proc_dir = record { inode = root_inode 8; offset = 0 }

names-IsShort : All IsShort names
unfolding bytes
names-IsShort = omega arith

names-small : (length (records names) < 2 ^ 64) × (length names < 4)
unfolding bytes record_of le_bytes
names-small = omega arith

not_a_file : sys_getdents64 4 [] none 100 ≡ some (neg 9, [], none)
unfolding sys_getdents64
not_a_file = refl

-- A name of 47 bytes does not fit in the array.
long_name : collect_chunk 2 (record_of 1 (map (λ _. b'a') (drop 0 (le_bytes 47 0)))) 56 32 [] ≡ none
unfolding collect_chunk record_of le_bytes strlen
long_name = refl

sys_getdents64_lem_run :
    (zs rest : List (ℕ × List ℕ)) × (drop 0 (take max_entries names) ≡ zs ++ rest)
    × (sys_getdents64 4 [] (some proc_dir) 40
        ≡ some (pos (bytes_of zs), dirents zs, some (record proc_dir { offset = 0 + length zs })))
    × (bytes_of zs ≤ 40)
    × Full 40 (bytes_of zs) rest
sys_getdents64_lem_run =
    sys_getdents64_lem 4 [] proc_dir 40 (proc_readdir 0) names refl refl names-Lists names-IsShort
      (names-small.0) (names-small.1)

sys_getdents64-sys_getdents64_example :
    (f' f'' : File) × (zs zs' rest : List (ℕ × List ℕ)) × (drop 0 (take max_entries names)
      ≡ zs ++ zs' ++ rest)
    × (sys_getdents64 4 [] (some proc_dir) 40 ≡ some (pos (bytes_of zs), dirents zs, some f'))
    × (sys_getdents64 4 [] (some f') 100 ≡ some (pos (bytes_of zs'), dirents zs', some f''))
    × (bytes_of zs ≤ 40)
    × (bytes_of zs' ≤ 100)
    × Full 40 (bytes_of zs) (zs' ++ rest)
    × Full 100 (bytes_of zs') rest
sys_getdents64-sys_getdents64_example =
    sys_getdents64-sys_getdents64 4 [] proc_dir 40 100 (proc_readdir 0) names refl refl names-Lists
      names-IsShort (names-small.0) (names-small.1)
