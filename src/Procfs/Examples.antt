-- ===== src/Procfs/Examples.antt =====
-- The files of src/fs/procfs.cpp at concrete clocks.
use retux.Prelude.{
  ℕ, ◌^◌, ◌==◌, ◌≤◌, ◌<◌, ◌≡◌, refl, none, some, List, [], ◌∷◌, ◌++◌, length, All, arith,
  if◌then◌else◌,
}
use retux.Pmm.{Pmm}
use retux.Vfs.{Vfs, Inode, open_file, mount_at, read_whole_file}
use retux.Vfs.Chunks.{lookup, same}
use retux.Vfs.Tree.{slashed}
use retux.Procfs.{
  names, Clocks, bytes, write_dec, dec_loop, format_uptime, write_seconds, uptime_ms, render,
  make_inode, mount,
}
use retux.Procfs.Numbers.{read_dec, IsDigit, write_dec_lem}
use retux.Procfs.Content.{render_lem}
use retux.Procfs.Entries.{file_inode, read_whole_file-procfs}
use retux.Procfs.Mounted.{IsText, proc, open_file-procfs}

-- A minute, five seconds and 40 ms after the start, on the older timer.
abbrev clocks : Clocks
clocks = record { hpet_ticks = 0; hpet_milliseconds = 5; pit_ticks = 65040 }

abbrev frames : Pmm
frames = record { bitmap = λ _. 0; total_frames = 1000; used_frames = 10 }

abbrev vfs : Vfs
vfs = record {
  root_sb = 0;
  mounts = [];
  superblocks = λ p. if p == 8 then some (mount clocks frames 8) else none;
}

abbrev uptime : List ℕ
uptime = b'u' ∷ b'p' ∷ b't' ∷ b'i' ∷ b'm' ∷ b'e' ∷ []

uptime_text : format_uptime clocks ≡ some (bytes "65.04 65.04\n")
unfolding format_uptime write_seconds write_dec dec_loop uptime_ms bytes
uptime_text = refl

clocks-small : uptime_ms clocks < 2 ^ 64
unfolding uptime_ms
clocks-small = omega arith

write_dec_lem_example :
    (ds : List ℕ) × (write_dec 65040 ≡ some ds)
    × (read_dec 0 ds ≡ 65040)
    × (length ds ≤ 20)
    × (0 < length ds)
    × All IsDigit ds
write_dec_lem_example = write_dec_lem 65040 (omega arith)

render_lem_example :
    (t : List ℕ) × (render clocks frames 2 ≡ some (some t)) × (length t ≤ 512) × (0 < length t)
render_lem_example = render_lem clocks frames 2 clocks-small (omega arith) (omega arith)

read_whole_file-procfs_run :
    (inode : Inode) × (t : List ℕ) × (make_inode clocks frames 8 1 ≡ some inode)
    × (render clocks frames 1 ≡ some (some t))
    × (read_whole_file 513 (record { inode = inode; offset = 0 }) ≡ some (some t))
read_whole_file-procfs_run =
    read_whole_file-procfs clocks frames 8 1 513 clocks-small (omega arith) (omega arith)
      (omega arith)

uptime-found : lookup names uptime ≡ some 1
unfolding lookup same bytes
uptime-found = refl

open_file-procfs_example :
    (t : List ℕ) × IsText clocks frames uptime t
    × (open_file 2 4 (mount_at vfs proc 8) [] (proc ++ slashed (uptime ∷ []))
        ≡ some (some (record { inode = file_inode 8 1 t; offset = 0 })))
open_file-procfs_example =
    open_file-procfs clocks frames 8 vfs uptime [] 1 2 4 clocks-small refl (omega arith) tt
      (omega arith) uptime-found (omega arith) (omega arith)
