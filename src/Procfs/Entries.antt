-- ===== src/Procfs/Entries.antt =====
-- Reads of the files and of the directory of src/fs/procfs.cpp, under src/fs/vfs.cpp.
use retux.Prelude.{
  ℕ, ◌+◌, ◌%◌, ◌^◌, ◌==◌, ltb, leb, ◌≤◌, ◌<◌, ◌≡◌, refl, false, some, List, length, arith,
}
use retux.Pmm.{Pmm}
use retux.Vfs.{Inode, read_whole_file}
use retux.Vfs.Whole.{Reads, read_whole_file_lem}
use retux.Procfs.{Clocks, proc_read, read_bytes, proc_readdir, render, make_inode, uptime_ms}
use retux.Procfs.Content.{render_lem}

pub read_bytes-Reads : (text : List ℕ) → length text < 2 ^ 64 → Reads (read_bytes (some text)) text
unfolding read_bytes proc_read
read_bytes-Reads text word offset count inside some_byte within =
    let early : leb (length text) offset ≡ false = ground (arith, inside) in
    let fits : ltb (length text) ((offset + count) % 2 ^ 64) ≡ false =
      ground (arith, within, word) in
    (count, some_byte, omega arith, within, rw (early, fits) refl)

-- The inode of a file with this content.
abbrev pub file_inode : (sb ino : ℕ) → List ℕ → Inode
file_inode sb ino t = record {
  ino = ino;
  size = length t;
  is_dir = false;
  sb = sb;
  read = some (read_bytes (some t));
  readdir = some (proc_readdir ino);
}

pub make_inode-file :
    (c : Clocks) (p : Pmm) (sb ino : ℕ)
    → uptime_ms c < 2 ^ 64
    → 0 < ino
    → ino ≤ 3
    → (t : List ℕ) × (render c p ino ≡ some (some t))
      × (length t ≤ 512)
      × (make_inode c p sb ino ≡ some (file_inode sb ino t))
unfolding make_inode
make_inode-file c p sb ino word real known =
    let (t, run, short, more) = render_lem c p ino word real known in
    let not_root : (ino == 0) ≡ false = ground (arith, real) in
    (t, run, short, rw (not_root, run) refl)

-- The inode of each of the three files is made with the rendered content, and read_whole_file of
-- it gives that content; the uptime is below 2^64 ms and the fuel above 512.
pub read_whole_file-procfs :
    (c : Clocks) (p : Pmm) (sb ino fuel : ℕ)
    → uptime_ms c < 2 ^ 64
    → 0 < ino
    → ino ≤ 3
    → 512 < fuel
    → (inode : Inode) × (t : List ℕ) × (make_inode c p sb ino ≡ some inode)
      × (render c p ino ≡ some (some t))
      × (read_whole_file fuel (record { inode = inode; offset = 0 }) ≡ some (some t))
read_whole_file-procfs c p sb ino fuel word real known enough =
    let (t, run, short, made) = make_inode-file c p sb ino word real known in
    (
      file_inode sb ino t,
      t,
      made,
      run,
      read_whole_file_lem fuel (record { inode = file_inode sb ino t; offset = 0 }) t
          (read_bytes (some t)) refl (read_bytes-Reads t (omega arith)) refl refl (omega arith)
          (omega arith),
    )
