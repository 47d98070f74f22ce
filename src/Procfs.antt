-- ===== src/Procfs.antt =====
-- src/fs/procfs.cpp: three files whose content is written when they are looked up. The clocks of
-- io/hpet and io/pit are arguments. A buffer that is filled from its start is the list of its bytes.
pub mod Numbers
pub mod Content
pub mod Entries
pub mod Mounted
mod Examples
use Prim.Native.String.{String}
use Prim.Native.Char.{code}
use retux.Prelude.{
  ℕ, zero, suc, ◌+◌, ◌-◌, ◌*◌, ◌/◌, ◌%◌, ◌^◌, ◌==◌, ltb, leb, if◌then◌else◌, Bool, true, false,
  Option, none, some, List, [], ◌∷◌, ◌++◌, length, take, drop,
}
use retux.Pmm.{Pmm, total_frame_count, used_frame_count}
use retux.Tarfs.{record_of}
use retux.Vfs.{Inode, SuperBlock, ◌>>=◌}

abbrev pub ino_root : ℕ
ino_root = 0

abbrev pub ino_uptime : ℕ
ino_uptime = 1

abbrev pub ino_meminfo : ℕ
ino_meminfo = 2

abbrev pub ino_cpuinfo : ℕ
ino_cpuinfo = 3

-- The bytes of a string literal, without the NUL.
unfoldable pub bytes : String → List ℕ
bytes Prim.Native.String.[] = []
bytes (Prim.Native.String.◌∷◌ c s) = code c ∷ bytes s

abbrev pub names : List (ℕ × List ℕ)
names =
    (ino_uptime, bytes "uptime")
    ∷ (ino_meminfo, bytes "meminfo")
    ∷ (ino_cpuinfo, bytes "cpuinfo")
    ∷ []

-- `while (value > 0) tmp[--i] = ...`; `none` is a write before `tmp`.
pub dec_loop : (i : ℕ) → ℕ → List ℕ → Option (List ℕ)
dec_loop zero value out = if value == 0 then some out else none
dec_loop (suc i) value out =
    let rest = dec_loop i (value / 10) ((b'0' + value % 10) ∷ out) in
    if value == 0 then some out else rest

pub write_dec : ℕ → Option (List ℕ)
write_dec value = if value == 0 then some (b'0' ∷ []) else dec_loop 20 value []

-- What the two timers return.
pub record Clocks : Type 0 where
  pub hpet_ticks : ℕ
  pub hpet_milliseconds : ℕ
  pub pit_ticks : ℕ

pub uptime_ms : Clocks → ℕ
uptime_ms c = if ltb 0 c.hpet_ticks then c.hpet_milliseconds else c.pit_ticks

-- The two numbers of the file are written alike.
pub write_seconds : (secs centi : ℕ) → Option (List ℕ)
write_seconds secs centi = do
  whole ← write_dec secs
  part ← write_dec centi
  some (whole ++ b'.' ∷ ((if ltb centi 10 then b'0' ∷ [] else []) ++ part))

pub format_uptime : Clocks → Option (List ℕ)
format_uptime c = do
  let ms = uptime_ms c
  uptime ← write_seconds (ms / 1000) (ms % 1000 / 10)
  idle ← write_seconds (ms / 1000) (ms % 1000 / 10)
  some (uptime ++ b' ' ∷ (idle ++ b'\n' ∷ []))

pub field : String → ℕ → Option (List ℕ)
field label kb = do digits ← write_dec kb; some (bytes label ++ (digits ++ bytes " kB\n"))

pub format_meminfo : Pmm → Option (List ℕ)
format_meminfo p = do
  let total_kb = total_frame_count p * 4 % 2 ^ 64
  let free_kb = (total_frame_count p + 2 ^ 64 - used_frame_count p) % 2 ^ 64 * 4 % 2 ^ 64
  total ← field "MemTotal:       " total_kb
  free ← field "MemFree:        " free_kb
  available ← field "MemAvailable:   " free_kb
  buffers ← field "Buffers:        " 0
  cached ← field "Cached:         " 0
  swap_total ← field "SwapTotal:      " 0
  swap_free ← field "SwapFree:       " 0
  some (total ++ (free ++ (available ++ (buffers ++ (cached ++ (swap_total ++ swap_free))))))

abbrev pub format_cpuinfo : List ℕ
format_cpuinfo =
    bytes
      "processor\t: 0\nvendor_id\t: GenuineIntel\nmodel name\t: QEMU Virtual CPU\ncpu MHz\t\t: 2000.000\ncache size\t: 0 KB\ncpu cores\t: 1\n\n"

-- The inner `none` is a null pointer for the data.
pub render : Clocks → Pmm → ℕ → Option (Option (List ℕ))
render c p ino =
    if ino == ino_uptime
    then (format_uptime c >>= λ text. some (some text))
    else if ino == ino_meminfo
    then (format_meminfo p >>= λ text. some (some text))
    else if ino == ino_cpuinfo
    then some (some format_cpuinfo)
    else some none

-- What a read hands to `memcpy`: the offset in the content, and the count; `none` is -1.
pub proc_read : Option (List ℕ) → (offset count : ℕ) → Option (ℕ × ℕ)
proc_read none offset count = none
proc_read (some text) offset count =
    if leb (length text) offset
    then some (0, 0)
    else if ltb (length text) ((offset + count) % 2 ^ 64)
    then some (offset, length text - offset)
    else some (offset, count)

-- The bytes of a copy that stays inside the content.
pub read_bytes : Option (List ℕ) → (offset count : ℕ) → Option (List ℕ)
read_bytes none offset count = none
read_bytes (some text) offset count =
    proc_read (some text) offset count >>= λ (from, n). some (take n (drop from text))

-- The loop over the entries, with what the buffer holds already.
pub readdir_loop : List (ℕ × List ℕ) → (offset count stream_pos : ℕ) → List ℕ → List ℕ
readdir_loop [] offset count stream_pos out = out
readdir_loop ((ino, name) ∷ es) offset count stream_pos out =
    let needed = 8 + length name + 1 in
    let written = readdir_loop es offset count (stream_pos + needed) (out ++ record_of ino name) in
    let skipped = readdir_loop es offset count (stream_pos + needed) out in
    if leb offset stream_pos
    then (if ltb count (length out + needed) then out else written)
    else skipped

pub proc_readdir : (ino : ℕ) → (offset count : ℕ) → Option (List ℕ)
proc_readdir ino offset count =
    if ino == ino_root then some (readdir_loop names offset count 0 []) else none

-- The private data of the root is null, and so is its content.
pub make_inode : Clocks → Pmm → (sb ino : ℕ) → Option Inode
make_inode c p sb ino =
    if ino == ino_root
    then some (record {
      ino = ino_root;
      size = 0;
      is_dir = true;
      sb = sb;
      read = some (read_bytes none);
      readdir = some (proc_readdir ino_root);
    })
    else (do
      content ← render c p ino
      some (record {
        ino = ino;
        size = (elim content [ none ↦ 0 | some text ↦ length text ]);
        is_dir = false;
        sb = sb;
        read = some (read_bytes content);
        readdir = some (proc_readdir ino);
      }))

-- The outer `none` is a null pointer, the inner one a write outside a buffer.
pub proc_get_inode : Clocks → Pmm → (sb ino : ℕ) → Option (Option Inode)
proc_get_inode c p sb ino = if ltb ino_cpuinfo ino then none else some (make_inode c p sb ino)

-- The operations of the superblock at `sb`, as `vfs` calls them.
pub mount : Clocks → Pmm → (sb : ℕ) → SuperBlock
mount c p sb = record {
  root_inode = some (make_inode c p sb ino_root);
  get_inode = some (λ ino. proc_get_inode c p sb ino >>= λ inode. inode);
}
