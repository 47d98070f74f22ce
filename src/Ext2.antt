-- ===== src/Ext2.antt =====
-- src/fs/ext2.cpp: mounting, the inodes, the blocks of a file, reads and directories. A buffer is the
-- function from the offset to the byte; what a read of sectors puts into it is the answer of the
-- device, and `none` that the read fails. A buffer of 0 bytes is null; every other `kmalloc` here
-- returns memory, or the kernel halts. A division by zero is an outer `none`.
pub mod Blocks
pub mod Content
pub mod Entries
pub mod Directory
pub mod Lookup
pub mod Mount
mod Examples
use retux.Prelude.{
  ℕ, zero, suc, ◌+◌, ◌-◌, ◌*◌, ◌/◌, ◌%◌, ◌^◌, ◌==◌, ltb, leb, if◌then◌else◌, Bool, true, false, not,
  ◌&&◌, ◌||◌, Option, none, some, List, [], ◌∷◌, ◌++◌, length,
}
use retux.Partitions.{number_at, bytes_at}
use retux.Tarfs.{record_of}
use retux.Vfs.{Inode, ◌>>=◌}

abbrev pub Buffer : Type 0
Buffer = ℕ → ℕ

-- `ReadBlock`: the first sector and how many.
abbrev pub Device : Type 0
Device = ℕ → ℕ → Option Buffer

pub record Ext2State : Type 0 where
  pub read : Device
  pub block_size : ℕ
  pub sectors_per_block : ℕ
  pub inodes_per_group : ℕ
  pub inode_size : ℕ
  pub first_data_block : ℕ
  pub blocks_per_group : ℕ
  pub num_groups : ℕ
  pub bgdt : Buffer

pub record Ext2Inode : Type 0 where
  pub i_mode : ℕ
  pub i_size : ℕ
  pub i_block : ℕ → ℕ

abbrev pub max_groups : ℕ
max_groups = 128

-- The 128 bytes of an inode as they lie on the disk.
pub inode_at : Buffer → ℕ → Ext2Inode
inode_at blk at = record {
  i_mode = number_at 2 blk at;
  i_size = number_at 4 blk (at + 4);
  i_block = λ i. number_at 4 blk (at + 40 + 4 * i);
}

pub read_block : Ext2State → (block_no : ℕ) → Option Buffer
read_block st block_no = st.read (block_no * st.sectors_per_block) st.sectors_per_block

-- One step from a block of pointers, 0 if there is no such block or it cannot be read.
pub pointer_in : Ext2State → (block index : ℕ) → ℕ
pointer_in st block index =
    if block == 0
    then 0
    else elim (read_block st block) [ none ↦ 0 | some buf ↦ number_at 4 buf (4 * index) ]

-- The products of the u32 `ptrs_per_block` wrap.
pub resolve_block : Ext2State → Ext2Inode → (logical : ℕ) → ℕ
resolve_block st di logical =
    let p = st.block_size / 4 in
    let pp = p * p % 2 ^ 32 in
    let ppp = p * p * p % 2 ^ 32 in
    let single = logical - 12 in
    let double = single - p in
    let triple = double - pp in
    if ltb logical 12
    then di.i_block logical
    else if ltb single p
    then pointer_in st (di.i_block 12) single
    else if ltb double pp
    then pointer_in st (pointer_in st (di.i_block 13) (double / p)) (double % p)
    else if ltb triple ppp
    then pointer_in st
        (pointer_in st (pointer_in st (di.i_block 14) (triple / pp)) (triple % pp / p))
        (triple % pp % p)
    else 0

pub bg_inode_table : Ext2State → (group : ℕ) → ℕ
bg_inode_table st group = number_at 4 st.bgdt (32 * group + 8)

pub fetch_inode : Ext2State → (ino : ℕ) → Option (Option Ext2Inode)
fetch_inode st ino =
    let group = (ino - 1) / st.inodes_per_group in
    let local = (ino - 1) % st.inodes_per_group in
    let byte_off = local * st.inode_size % 2 ^ 32 in
    let blk_off = byte_off / st.block_size in
    if ino == 0
    then some none
    else if st.inodes_per_group == 0
    then none
    else if leb st.num_groups group
    then some none
    else if st.block_size == 0
    then none
    else elim (read_block st ((bg_inode_table st group + blk_off) % 2 ^ 32)) [
      | none ↦ some none
      | some blk ↦ some (some (inode_at blk (byte_off % st.block_size)))
    ]

-- `while (total < count)`, with what `dst` holds; `break` gives what has been copied.
pub copy_blocks : ℕ → Ext2State → Ext2Inode → (offset count : ℕ) → List ℕ → Option (List ℕ)
copy_blocks zero st di offset count dst = none
copy_blocks (suc fuel) st di offset count dst =
    let file_off = (offset + length dst) % 2 ^ 64 in
    let logical = file_off / st.block_size % 2 ^ 32 in
    let off_in_blk = file_off % st.block_size in
    let avail = st.block_size - off_in_blk in
    let rest = (count - length dst) % 2 ^ 32 in
    let to_copy = if ltb avail rest then avail else rest in
    let phys_blk = resolve_block st di logical in
    if leb count (length dst)
    then some dst
    else if phys_blk == 0
    then some dst
    else elim (read_block st phys_blk) [
      | none ↦ some dst
      | some blk_buf ↦
          copy_blocks fuel st di offset count (dst ++ bytes_at to_copy blk_buf off_in_blk)
    ]

-- -1 is the inner `none`; `offset + count` is computed in u64.
pub ext2_read : ℕ → Ext2State → Ext2Inode → (offset count : ℕ) → Option (Option (List ℕ))
ext2_read fuel st di offset count =
    let count' = if ltb di.i_size ((offset + count) % 2 ^ 64) then di.i_size - offset else count in
    if leb di.i_size offset
    then some (some [])
    else if st.block_size == 0
    then some none
    else (copy_blocks fuel st di offset count' [] >>= λ bytes. some (some bytes))

-- The fields of `Ext2DirEntry` at an offset.
pub record Ext2DirEntry : Type 0 where
  pub inode : ℕ
  pub rec_len : ℕ
  pub name_len : ℕ
  pub name : List ℕ

pub entry_at : Buffer → ℕ → Ext2DirEntry
entry_at blk pos =
    let name_len = blk (pos + 6) % 256 in
    record {
      inode = number_at 4 blk pos;
      rec_len = number_at 2 blk (pos + 4);
      name_len = name_len;
      name = bytes_at name_len blk (pos + 8);
    }

-- What the loops of `ext2_readdir` change.
pub record Listing : Type 0 where
  pub out : List ℕ
  pub stream_pos : ℕ
  pub full : Bool

-- What is done with one entry.
pub list_entry : (offset count : ℕ) → Ext2DirEntry → Listing → Listing
list_entry offset count de l =
    let needed = 8 + de.name_len + 1 in
    if not (de.inode == 0) && ltb 0 de.name_len
    then if leb offset l.stream_pos
      then if ltb count (length l.out + needed) then record l { full = true } else record l {
        out = l.out ++ record_of de.inode de.name;
        stream_pos = l.stream_pos + needed;
      }
      else record l { stream_pos = l.stream_pos + needed }
    else l

-- `while (!full && pos < size)` over the entries of a block.
pub list_block : ℕ → (offset count : ℕ) → Buffer → (size pos : ℕ) → Listing → Option Listing
list_block zero offset count blk size pos l = none
list_block (suc fuel) offset count blk size pos l =
    let de = entry_at blk pos in
    let l' = list_entry offset count de l in
    let rest = list_block fuel offset count blk size (pos + de.rec_len) l' in
    if l.full || leb size pos then some l else if de.rec_len == 0 then some l else rest

-- The loop over the blocks; the u32 `blk_start` wraps.
pub list_blocks :
    ℕ → Ext2State → Ext2Inode → (offset count blk_start : ℕ) → Listing → Option Listing
list_blocks zero st di offset count blk_start l = none
list_blocks (suc fuel) st di offset count blk_start l =
    let phys_blk = resolve_block st di (blk_start / st.block_size) in
    let blk_end = (blk_start + st.block_size) % 2 ^ 32 in
    let size =
      ((if ltb di.i_size blk_end then di.i_size else blk_end) + 2 ^ 32 - blk_start) % 2 ^ 32 in
    if l.full || leb di.i_size blk_start
    then some l
    else if phys_blk == 0
    then some l
    else elim (read_block st phys_blk) [
      | none ↦ some l
      | some blk_buf ↦
          (list_block (suc size) offset count blk_buf size 0 l >>= λ l'.
          list_blocks fuel st di offset count blk_end l')
    ]

pub ext2_readdir : ℕ → Ext2State → Ext2Inode → (offset count : ℕ) → Option (Option (List ℕ))
ext2_readdir fuel st di offset count =
    if st.block_size == 0
    then some none
    else (list_blocks fuel st di offset count 0 (record { out = []; stream_pos = 0; full = false })
        >>= λ l. some (some l.out))

-- What a driver's function answers within the fuel.
abbrev pub answer : Option (Option (List ℕ)) → Option (List ℕ)
answer none = none
answer (some r) = r

-- The inode that is made from what the disk holds; `sb` is the superblock's address.
abbrev pub vfs_inode : ℕ → Ext2State → (sb ino : ℕ) → Ext2Inode → Inode
vfs_inode fuel st sb ino di = record {
  ino = ino;
  size = di.i_size;
  is_dir = di.i_mode / 2 ^ 12 % 16 == 4;
  sb = sb;
  read = some (λ offset count. answer (ext2_read fuel st di offset count));
  readdir = some (λ offset count. answer (ext2_readdir fuel st di offset count));
}

pub make_vfs_inode : ℕ → Ext2State → (sb ino : ℕ) → Option (Option Inode)
make_vfs_inode fuel st sb ino = do
  fetched ← fetch_inode st ino
  some (fetched >>= λ di. some (vfs_inode fuel st sb ino di))

pub ext2_root_inode : ℕ → Ext2State → (sb : ℕ) → Option (Option Inode)
ext2_root_inode fuel st sb = make_vfs_inode fuel st sb 2

pub ext2_get_inode : ℕ → Ext2State → (sb ino : ℕ) → Option (Option Inode)
ext2_get_inode fuel st sb ino = make_vfs_inode fuel st sb (ino % 2 ^ 32)

-- `1024u << log`; a shift by 32 and more, which C++ leaves undefined, gives 0.
pub block_size_of : ℕ → ℕ
block_size_of log = if ltb log 22 then 1024 * 2 ^ log else 0

pub inode_size_of : Buffer → ℕ
inode_size_of sb =
    if leb 1 (number_at 4 sb 76) && leb 128 (number_at 2 sb 88) then number_at 2 sb 88 else 128

-- The u32 `s_blocks_count + s_blocks_per_group - 1` wraps.
pub num_groups_of : Buffer → ℕ
num_groups_of sb = (number_at 4 sb 4 + number_at 4 sb 32 + 2 ^ 32 - 1) % 2 ^ 32 / number_at 4 sb 32

-- Sectors 2 and 3 hold the superblock.
pub mount : Device → Option (Option Ext2State)
mount read_fn = elim (read_fn 2 2) [
  | none ↦ some none
  | some sb ↦
      let block_size = block_size_of (number_at 4 sb 24) in
      let sectors_per_blk = block_size / 512 in
      let num_groups = num_groups_of sb in
      let bgdt_block = (number_at 4 sb 20 + 1) % 2 ^ 32 in
      let bgdt_sectors = (num_groups * 32 + 511) / 512 in
      if not (number_at 2 sb 56 == 0xef53)
      then some none
      else if number_at 4 sb 32 == 0
      then none
      else if ltb max_groups num_groups
      then some none
      else elim (read_fn (bgdt_block * sectors_per_blk) bgdt_sectors) [
        | none ↦ some none
        | some bgdt ↦ some (
            some (record {
              read = read_fn;
              block_size = block_size;
              sectors_per_block = sectors_per_blk;
              inodes_per_group = number_at 4 sb 40;
              inode_size = inode_size_of sb;
              first_data_block = number_at 4 sb 20;
              blocks_per_group = number_at 4 sb 32;
              num_groups = num_groups;
              bgdt = bgdt;
            }))
      ]
]
