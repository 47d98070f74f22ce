-- ===== src/Ext2/Examples.antt =====
-- A small disk under src/fs/ext2.cpp: blocks of 1024 bytes, a file of two blocks and a directory of
-- two entries.
use retux.Prelude.{
  ℕ, zero, suc, ◌+◌, ◌-◌, ◌*◌, ◌%◌, ◌^◌, ◌==◌, ◌≤◌, ◌<◌, ◌≡◌, refl, arith, if◌then◌else◌, List, [],
  ◌∷◌, ◌++◌, some, min, length, update,
}
use retux.Partitions.{number_at, bytes_at}
use retux.Tarfs.{record_of, le_bytes}
use retux.Vfs.{Inode, find_entry, read_whole_file}
use retux.Vfs.Chunks.{records, lookup}
use retux.Ext2.{
  Ext2State, Ext2Inode, Ext2DirEntry, Buffer, Device, inode_at, entry_at, ext2_read, copy_blocks,
  ext2_readdir, answer, resolve_block, read_block, fetch_inode, make_vfs_inode, mount,
  bg_inode_table, num_groups_of, inode_size_of, block_size_of,
}
use retux.Ext2.Blocks.{Resolved, resolve_block_lem}
use retux.Ext2.Content.{Holds, byte_of, ext2_read_lem, read_whole_file-ext2}
use retux.Ext2.Mount.{IsExt2, device_of, inode_address, fetch_inode-mount}
use retux.Ext2.Entries.{DirectoryAt, concat}
use retux.Ext2.Directory.{live, Stops}
use retux.Ext2.Lookup.{ext2_readdir_lem, find_entry-ext2_readdir}

-- The table of inodes: number 2 has 2000 bytes in the blocks 20 and 21, number 3 is a directory in
-- block 22.
abbrev table : Buffer
table =
    update (update (update (update (update (update (λ _. 0) 132 208) 133 7) 168 20) 172 21) 261 4)
      296 22

-- "." and "ab".
abbrev listing : Buffer
listing =
    update
      (update
        (update
          (update
            (update (update (update (update (update (update (λ _. 0) 0 3) 4 12) 6 1) 8 b'.') 12 2)
              16 0xf4)
            17 3)
          18 2)
        20 b'a')
      21 b'b'

abbrev device : Device
device lba count =
    some (if lba == 10 then table else if lba == 44 then listing else λ i. (lba + i) % 256)

abbrev state : Ext2State
state = record {
  read = device;
  block_size = 1024;
  sectors_per_block = 2;
  inodes_per_group = 16;
  inode_size = 128;
  first_data_block = 1;
  blocks_per_group = 8192;
  num_groups = 1;
  bgdt = update (λ _. 0) 8 5;
}

abbrev file : Ext2Inode
file = inode_at table 128

abbrev directory : Ext2Inode
directory = inode_at table 256

abbrev blocks : ℕ → Buffer
blocks l i = ((20 + l) * 2 + i) % 256

abbrev dot : Ext2DirEntry
dot = record { inode = 3; rec_len = 12; name_len = 1; name = b'.' ∷ [] }

abbrev ab : Ext2DirEntry
ab = record { inode = 2; rec_len = 1012; name_len = 2; name = b'a' ∷ b'b' ∷ [] }

abbrev entries : List (List Ext2DirEntry)
entries = (dot ∷ ab ∷ []) ∷ []

file-Holds : Holds state file blocks
unfolding resolve_block read_block inode_at number_at
file-Holds zero inside = (λ z. omega (arith, z), refl)
file-Holds (suc zero) inside = (λ z. omega (arith, z), refl)
file-Holds (suc (suc l)) inside = absurd (omega (arith, inside))

directory-DirectoryAt : DirectoryAt state directory 0 entries
unfolding resolve_block read_block inode_at number_at entry_at bytes_at
directory-DirectoryAt = (
  listing,
  omega arith,
  (λ z. omega (arith, z)),
  refl,
  (omega arith, refl, omega arith, (omega arith, refl, omega arith, omega arith)),
  omega arith,
)

resolve_block_lem_example : Resolved state file 256 300
resolve_block_lem_example = resolve_block_lem state file 256 refl (omega arith) 300

file-word : file.i_size < 2 ^ 32
unfolding inode_at number_at
file-word = omega arith

ext2_read_lem_run :
    ext2_read 1000 state file 1500 700
    ≡ some (some (bytes_at (min 700 (file.i_size - 1500)) (byte_of 1024 blocks) 1500))
ext2_read_lem_run =
    ext2_read_lem state file blocks (omega arith) file-word file-Holds 1000 1500 700 (omega arith)
      (omega arith)

-- The read goes over the border of the two blocks and stops at the end of the file.
read_over : (ext2_read 1000 state file 1022 4) ≡ some (some (38 ∷ 39 ∷ 42 ∷ 43 ∷ []))
unfolding ext2_read copy_blocks resolve_block read_block inode_at number_at bytes_at
read_over = refl

file_fetched : fetch_inode state 2 ≡ some (some file)
unfolding fetch_inode read_block bg_inode_table number_at
file_fetched = refl

file_small : file.i_size < 3000
unfolding inode_at number_at
file_small = omega arith

read_whole_file-ext2_example :
    (inode : Inode) × (make_vfs_inode 3000 state 7 2 ≡ some (some inode))
    × (read_whole_file 3000 (record { inode = inode; offset = 0 })
        ≡ some (some (bytes_at file.i_size (byte_of 1024 blocks) 0)))
read_whole_file-ext2_example =
    read_whole_file-ext2 state file blocks 3000 7 2 (omega arith) file-word file-Holds file_fetched
      file_small

directory-word : directory.i_size + 1024 < 2 ^ 32
unfolding inode_at number_at
directory-word = omega arith

ext2_readdir_lem_run :
    (zs rest : List (ℕ × List ℕ)) × (((2, b'a' ∷ b'b' ∷ []) ∷ []) ≡ zs ++ rest)
    × (ext2_readdir 2 state directory (length (records ((3, b'.' ∷ []) ∷ []))) 512
        ≡ some (some (records zs)))
    × (length (records zs) ≤ 512)
    × Stops 512 (length (records zs)) rest
ext2_readdir_lem_run =
    ext2_readdir_lem state directory entries 2 (omega arith) directory-word directory-DirectoryAt
      (omega arith) ((3, b'.' ∷ []) ∷ []) ((2, b'a' ∷ b'b' ∷ []) ∷ []) 512 refl

find_entry-ext2_readdir_example :
    find_entry 3
      (λ offset count. answer (ext2_readdir 2 state directory offset count))
      []
      0
      (b'a' ∷ b'b' ∷ [])
    ≡ some (lookup (live (concat entries)) (b'a' ∷ b'b' ∷ []))
unfolding record_of le_bytes
find_entry-ext2_readdir_example =
    find_entry-ext2_readdir state directory entries 2 (omega arith) directory-word
      directory-DirectoryAt (omega arith) (omega arith) (b'a' ∷ b'b' ∷ []) [] 3 (omega arith)
      (omega arith) (omega arith)

-- A disk of one group: the table of inodes is in block 5.
abbrev disk : ℕ → ℕ
disk =
    update
      (update (update (update (update (update (λ _. 0) 1028 100) 1044 1) 1057 32) 1064 16) 1080
        0x53)
      1081 0xef

abbrev disk_with_table : ℕ → ℕ
disk_with_table = update (update disk 2056 5) 5252 77

disk-IsExt2 : IsExt2 disk_with_table
unfolding number_at num_groups_of block_size_of inode_size_of
disk-IsExt2 = record {
  magic = refl;
  small = omega arith;
  grouped = omega arith;
  groups = omega arith;
  first = omega arith;
  inodes = omega arith;
  whole = refl;
}

fetch_inode-mount_example :
    (st : Ext2State) × (mount (device_of disk_with_table) ≡ some (some st))
    × (fetch_inode st 2 ≡ some (some (inode_at disk_with_table (inode_address disk_with_table 2))))
unfolding number_at num_groups_of block_size_of inode_size_of
fetch_inode-mount_example =
    fetch_inode-mount disk_with_table 2 disk-IsExt2 (omega arith) (omega arith) (omega arith)
      (omega arith)

-- A hole in a file ends the read.
sparse_ends :
    ext2_read 9 state (record file { i_block = λ i. if i == 0 then 20 else 0 }) 1022 4
    ≡ some (some (38 ∷ 39 ∷ []))
unfolding ext2_read copy_blocks resolve_block read_block inode_at number_at bytes_at
sparse_ends = refl
