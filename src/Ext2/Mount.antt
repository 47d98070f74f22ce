-- ===== src/Ext2/Mount.antt =====
-- Mounting in src/fs/ext2.cpp and the inodes it leads to, on a disk that is given by its bytes.
use mathlib.Core.Path.{fun_ext}
use native.Mathlib.Nat.{div-add-mod', mul-add-div_right, mul_assoc, one-le-pow}
use retux.Prelude.{
  ℕ, zero, suc, ◌+◌, ◌-◌, ◌*◌, ◌/◌, ◌%◌, ◌^◌, ◌==◌, ltb, leb, ◌≤◌, ◌<◌, ◌≡◌, refl, ap, ◌∙◌, true,
  false, arith, some,
}
use retux.Partitions.{number_at}
use retux.Ext2.{
  Ext2State, Device, Buffer, inode_at, read_block, bg_inode_table, fetch_inode, block_size_of,
  inode_size_of, num_groups_of, mount, max_groups,
}

-- A disk of 512-byte sectors whose reads do not fail.
abbrev pub device_of : (ℕ → ℕ) → Device
device_of disk lba count = some (λ i. disk (lba * 512 + i))

-- The superblock starts at byte 1024.
abbrev pub superblock : (ℕ → ℕ) → Buffer
superblock disk i = disk (2 * 512 + i)

abbrev pub bytes_per_block : (ℕ → ℕ) → ℕ
bytes_per_block disk = block_size_of (number_at 4 (superblock disk) 24)

abbrev pub per_group : (ℕ → ℕ) → ℕ
per_group disk = number_at 4 (superblock disk) 40

-- The superblock's fields are within what the driver supports.
pub record IsExt2 (disk : ℕ → ℕ) : Type 0 where
  pub magic : number_at 2 (superblock disk) 56 ≡ 0xef53
  pub small : number_at 4 (superblock disk) 24 < 22
  pub grouped : 0 < number_at 4 (superblock disk) 32
  pub groups : num_groups_of (superblock disk) ≤ max_groups
  pub first : number_at 4 (superblock disk) 20 + 1 < 2 ^ 32
  pub inodes : 0 < per_group disk
  pub whole : bytes_per_block disk % inode_size_of (superblock disk) ≡ 0

-- The table of groups is in the block behind the superblock's.
abbrev pub group_at : (ℕ → ℕ) → ℕ → ℕ
group_at disk group = (number_at 4 (superblock disk) 20 + 1) * bytes_per_block disk + 32 * group

-- Where the inode of a number lies.
abbrev pub inode_address : (ℕ → ℕ) → (ino : ℕ) → ℕ
inode_address disk ino =
    number_at 4 disk (group_at disk ((ino - 1) / per_group disk) + 8) * bytes_per_block disk
    + (ino - 1) % per_group disk * inode_size_of (superblock disk)

number_at-shift :
    (n : ℕ) (disk : ℕ → ℕ) (base i : ℕ)
    → number_at n (λ i. disk (base + i)) i ≡ number_at n disk (base + i)
unfolding number_at
number_at-shift zero disk base i = refl
number_at-shift (suc n) disk base i =
    let next : base + (i + 1) ≡ base + i + 1 = omega arith in
    rw (number_at-shift n disk base (i + 1), next) refl

inode_at-shift :
    (disk : ℕ → ℕ) (base at : ℕ) → inode_at (λ i. disk (base + i)) at ≡ inode_at disk (base + at)
unfolding inode_at
inode_at-shift disk base at =
    let size : base + (at + 4) ≡ base + at + 4 = omega arith in
    let block = λ (i : ℕ).
      let next : base + (at + 40 + 4 * i) ≡ base + at + 40 + 4 * i = omega arith in
      number_at-shift 4 disk base (at + 40 + 4 * i) ∙ ap (number_at 4 disk) next in
    rw (number_at-shift 2 disk base at, number_at-shift 4 disk base (at + 4), size, fun_ext block)
      refl

block_size_lem : (log : ℕ) → log < 22 → block_size_of log / 512 * 512 ≡ block_size_of log
unfolding block_size_of
block_size_lem log small =
    let real : ltb log 22 ≡ true = ground (arith, small) in
    let whole = λ (x : ℕ). (let e : 1024 * x / 512 * 512 ≡ 1024 * x = omega arith in e) in
    rw real (whole (2 ^ log))

block_size-pos : (log : ℕ) → log < 22 → 0 < block_size_of log
unfolding block_size_of
block_size-pos log small =
    let real : ltb log 22 ≡ true = ground (arith, small) in
    rw real (omega (arith, one-le-pow log 2 (omega arith)))

-- Whole blocks, counted in sectors.
in_sectors : (b log : ℕ) → log < 22 → b * (block_size_of log / 512) * 512 ≡ b * block_size_of log
in_sectors b log small =
    mul_assoc b (block_size_of log / 512) 512 ∙ ap (λ n. b * n) (block_size_lem log small)

block_and_offset : (t off bs : ℕ) → (t + off / bs) * bs + off % bs ≡ t * bs + off
block_and_offset t off bs =
    let split = div-add-mod' off bs in
    let sum : (t + off / bs) * bs ≡ t * bs + off / bs * bs = grind arith in
    omega (arith, split, sum)

-- What a mounted disk leads to.
abbrev pub mounted : (ℕ → ℕ) → Ext2State
mounted disk = record {
  read = device_of disk;
  block_size = bytes_per_block disk;
  sectors_per_block = bytes_per_block disk / 512;
  inodes_per_group = per_group disk;
  inode_size = inode_size_of (superblock disk);
  first_data_block = number_at 4 (superblock disk) 20;
  blocks_per_group = number_at 4 (superblock disk) 32;
  num_groups = num_groups_of (superblock disk);
  bgdt =
      λ i. disk ((number_at 4 (superblock disk) 20 + 1) * (bytes_per_block disk / 512) * 512 + i);
}

pub mount_lem : (disk : ℕ → ℕ) → IsExt2 disk → mount (device_of disk) ≡ some (some (mounted disk))
unfolding mount
mount_lem disk h =
    let magic : (number_at 2 (superblock disk) 56 == 0xef53) ≡ true = ground (arith, h.magic) in
    let grouped : (number_at 4 (superblock disk) 32 == 0) ≡ false = ground (arith, h.grouped) in
    let groups : ltb max_groups (num_groups_of (superblock disk)) ≡ false =
      ground (arith, h.groups) in
    let first : (number_at 4 (superblock disk) 20 + 1) % 2 ^ 32
        ≡ number_at 4 (superblock disk) 20 + 1 =
      omega (arith, h.first) in
    rw (magic, grouped, groups, first) refl

-- Where the descriptor of a group lies.
bg_inode_table-mounted :
    (disk : ℕ → ℕ) (group : ℕ)
    → IsExt2 disk
    → bg_inode_table (mounted disk) group ≡ number_at 4 disk (group_at disk group + 8)
unfolding bg_inode_table
bg_inode_table-mounted disk group h =
    let start = number_at 4 (superblock disk) 20 + 1 in
    let at = in_sectors start (number_at 4 (superblock disk) 24) h.small in
    let sum : start * (bytes_per_block disk / 512) * 512 + (32 * group + 8)
        ≡ start * bytes_per_block disk + 32 * group + 8 =
      omega (arith, at) in
    number_at-shift 4 disk (start * (bytes_per_block disk / 512) * 512) (32 * group + 8)
    ∙ ap (number_at 4 disk) sum

-- On a disk of bytes with a superblock of supported fields, mount succeeds and fetch_inode gives
-- the inode that lies at its place in the table of its group, when its group exists and neither
-- its offset in the table nor its block number wraps in 32 bits.
pub fetch_inode-mount :
    (disk : ℕ → ℕ) (ino : ℕ)
    → IsExt2 disk
    → 0 < ino
    → (ino - 1) / per_group disk < num_groups_of (superblock disk)
    → (ino - 1) % per_group disk * inode_size_of (superblock disk) < 2 ^ 32
    → inode_address disk ino / bytes_per_block disk < 2 ^ 32
    → (st : Ext2State) × (mount (device_of disk) ≡ some (some st))
      × (fetch_inode st ino ≡ some (some (inode_at disk (inode_address disk ino))))
unfolding fetch_inode read_block
fetch_inode-mount disk ino h some_ino group_lt off_word word =
    let bs = bytes_per_block disk in
    let group = (ino - 1) / per_group disk in
    let off = (ino - 1) % per_group disk * inode_size_of (superblock disk) in
    let table = number_at 4 disk (group_at disk group + 8) in
    let real : (ino == 0) ≡ false = ground (arith, some_ino) in
    let inodes : (per_group disk == 0) ≡ false = ground (arith, h.inodes) in
    let in_group : leb (num_groups_of (superblock disk)) group ≡ false = ground (arith, group_lt) in
    let some_bs : 0 < bs = block_size-pos (number_at 4 (superblock disk) 24) h.small in
    let sized : (bs == 0) ≡ false = ground (arith, some_bs) in
    let table_lem = bg_inode_table-mounted disk group h in
    let no_wrap : off % 2 ^ 32 ≡ off = omega (arith, off_word) in
    let block : (table * bs + off) / bs ≡ table + off / bs = mul-add-div_right some_bs table off in
    let block_word : (table + off / bs) % 2 ^ 32 ≡ table + off / bs = omega (arith, word, block) in
    let at : (table + off / bs) * (bs / 512) * 512 + off % bs ≡ inode_address disk ino =
      ap (λ n. n + off % bs)
        (in_sectors (table + off / bs) (number_at 4 (superblock disk) 24) h.small)
      ∙ block_and_offset table off bs in
    (
      mounted disk,
      mount_lem disk h,
      rw (real, inodes, in_group, sized, no_wrap, table_lem, block_word)
          (ap (λ d. some (some d))
            (inode_at-shift disk ((table + off / bs) * (bs / 512) * 512) (off % bs)
              ∙ ap (inode_at disk) at)),
    )
