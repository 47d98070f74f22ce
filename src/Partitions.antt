-- ===== src/Partitions.antt =====
-- src/fs/partition.cpp: the scan of a disk for partitions. The disk is the function that reads a
-- sector, `none` where the read fails; a sector is the function from the offset to the byte. The
-- partitions that are written to `out` are a list, without their flag `valid`, which is always set.
-- A division by zero is `none`.
pub mod Scan
mod Examples
use retux.Prelude.{
  ℕ, zero, suc, ◌+◌, ◌-◌, ◌*◌, ◌/◌, ◌%◌, ◌^◌, ◌==◌, ltb, if◌then◌else◌, Bool, true, false, not,
  ◌||◌, ◌&&◌, Option, none, some, List, [], ◌∷◌,
}
use retux.Prelude.Int.{ℤ, pos, negsuc}
use retux.Strings.{strncmp}

abbrev pub Sector : Type 0
Sector = ℕ → ℕ

abbrev pub Disk : Type 0
Disk = ℕ → Option Sector

pub record Partition : Type 0 where
  pub start_lba : ℕ
  pub sector_count : ℕ
  pub type : ℕ

-- The little-endian number of `n` bytes at an offset.
unfoldable pub number_at : ℕ → Sector → ℕ → ℕ
number_at zero sector i = 0
number_at (suc n) sector i = sector i % 256 + 256 * number_at n sector (i + 1)

unfoldable pub bytes_at : ℕ → Sector → ℕ → List ℕ
bytes_at zero sector i = []
bytes_at (suc n) sector i = sector i ∷ bytes_at n sector (i + 1)

-- Entry `i` of the MBR's table at offset 446, 16 bytes each.
pub mbr_type : Sector → ℕ → ℕ
mbr_type sector i = sector (446 + 16 * i + 4)

pub mbr_part : Sector → ℕ → Partition
mbr_part sector i = record {
  start_lba = number_at 4 sector (446 + 16 * i + 8);
  sector_count = number_at 4 sector (446 + 16 * i + 12);
  type = mbr_type sector i;
}

pub is_gpt : Sector → Bool
is_gpt sector =
    mbr_type sector 0 == 0xee
    || mbr_type sector 1 == 0xee
    || mbr_type sector 2 == 0xee
    || mbr_type sector 3 == 0xee

-- `for (i = 0; i < 4 && count < max; ++i)`, by the rounds and the room that are left.
pub mbr_from : ℕ → ℕ → Sector → ℕ → List Partition
mbr_from zero i sector room = []
mbr_from (suc rounds) i sector room =
    let skipped = mbr_from rounds (i + 1) sector room in
    let taken = mbr_from rounds (i + 1) sector (room - 1) in
    if room == 0 then [] else if mbr_type sector i == 0 then skipped else mbr_part sector i ∷ taken

-- The type GUID's 16 bytes are all zero.
pub all_zero : List ℕ → Bool
all_zero [] = true
all_zero (b ∷ bs) = let rest = all_zero bs in b == 0 && rest

pub gpt_part : Sector → ℕ → Partition
gpt_part sector at = record {
  start_lba = number_at 8 sector (at + 32);
  sector_count =
      (number_at 8 sector (at + 40) + 2 ^ 64 - number_at 8 sector (at + 32) + 1) % 2 ^ 64;
  type = 0;
}

abbrev pub add_to : Partition → Option (List Partition) → Option (List Partition)
add_to p none = none
add_to p (some ps) = some (p ∷ ps)

-- `for (i = 0; i < num_entries && count < max; ++i)`
pub gpt_from : ℕ → ℕ → Disk → (entry_lba entry_size room : ℕ) → Option (List Partition)
gpt_from zero i disk entry_lba entry_size room = some []
gpt_from (suc rounds) i disk entry_lba entry_size room =
    let skipped = gpt_from rounds (i + 1) disk entry_lba entry_size room in
    let taken = gpt_from rounds (i + 1) disk entry_lba entry_size (room - 1) in
    let entries_per_sector = 512 / entry_size in
    let at = i % entries_per_sector * entry_size in
    if room == 0
    then some []
    else if entries_per_sector == 0
    then none
    else elim (disk ((entry_lba + i / entries_per_sector) % 2 ^ 64)) [
      | none ↦ some []
      | some sector ↦
          if all_zero (bytes_at 16 sector at) then skipped else add_to (gpt_part sector at) taken
    ]

-- "EFI PART"
abbrev pub efi_part : List ℕ
efi_part = b'E' ∷ b'F' ∷ b'I' ∷ b' ' ∷ b'P' ∷ b'A' ∷ b'R' ∷ b'T' ∷ []

abbrev pub is_zero : ℤ → Bool
is_zero (pos n) = n == 0
is_zero (negsuc n) = false

-- An entry is taken to have 128 bytes at least.
pub gpt_entry_size : Sector → ℕ
gpt_entry_size header = if ltb (number_at 4 header 84) 128 then 128 else number_at 4 header 84

pub scan_gpt : Disk → Sector → ℕ → Option (List Partition)
scan_gpt disk header max =
    if is_zero (strncmp (bytes_at 8 header 0) efi_part 8)
    then gpt_from (number_at 4 header 80) 0 disk (number_at 8 header 72) (gpt_entry_size header) max
    else some []

pub scan : Disk → ℕ → Option (List Partition)
scan disk max = if max == 0 then some [] else elim (disk 0) [
  | none ↦ some []
  | some mbr ↦
      if not (number_at 2 mbr 510 == 0xaa55)
      then some []
      else if is_gpt mbr
      then elim (disk 1) [ none ↦ some [] | some header ↦ scan_gpt disk header max ]
      else some (mbr_from 4 0 mbr max)
]
