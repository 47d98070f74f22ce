-- ===== src/Partitions/Examples.antt =====
-- Disks with one partition, and the theorems on the scan there.
use mathlib.Core.Option.{some_inj}
use retux.Prelude.{
  ℕ, ◌+◌, ◌*◌, zero, suc, ◌<◌, ◌≢◌, ◌≤◌, subst, ◌≡◌, refl, ◌==◌, if◌then◌else◌, arith, none, some,
  [], ◌∷◌, take, update,
}
use retux.Partitions.{Sector, Disk, Partition, scan, number_at}
use retux.Partitions.Scan.{used_entries, scan_mbr, AtMost, scan-AtMost}

-- Entry 2 of the table holds a Linux partition of 16 sectors from sector 8 on.
abbrev mbr : Sector
mbr i =
    if i == 510
    then 0x55
    else if i == 511
    then 0xaa
    else if i == 482
    then 0x83
    else if i == 486
    then 8
    else if i == 490
    then 16
    else 0

abbrev plain_disk : Disk
plain_disk lba = if lba == 0 then some mbr else none

-- A protective MBR before a GPT with one entry of 1024 bytes.
abbrev header : Sector
header i =
    if i == 85
    then 4
    else if i == 80
    then 1
    else if i == 0
    then b'E'
    else if i == 1
    then b'F'
    else if i == 2
    then b'I'
    else if i == 3
    then b' '
    else if i == 4
    then b'P'
    else if i == 5
    then b'A'
    else if i == 6
    then b'R'
    else if i == 7
    then b'T'
    else 0

abbrev gpt_disk : Disk
gpt_disk lba =
    if lba == 0 then some (update mbr 450 0xee) else if lba == 1 then some header else none

-- The scan divides by the 0 entries that fit in a sector.
wide_entries : scan gpt_disk 4 ≡ none
unfolding scan retux.Partitions.scan_gpt retux.Partitions.gpt_from retux.Partitions.gpt_entry_size
    retux.Partitions.number_at retux.Partitions.bytes_at retux.Partitions.is_gpt
    retux.Partitions.mbr_type retux.Strings.strncmp
wide_entries = refl

plain_types : (i : ℕ) → i < 4 → mbr (450 + 16 * i) ≢ 0xee
plain_types zero lt = λ z. absurd (omega (arith, z))
plain_types (suc zero) lt = λ z. absurd (omega (arith, z))
plain_types (suc (suc zero)) lt = λ z. absurd (omega (arith, z))
plain_types (suc (suc (suc zero))) lt = λ z. absurd (omega (arith, z))
plain_types (suc (suc (suc (suc i)))) lt = absurd (omega (arith, lt))

scan_mbr_example : scan plain_disk 4 ≡ some (take 4 (used_entries 4 0 mbr))
scan_mbr_example = scan_mbr plain_disk mbr 4 refl (refl, refl) plain_types

one_entry :
    take 4 (used_entries 4 0 mbr) ≡ record { start_lba = 8; sector_count = 16; type = 0x83 } ∷ []
unfolding used_entries
one_entry = refl

-- The same with an entry of 128 bytes, in use.
abbrev good_disk : Disk
good_disk lba =
    if lba == 0
    then some (update mbr 450 0xee)
    else if lba == 1
    then some (update (update header 85 0) 84 128)
    else none

scan-AtMost_run : AtMost 4 (scan good_disk 4)
unfolding retux.Partitions.number_at
scan-AtMost_run = scan-AtMost good_disk 4 (λ h e.
    subst (λ (s : Sector). number_at 4 s 84 ≤ 512) (some_inj.0 e)
      (let small : number_at 4 (update (update header 85 0) 84 128) 84 ≤ 512 = omega arith in
        small))
