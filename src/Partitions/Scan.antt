-- ===== src/Partitions/Scan.antt =====
-- What the scan of src/fs/partition.cpp finds.
use retux.Prelude.{
  ℕ, zero, suc, ◌^◌, ◌+◌, ◌-◌, ◌*◌, ◌/◌, ◌%◌, ◌≤◌, ◌<◌, ◌≡◌, ◌≢◌, refl, ap, ◌∙◌, ◌==◌,
  if◌then◌else◌, true, false, not, Option, none, some, List, [], ◌∷◌, arith, length, length-take,
  take, if-elim, Bool-cases, inl, inr,
}
use native.Mathlib.Nat.{le-div_iff_mul-le}
use retux.Strings.{strncmp}
use retux.Partitions.{
  Sector, Disk, Partition, number_at, bytes_at, mbr_type, mbr_part, is_gpt, mbr_from, gpt_part,
  all_zero, add_to, gpt_from, efi_part, is_zero, gpt_entry_size, scan_gpt, scan,
}

-- Four bytes, the lowest first.
abbrev pub le32 : Sector → ℕ → ℕ
le32 sector at =
    sector at % 256
    + 2 ^ 8 * (sector (at + 1) % 256)
    + 2 ^ 16 * (sector (at + 2) % 256)
    + 2 ^ 24 * (sector (at + 3) % 256)

-- Entry `i` by the layout of the table: the type at byte 4, the first sector at byte 8 and the
-- number of sectors at byte 12.
abbrev pub entry_fields : Sector → ℕ → Partition
entry_fields sector i = record {
  start_lba = le32 sector (454 + 16 * i);
  sector_count = le32 sector (458 + 16 * i);
  type = sector (450 + 16 * i);
}

-- The entries from `i` on that are in use.
unfoldable pub used_entries : ℕ → ℕ → Sector → List Partition
used_entries zero i sector = []
used_entries (suc n) i sector =
    let rest = used_entries n (i + 1) sector in
    if sector (450 + 16 * i) == 0 then rest else entry_fields sector i ∷ rest

number_at-le32 : (sector : Sector) (a b : ℕ) → a ≡ b → number_at 4 sector a ≡ le32 sector b
unfolding number_at
number_at-le32 sector a b same =
    ap (number_at 4 sector) same
    ∙ (let second : b + 1 + 1 ≡ b + 2 = omega arith in
        let third : b + 2 + 1 ≡ b + 3 = omega arith in rw (second, third) (omega arith))

mbr_type-byte : (sector : Sector) (i : ℕ) → mbr_type sector i ≡ sector (450 + 16 * i)
unfolding mbr_type
mbr_type-byte sector i = ap sector (omega arith)

mbr_part-entry_fields : (sector : Sector) (i : ℕ) → mbr_part sector i ≡ entry_fields sector i
unfolding mbr_part
mbr_part-entry_fields sector i =
    rw
      (
        number_at-le32 sector (446 + 16 * i + 8) (454 + 16 * i) (omega arith),
        number_at-le32 sector (446 + 16 * i + 12) (458 + 16 * i) (omega arith),
        mbr_type-byte sector i,
      )
      refl

mbr_from-used_entries :
    (n i : ℕ) (sector : Sector) (room : ℕ)
    → mbr_from n i sector room ≡ take room (used_entries n i sector)
unfolding mbr_from used_entries
mbr_from-used_entries zero i sector zero = refl
mbr_from-used_entries zero i sector (suc room) = refl
mbr_from-used_entries (suc n) i sector zero = refl
mbr_from-used_entries (suc n) i sector (suc room) =
    let rest = mbr_from-used_entries n (i + 1) sector (suc room) in
    let shorter : mbr_from n (i + 1) sector (suc room - 1)
        ≡ take room (used_entries n (i + 1) sector) =
      ap (mbr_from n (i + 1) sector) (let e : suc room - 1 ≡ room = omega arith in e)
      ∙ mbr_from-used_entries n (i + 1) sector room in
    let more : (suc room == 0) ≡ false = ground arith in
    let type = mbr_type-byte sector i in
    elim (Bool-cases (sector (450 + 16 * i) == 0)) [
      | inl empty ↦ rw (more, type, empty) rest
      | inr used ↦
          rw (more, type, used, mbr_part-entry_fields sector i)
            (ap (◌∷◌ (entry_fields sector i)) shorter)
    ]

-- On a disk with a signed MBR whose four types, bytes 4 of the entries, are not 0xee, the scan
-- finds the first max of the entries in use, in order, each with the first sector from its bytes 8
-- to 11 and the number of sectors from its bytes 12 to 15.
pub scan_mbr :
    (disk : Disk) (mbr : Sector) (max : ℕ)
    → disk 0 ≡ some mbr
    → (mbr 510 % 256 ≡ 0x55) × (mbr 511 % 256 ≡ 0xaa)
    → ((i : ℕ) → i < 4 → mbr (450 + 16 * i) ≢ 0xee)
    → scan disk max ≡ some (take max (used_entries 4 0 mbr))
unfolding scan is_gpt number_at
scan_mbr disk mbr zero there signed no_gpt = refl
scan_mbr disk mbr (suc max) there (low, high) no_gpt =
    let signed : number_at 2 mbr 510 ≡ 0xaa55 = omega (arith, low, high) in
    let plain : is_gpt mbr ≡ false =
      rw (mbr_type-byte mbr 0, mbr_type-byte mbr 1, mbr_type-byte mbr 2, mbr_type-byte mbr 3)
        (ground (
          arith,
          no_gpt 0 (omega arith),
          no_gpt 1 (omega arith),
          no_gpt 2 (omega arith),
          no_gpt 3 (omega arith),
        )) in
    let more : (suc max == 0) ≡ false = ground arith in
    let ok : (number_at 2 mbr 510 == 0xaa55) ≡ true = ground (arith, signed) in
    rw (more, there) (rw (ok, plain) (ap some (mbr_from-used_entries 4 0 mbr (suc max))))

-- A scan that ends with at most `max` partitions.
abbrev pub AtMost : ℕ → Option (List Partition) → Type 0
AtMost max found = (ps : List Partition) × (found ≡ some ps) × (length ps ≤ max)

add_to-AtMost :
    (room : ℕ) (p : Partition) (found : Option (List Partition))
    → room ≢ 0
    → AtMost (room - 1) found
    → AtMost room (add_to p found)
add_to-AtMost room p found more (ps, e, le) = (p ∷ ps, rw e refl, omega (arith, more, le))

-- A sector that cannot be read ends the scan.
read-AtMost :
    (room : ℕ) (read : Option Sector) (go_on : Sector → Option (List Partition))
    → ((sector : Sector) → read ≡ some sector → AtMost room (go_on sector))
    → AtMost room (elim read [ none ↦ some [] | some sector ↦ go_on sector ])
read-AtMost room none go_on h = ([], refl, omega arith)
read-AtMost room (some sector) go_on h = h sector refl

gpt_from-AtMost :
    (n i : ℕ) (disk : Disk) (entry_lba entry_size room : ℕ)
    → 1 ≤ entry_size
    → entry_size ≤ 512
    → AtMost room (gpt_from n i disk entry_lba entry_size room)
unfolding gpt_from
gpt_from-AtMost zero i disk entry_lba entry_size room lo hi = ([], refl, omega arith)
gpt_from-AtMost (suc n) i disk entry_lba entry_size room lo hi =
    let some_fit : 1 ≤ 512 / entry_size = (le-div_iff_mul-le lo).1 (omega (arith, hi)) in
    let per = 512 / entry_size in
    let at = i % per * entry_size in
    if-elim (AtMost room) (room == 0) (λ _. ([], refl, omega arith))
      (λ more.
        if-elim (AtMost room) (per == 0) (λ z. absurd (ground (arith, some_fit, z)))
          (λ _.
            read-AtMost room (disk ((entry_lba + i / per) % 2 ^ 64))
              (λ sector.
                if all_zero (bytes_at 16 sector at)
                then gpt_from n (i + 1) disk entry_lba entry_size room
                else add_to (gpt_part sector at)
                    (gpt_from n (i + 1) disk entry_lba entry_size (room - 1)))
              (λ sector _.
                if-elim (AtMost room) (all_zero (bytes_at 16 sector at))
                  (λ _. gpt_from-AtMost n (i + 1) disk entry_lba entry_size room lo hi)
                  (λ _.
                    add_to-AtMost room (gpt_part sector at)
                      (gpt_from n (i + 1) disk entry_lba entry_size (room - 1))
                      (ground (arith, more))
                      (gpt_from-AtMost n (i + 1) disk entry_lba entry_size (room - 1) lo hi)))))

-- When the entry size of the GPT header, if there is one, is at most a sector, the scan ends with
-- at most max partitions, whatever else the disk holds.
pub scan-AtMost :
    (disk : Disk) (max : ℕ)
    → ((header : Sector) → disk 1 ≡ some header → number_at 4 header 84 ≤ 512)
    → AtMost max (scan disk max)
unfolding scan scan_gpt gpt_entry_size
scan-AtMost disk max fits =
    if-elim (AtMost max) (max == 0) (λ _. ([], refl, omega arith))
      (λ _.
        read-AtMost max (disk 0)
          (λ mbr.
            if not (number_at 2 mbr 510 == 0xaa55)
            then some []
            else if is_gpt mbr
            then elim (disk 1) [ none ↦ some [] | some header ↦ scan_gpt disk header max ]
            else some (mbr_from 4 0 mbr max))
          (λ mbr _.
            if-elim (AtMost max) (not (number_at 2 mbr 510 == 0xaa55))
              (λ _. ([], refl, omega arith))
              (λ _.
                if-elim (AtMost max) (is_gpt mbr)
                  (λ _.
                    read-AtMost max (disk 1) (λ header. scan_gpt disk header max)
                      (λ header e.
                        if-elim (AtMost max) (is_zero (strncmp (bytes_at 8 header 0) efi_part 8))
                          (λ _.
                            gpt_from-AtMost (number_at 4 header 80) 0 disk (number_at 8 header 72)
                              (gpt_entry_size header) max (ground arith)
                              (ground (arith, fits header e)))
                          (λ _. ([], refl, omega arith))))
                  (λ _. (
                    mbr_from 4 0 mbr max,
                    refl,
                    omega (
                      arith,
                      ap length (mbr_from-used_entries 4 0 mbr max),
                      length-take max (used_entries 4 0 mbr),
                    ),
                  )))))
