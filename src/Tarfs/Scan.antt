-- ===== src/Tarfs/Scan.antt =====
-- The scan of the archive's headers in src/fs/tarfs.cpp, `count_entries`.
use retux.Prelude.{
  ℕ, zero, suc, ◌+◌, ◌-◌, ◌*◌, ◌%◌, ◌^◌, ◌≤◌, ◌<◌, ◌≡◌, refl, ltb, leb, false, ◌||◌, ◌&&◌, not,
  ◌==◌, List, [], ◌∷◌, some, arith, length, Bool-cases, inl, inr, if-elim,
}
use retux.Strings.{char}
use retux.Tarfs.{
  parse_octal_from, parse_octal, UstarHeader, next_offset, data_blocks, count_entries,
}

-- `m` with as many octal digits behind it.
abbrev with_digits : ℕ → ℕ → ℕ
with_digits zero m = m
with_digits (suc room) m = with_digits room (m * 8)

with_digits-bound : (room m : ℕ) → m ≤ with_digits room m
with_digits-bound zero m = omega arith
with_digits-bound (suc room) m = omega (arith, with_digits-bound room (m * 8))

parse_octal_from-bound :
    (room m value : ℕ) (field : List ℕ)
    → length field ≤ room
    → value < m
    → parse_octal_from value field < with_digits room m
unfolding parse_octal_from
parse_octal_from-bound room m value [] short small = omega (arith, small, with_digits-bound room m)
parse_octal_from-bound zero m value (c ∷ field) short small = elim short [ ]
parse_octal_from-bound (suc room) m value (c ∷ field) short small =
    if-elim (λ v. v < with_digits room (m * 8)) (ltb c b'0' || ltb b'7' c)
      (λ _. omega (arith, small, with_digits-bound (suc room) m))
      (λ digit.
        parse_octal_from-bound room (m * 8) ((value * 8 + (c - b'0')) % 2 ^ 64) field
          (omega (arith, short)) (ground (arith, digit, small)))

-- A size field has 12 bytes, so it is below 2 ^ 36.
parse_octal-bound : (field : List ℕ) → length field ≤ 12 → parse_octal field < 2 ^ 36
unfolding parse_octal
parse_octal-bound field short = parse_octal_from-bound 12 1 0 field short (omega arith)

next_offset-bound :
    (offset entry_size : ℕ)
    → offset < 2 ^ 62
    → entry_size < 2 ^ 36
    → offset + 512 ≤ next_offset offset entry_size
unfolding next_offset data_blocks
next_offset-bound offset entry_size small short = omega (arith, small, short)

-- In an archive of less than 2^62 bytes whose size fields have 12 bytes at most, the scan of the
-- headers ends within one round for each 512 bytes left and one more, and counts at most one entry
-- for each 512 bytes.
pub count_entries_ends :
    (rounds : ℕ) (header : ℕ → UstarHeader) (size offset : ℕ)
    → ((o : ℕ) → length (header o).size ≤ 12)
    → size < 2 ^ 62
    → size < offset + 512 * rounds
    → (n : ℕ) × (count_entries (suc rounds) header size offset ≡ some n) × (n * 512 ≤ size - offset)
unfolding count_entries
count_entries_ends zero header size offset short small enough =
    let over : leb (offset + 512) size ≡ false = ground (arith, enough) in
    (0, rw over refl, omega arith)
count_entries_ends (suc rounds) header size offset short small enough =
    elim (Bool-cases (leb (offset + 512) size && not (char (header offset).name == 0))) [
      | inl more ↦
          let inside : offset + 512 ≤ size = ground (arith, more) in
          let next =
            next_offset-bound offset (parse_octal (header offset).size)
              (omega (arith, inside, small))
              (parse_octal-bound (header offset).size (short offset)) in
          let (n, e, le) =
            count_entries_ends rounds header size
              (next_offset offset (parse_octal (header offset).size)) short small
              (omega (arith, next, enough)) in
          (n + 1, rw (more, e) refl, omega (arith, le, next, inside))
      | inr done ↦ (0, rw done refl, omega arith)
    ]
