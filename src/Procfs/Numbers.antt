-- ===== src/Procfs/Numbers.antt =====
-- The decimal digits that src/fs/procfs.cpp writes.
use mathlib.Core.List.{append_assoc, append-nil}
use native.Mathlib.Nat.{pow-suc}
use retux.Prelude.{
  ℕ, zero, suc, ◌+◌, ◌-◌, ◌*◌, ◌/◌, ◌%◌, ◌^◌, ◌==◌, ◌≤◌, ◌<◌, ◌≡◌, refl, sym, ap, ◌∙◌, some, List,
  [], ◌∷◌, ◌++◌, length, All, arith, length-append, Bool-cases, inl, inr, ==_iff,
}
use retux.Procfs.{dec_loop, write_dec}

-- The number that decimal digits stand for, after the ones that gave `n`.
unfoldable pub read_dec : ℕ → List ℕ → ℕ
read_dec n [] = n
read_dec n (c ∷ ds) = read_dec (n * 10 + (c - b'0')) ds

abbrev pub IsDigit : ℕ → Type 0
IsDigit c = (b'0' ≤ c) × (c ≤ b'9')

All-append : (xs ys : List ℕ) → All IsDigit xs → All IsDigit ys → All IsDigit (xs ++ ys)
All-append [] ys a b = b
All-append (x ∷ xs) ys (d, a) b = (d, All-append xs ys a b)

-- The loop adds the digits of the value before those that stand there.
dec_loop_lem :
    (i value : ℕ) (out : List ℕ)
    → value < 10 ^ i
    → (ds : List ℕ) × (dec_loop i value out ≡ some (ds ++ out))
      × (read_dec 0 (ds ++ out) ≡ read_dec value out)
      × (length ds ≤ i)
      × (0 < value → 0 < length ds)
      × All IsDigit ds
unfolding dec_loop read_dec
dec_loop_lem zero value out small =
    let none_left : value ≡ 0 = omega (arith, small) in
    (
      [],
      rw none_left refl,
      rw none_left refl,
      omega arith,
      λ more. omega (arith, more, none_left),
      tt,
    )
dec_loop_lem (suc i) value out small = elim (Bool-cases (value == 0)) [
  | inl none_left ↦
      let empty : value ≡ 0 = (==_iff value 0).0 none_left in
      ([], rw none_left refl, rw empty refl, omega arith, λ more. omega (arith, more, empty), tt)
  | inr more ↦
      let small' : value < 10 ^ i * 10 = rw⁻¹ (pow-suc 10 i) small in
      let (ds, run, reads, short, _, digits) =
        dec_loop_lem i (value / 10) ((b'0' + value % 10) ∷ out) (omega (arith, small')) in
      (
        ds ++ (b'0' + value % 10) ∷ [],
        rw (more, append_assoc ds ((b'0' + value % 10) ∷ []) out) run,
        ap (read_dec 0) (append_assoc ds ((b'0' + value % 10) ∷ []) out)
            ∙ reads
            ∙ ap (λ n. read_dec n out) (omega arith),
        omega (arith, short, length-append ds ((b'0' + value % 10) ∷ [])),
        λ _. omega (arith, length-append ds ((b'0' + value % 10) ∷ [])),
        All-append ds ((b'0' + value % 10) ∷ []) digits ((omega arith, omega arith), tt),
      )
]

-- Write_dec of a 64-bit value writes between 1 and 20 digits, all from 0 to 9, that read back as
-- the value.
pub write_dec_lem :
    (value : ℕ)
    → value < 2 ^ 64
    → (ds : List ℕ) × (write_dec value ≡ some ds)
      × (read_dec 0 ds ≡ value)
      × (length ds ≤ 20)
      × (0 < length ds)
      × All IsDigit ds
unfolding write_dec read_dec
write_dec_lem value word = elim (Bool-cases (value == 0)) [
  | inl zero_value ↦
      let is_zero : value ≡ 0 = (==_iff value 0).0 zero_value in
      (
        b'0' ∷ [],
        rw zero_value refl,
        sym is_zero,
        omega arith,
        omega arith,
        ((omega arith, omega arith), tt),
      )
  | inr more ↦
      let (ds, run, reads, short, some_digit, digits) =
        dec_loop_lem 20 value [] (omega (arith, word)) in
      (
        ds,
        rw (more, run, append-nil ds) refl,
        ap (read_dec 0) (sym (append-nil ds)) ∙ reads,
        short,
        some_digit (ground (arith, more)),
        digits,
      )
]
