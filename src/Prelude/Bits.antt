-- ===== src/Prelude/Bits.antt =====
-- Facts about the bit operations on a byte, found by evaluating every case.
use Prim.Native.Nat.{ℕ, zero, suc, ◌-◌, ◌^◌, ◌<◌, bit_and, bit_or}
use mathlib.Core.Path.{◌≡◌, refl}
use mathlib.Core.Bool.{Bool, true, false, ◌&&◌, ◌||◌, not}
use mathlib.Core.Logic.{inl, inr}
use native.Mathlib.Omega.{arith}
use retux.Prelude.Tests.{◌==◌, ==_iff, Bool-cases, if◌then◌else◌, ltb, ltb→lt}

-- A test that no number under the bound fails.
unfoldable pub passes : ℕ → (ℕ → Bool) → Bool
passes zero test = true
passes (suc bound) test = if test bound then passes bound test else false

pub passes_at :
    (bound : ℕ) (test : ℕ → Bool) → passes bound test ≡ true → (k : ℕ) → k < bound → test k ≡ true
unfolding passes
passes_at zero test all k under = elim under [ ]
passes_at (suc bound) test all k under = elim (Bool-cases (test bound)) [
  | inl yes_here ↦ elim (Bool-cases (k == bound)) [
    | inl e ↦ rw ((==_iff k bound).0 e) yes_here
    | inr ne ↦ passes_at bound test (ground (arith, all, yes_here)) k (ground (arith, ne))
  ]
  | inr no_here ↦ ground (arith, all, no_here)
]

-- Bit `k` of a byte.
abbrev pub test_bit : ℕ → ℕ → Bool
test_bit b k = not (bit_and b (2 ^ k) == 0)

-- Boolean equality, as a test.
abbrev pub iff : Bool → Bool → Bool
iff true b = b
iff false b = not b

pub iff→eq : (a b : Bool) → iff a b ≡ true → a ≡ b
iff→eq a b h = ground arith

and_left : (a b : Bool) → a && b ≡ true → a ≡ true
and_left a b h = ground arith

and_right : (a b : Bool) → a && b ≡ true → b ≡ true
and_right a b h = ground arith

-- `b | 1 << k` and `b & ~(1 << k)`, stored back into a byte.
set_table :
    passes 8 (λ k. passes 8 λ j. passes 256 λ b.
      iff (test_bit (bit_or b (2 ^ k)) j) ((k == j) || test_bit b j) && ltb (bit_or b (2 ^ k)) 256)
    ≡ true
unfolding passes
set_table = refl

clear_table :
    passes 8 (λ k. passes 8 λ j. passes 256 λ b.
      iff (test_bit (bit_and b (255 - 2 ^ k)) j) (not (k == j) && test_bit b j)
      && ltb (bit_and b (255 - 2 ^ k)) 256)
    ≡ true
unfolding passes
clear_table = refl

module _ (k j b : ℕ) (hk : k < 8) (hj : j < 8) (hb : b < 256) where
  pub test_bit-set_bit :
      (test_bit (bit_or b (2 ^ k)) j ≡ (k == j) || test_bit b j) × (bit_or b (2 ^ k) < 256)
  test_bit-set_bit = (iff→eq _ _ (and_left _ _ row), ltb→lt _ _ (and_right _ _ row))
    where
      row :
          iff (test_bit (bit_or b (2 ^ k)) j) ((k == j) || test_bit b j)
            && ltb (bit_or b (2 ^ k)) 256
          ≡ true
      row = passes_at 256 _ (passes_at 8 _ (passes_at 8 _ set_table k hk) j hj) b hb

  pub test_bit-clear_bit :
      (test_bit (bit_and b (255 - 2 ^ k)) j ≡ not (k == j) && test_bit b j)
      × (bit_and b (255 - 2 ^ k) < 256)
  test_bit-clear_bit = (iff→eq _ _ (and_left _ _ row), ltb→lt _ _ (and_right _ _ row))
    where
      row :
          iff (test_bit (bit_and b (255 - 2 ^ k)) j) (not (k == j) && test_bit b j)
            && ltb (bit_and b (255 - 2 ^ k)) 256
          ≡ true
      row = passes_at 256 _ (passes_at 8 _ (passes_at 8 _ clear_table k hk) j hj) b hb

ones_table : passes 8 (test_bit 255) ≡ true
unfolding passes
ones_table = refl

pub test_bit-ones : (k : ℕ) → k < 8 → test_bit 255 k ≡ true
test_bit-ones k h = passes_at 8 _ ones_table k h
