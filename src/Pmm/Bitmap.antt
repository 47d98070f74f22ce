-- ===== src/Pmm/Bitmap.antt =====
-- The bitmap as a set of used frames: what the bit operations of src/mem/pmm.cpp do to it.
use retux.Prelude.{ℕ, ◌%◌, ◌/◌, ◌<◌, ◌≡◌, not, ◌&&◌, ◌||◌, ◌==◌, arith}
use retux.Prelude.Bits.{test_bit-set_bit, test_bit-clear_bit}
use retux.Pmm.{Bitmap, set_used, set_free, is_used}

-- Every entry of the bitmap is a byte.
abbrev pub Bytes : Bitmap → Type 0
Bytes b = (i : ℕ) → b i < 256

module _ (b : Bitmap) (f g : ℕ) (bytes : Bytes b) where
  pub is_used-set_used : is_used (set_used b f) g ≡ (f == g) || is_used b g
  unfolding is_used set_used
  is_used-set_used = ground (
    arith,
    test_bit-set_bit (f % 8) (g % 8) (b (f / 8)) (omega arith) (omega arith) (bytes (f / 8)),
  )

  pub is_used-set_free : is_used (set_free b f) g ≡ not (f == g) && is_used b g
  unfolding is_used set_free
  is_used-set_free = ground (
    arith,
    test_bit-clear_bit (f % 8) (g % 8) (b (f / 8)) (omega arith) (omega arith) (bytes (f / 8)),
  )

module _ (b : Bitmap) (f : ℕ) (bytes : Bytes b) where
  pub set_used-Bytes : Bytes (set_used b f)
  unfolding set_used
  set_used-Bytes i = ground (
    arith,
    bytes i,
    test_bit-set_bit (f % 8) 0 (b (f / 8)) (omega arith) (omega arith) (bytes (f / 8)),
  )

  pub set_free-Bytes : Bytes (set_free b f)
  unfolding set_free
  set_free-Bytes i = ground (
    arith,
    bytes i,
    test_bit-clear_bit (f % 8) 0 (b (f / 8)) (omega arith) (omega arith) (bytes (f / 8)),
  )
