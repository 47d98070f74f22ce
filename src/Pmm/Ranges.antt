-- ===== src/Pmm/Ranges.antt =====
-- The ranges that src/mem/pmm.cpp frees and reserves, down to `init`.
use retux.Prelude.{
  ℕ, zero, suc, ◌+◌, ◌-◌, ◌*◌, ◌/◌, ◌≤◌, ◌<◌, ◌≡◌, Bool, true, false, ◌&&◌, ◌||◌, arith, ◌==◌, ltb,
  leb, if◌then◌else◌, Bool-cases, inl, inr,
}
use retux.Pmm.{
  Pmm, is_used, max_frames, page_size, u64_mod, free_one, use_one, mark_loop, mark_range_free,
  mark_range_used, floor_page, ceil_page,
}
use retux.Pmm.Bitmap.{Bytes, is_used-set_used, is_used-set_free, set_used-Bytes, set_free-Bytes}

-- Frame `g` lies within the bytes from `base` to `base + len`; it shares a byte with them.
abbrev pub inside : (base len g : ℕ) → Bool
inside base len g = leb base (g * page_size) && leb (g * page_size + page_size) (base + len)

abbrev pub touches : (base len g : ℕ) → Bool
touches base len g = ltb (g * page_size) (base + len) && ltb base (g * page_size + page_size)

abbrev between : ℕ → ℕ → ℕ → Bool
between k n g = leb k g && ltb g (k + n)

-- The bitmap after frames `s` of `b` have been given the bit `to`.
abbrev pub Marked : Bool → (ℕ → Bool) → Pmm → Pmm → Type 0
Marked to s p q =
    Bytes q.bitmap
    × ((g : ℕ) → g < max_frames → is_used q.bitmap g ≡ (if s g then to else is_used p.bitmap g))

pub Marked-trans :
    (to : Bool) (s t : ℕ → Bool) (p q r : Pmm)
    → Marked to s p q
    → Marked to t q r
    → Marked to (λ g. s g || t g) p r
Marked-trans to s t p q r m n = (n.0, λ g h. ground (arith, m.1 g h, n.1 g h))

free_one-Marked : (p : Pmm) (f : ℕ) → Bytes p.bitmap → Marked false (◌==◌ f) p (free_one p f)
unfolding free_one
free_one-Marked p f b = elim (Bool-cases (is_used p.bitmap f)) [
  | inl e ↦
      rw e (set_free-Bytes p.bitmap f b, λ g h. ground (arith, is_used-set_free p.bitmap f g b))
  | inr e ↦ rw e (b, λ g h. ground arith)
]

use_one-Marked : (p : Pmm) (f : ℕ) → Bytes p.bitmap → Marked true (◌==◌ f) p (use_one p f)
unfolding use_one
use_one-Marked p f b = elim (Bool-cases (is_used p.bitmap f)) [
  | inl e ↦ rw e (b, λ g h. ground arith)
  | inr e ↦
      rw e (set_used-Bytes p.bitmap f b, λ g h. ground (arith, is_used-set_used p.bitmap f g b))
]

module _ (to : Bool) (one : Pmm → ℕ → Pmm)
    (one-Marked : (p : Pmm) (f : ℕ) → Bytes p.bitmap → Marked to (◌==◌ f) p (one p f)) where
  mark_loop-Marked :
      (n addr k : ℕ) (p : Pmm)
      → addr ≡ k * page_size
      → Bytes p.bitmap
      → Marked to (between k n) p (mark_loop one n addr p)
  unfolding mark_loop
  mark_loop-Marked zero addr k p e b = (b, λ g h. ground arith)
  mark_loop-Marked (suc n) addr k p e b =
      let e' : addr / page_size ≡ k = omega arith in
      let (b', now) = one-Marked p (addr / page_size) b in
      let (b'', later) =
        mark_loop-Marked n (addr + page_size) (k + 1) (one p (addr / page_size)) (omega arith) b' in
      elim (Bool-cases (leb max_frames (addr / page_size))) [
        | inl past ↦ rw past (b, λ g h. ground arith)
        | inr below ↦ rw below (b'', λ g h. ground (arith, now g h, later g h))
      ]

-- `mark_range_free` frees exactly the frames that lie wholly within the range.
pub mark_range_free_frames :
    (p : Pmm) (base len : ℕ)
    → base + len + page_size ≤ u64_mod
    → Bytes p.bitmap
    → Marked false (inside base len) p (mark_range_free p base len)
unfolding mark_range_free
mark_range_free_frames p base len fits b =
    let start = ceil_page base in
    let end = floor_page (base + len) in
    let (b', all) =
      mark_loop-Marked false free_one free_one-Marked ((end - start) / page_size) start
        (start / page_size) p (omega arith) b in
    elim (Bool-cases (leb end start)) [
      | inl none_left ↦ rw none_left (b, λ g h. ground arith)
      | inr some_left ↦ rw some_left (b', λ g h. ground (arith, all g h))
    ]

-- `mark_range_used` reserves exactly the frames that share a byte with the range.
pub mark_range_used_frames :
    (p : Pmm) (base len : ℕ)
    → base + len + page_size ≤ u64_mod
    → Bytes p.bitmap
    → Marked true (touches base len) p (mark_range_used p base len)
unfolding mark_range_used
mark_range_used_frames p base len fits b =
    let start = floor_page base in
    let end = ceil_page (base + len) in
    let (b', all) =
      mark_loop-Marked true use_one use_one-Marked ((end - start) / page_size) start
        (start / page_size) p (omega arith) b in
    (b', λ g h. ground (arith, all g h))
