-- ===== src/Pmm/Alloc.antt =====
-- `alloc_frame` and `free_frame` of src/mem/pmm.cpp on the set of used frames.
use retux.Prelude.{
  ℕ, zero, suc, ◌+◌, ◌/◌, ◌%◌, ◌≤◌, ◌<◌, ◌≡◌, true, false, ◌||◌, none, some, ◌↔◌, arith, ◌==◌,
  Option-cases, Bool-cases, inl, inr, ℕ_discrete,
}
use retux.Pmm.{Pmm, Bitmap, is_used, max_frames, page_size, u64_mod, scan, alloc_frame, free_frame}
use retux.Pmm.Bitmap.{Bytes, is_used-set_used, is_used-set_free, set_used-Bytes}
use retux.Pmm.Counts.{alloc_frame-inv}

scan-lowest :
    (rounds i : ℕ) (b : Bitmap) {f : ℕ}
    → scan rounds i b ≡ some f
    → (is_used b f ≡ false) × (f < i + rounds) × ((j : ℕ) → i ≤ j → j < f → is_used b j ≡ true)
unfolding scan
scan-lowest zero i b e = cc
scan-lowest (suc rounds) i b {f} e = elim (Bool-cases (is_used b i)) [
  | inl used ↦
      let (free, top, low) = scan-lowest rounds (i + 1) b {f = f} (ground arith) in
      (free, omega arith, λ j lo hi. at_or_above used low j lo hi)
  | inr free ↦ (ground arith, ground arith, λ j lo hi. absurd (ground arith))
]
  where
    at_or_above :
        is_used b i ≡ true
        → ((j : ℕ) → i + 1 ≤ j → j < f → is_used b j ≡ true)
        → (j : ℕ) → i ≤ j
        → j < f
        → is_used b j ≡ true
    at_or_above used low j lo hi = elim (ℕ_discrete i j) [
      | yes same ↦ rw same at used
      | no differs ↦ low j (omega arith) hi
    ]

scan-none :
    (rounds i : ℕ) (b : Bitmap)
    → scan rounds i b ≡ none
    → (j : ℕ) → i ≤ j
    → j < i + rounds
    → is_used b j ≡ true
unfolding scan
scan-none zero i b e j lo hi = absurd (omega arith)
scan-none (suc rounds) i b e j lo hi = elim (ℕ_discrete i j) [
  | yes same ↦ rw (← same) (ground arith)
  | no differs ↦ scan-none rounds (i + 1) b (ground arith) j (omega arith) (omega arith)
]

-- What `alloc_frame` does to the frames: `addr` was the lowest free frame, and is the only one to
-- change.
pub record Allocates (p : Pmm) (addr : ℕ) (q : Pmm) : Type 0 where
  pub aligned : addr % page_size ≡ 0
  pub in_range : addr / page_size < max_frames
  pub was_free : is_used p.bitmap (addr / page_size) ≡ false
  pub lowest : (g : ℕ) → g < addr / page_size → is_used p.bitmap g ≡ true
  pub marked : (g : ℕ) → is_used q.bitmap g ≡ (addr / page_size == g) || is_used p.bitmap g
  pub counted : q.used_frames ≡ (p.used_frames + 1) % u64_mod
  pub total_same : q.total_frames ≡ p.total_frames

-- Whatever alloc_frame returns is the page-aligned address of the lowest free frame, which it
-- marks used and counts, and no other frame changes.
pub alloc_frame-Allocates :
    (p : Pmm) {addr : ℕ} {q : Pmm}
    → Bytes p.bitmap
    → alloc_frame p ≡ some (addr, q)
    → Allocates p addr q
alloc_frame-Allocates p {addr} {q} bytes e =
    let (f, h, a, r) = alloc_frame-inv p e in
    let low = scan-lowest max_frames 0 p.bitmap h in
    let e' : addr / page_size ≡ f = omega arith in
    record {
      aligned = omega arith;
      in_range = omega arith;
      was_free = rw e' low.0;
      lowest = λ g lt. low.2 g (omega arith) (omega arith);
      marked = λ g. rw (r, e') (is_used-set_used p.bitmap f g bytes);
      counted = rw r;
      total_same = rw r;
    }

pub alloc_frame-Bytes :
    (p : Pmm) {addr : ℕ} {q : Pmm}
    → Bytes p.bitmap
    → alloc_frame p ≡ some (addr, q)
    → Bytes q.bitmap
alloc_frame-Bytes p {addr} {q} bytes e =
    let (f, h, a, r) = alloc_frame-inv p e in rw r (set_used-Bytes p.bitmap f bytes)

-- Alloc_frame halts exactly when every frame is used.
pub alloc_frame_halts :
    (p : Pmm) → (alloc_frame p ≡ none) ↔ ((f : ℕ) → f < max_frames → is_used p.bitmap f ≡ true)
unfolding alloc_frame
alloc_frame_halts p = elim (Option-cases (scan max_frames 0 p.bitmap)) [
  | inl h ↦
      (λ _ f lt. scan-none max_frames 0 p.bitmap h f (omega arith) (omega arith), λ _. ground arith)
  | inr (f, h) ↦
      let low = scan-lowest max_frames 0 p.bitmap h in
      (λ e. absurd (ground arith), λ all. absurd (ground (arith, low.0, low.1, all f)))
]

-- Freeing what was just allocated restores every bit of the bitmap and both counters.
pub free_frame-alloc_frame :
    (p : Pmm) {addr : ℕ} {q : Pmm}
    → Bytes p.bitmap
    → p.used_frames < u64_mod
    → alloc_frame p ≡ some (addr, q)
    → ((g : ℕ) → is_used (free_frame q addr).bitmap g ≡ is_used p.bitmap g)
      × ((free_frame q addr).used_frames ≡ p.used_frames)
      × ((free_frame q addr).total_frames ≡ p.total_frames)
unfolding free_frame
free_frame-alloc_frame p {addr} {q} bytes small e =
    let (f, h, a, r) = alloc_frame-inv p e in
    let (was_free, top, _) = scan-lowest max_frames 0 p.bitmap h in
    let e' : addr / page_size ≡ f = omega arith in
    let used : is_used q.bitmap f ≡ true = ground (arith, is_used-set_used p.bitmap f f bytes) in
    let bytes' : Bytes q.bitmap = rw r (set_used-Bytes p.bitmap f bytes) in
    (
      λ g.
          ground (
            arith,
            is_used-set_free q.bitmap f g bytes',
            is_used-set_used p.bitmap f g bytes,
            used,
          ),
      ground arith,
      ground arith,
    )
