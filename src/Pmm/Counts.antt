-- ===== src/Pmm/Counts.antt =====
-- The counters of src/mem/pmm.cpp against the number of free bits.
use retux.Prelude.{
  ℕ, zero, suc, ◌+◌, ◌-◌, ◌*◌, ◌/◌, ◌%◌, ◌≤◌, ◌<◌, ◌≡◌, refl, true, false, Option, none, some, List,
  [], ◌∷◌, arith, ◌==◌, leb, if◌then◌else◌, Option-cases, Bool-cases, if-elim, inl, inr,
}
use retux.Pmm.{
  Pmm, Bitmap, set_used, set_free, is_used, max_frames, page_size, u64_mod, free_one, use_one,
  mark_loop, mark_range_free, mark_range_used, scan, alloc_frame, free_frame, MemMapEntry, Tag,
  mem_map, boot_module, other, BootInfo, free_entries, use_modules, carve, init, find_mem_map,
  all_reserved, avail, floor_page, ceil_page, total_frame_count, used_frame_count,
}
use retux.Prelude.Bits.{test_bit-ones}
use retux.Pmm.Bitmap.{Bytes, is_used-set_used, is_used-set_free, set_used-Bytes, set_free-Bytes}

-- How many of the frames below `n` are free.
pub free_count : ℕ → Bitmap → ℕ
free_count zero b = 0
free_count (suc n) b = free_count n b + (if is_used b n then 0 else 1)

pub free_count-le : (n : ℕ) (b : Bitmap) → free_count n b ≤ n
unfolding free_count
free_count-le zero b = omega arith
free_count-le (suc n) b = ground (arith, free_count-le n b)

module _ (b : Bitmap) (f : ℕ) (bytes : Bytes b) where
  free_count-set_used :
      (n : ℕ)
      → is_used b f ≡ false
      → free_count n (set_used b f) + (if leb n f then 0 else 1) ≡ free_count n b
  unfolding free_count
  free_count-set_used zero h = ground arith
  free_count-set_used (suc n) h =
      ground (arith, free_count-set_used n h, is_used-set_used b f n bytes)

  free_count-set_free :
      (n : ℕ)
      → is_used b f ≡ true
      → free_count n (set_free b f) ≡ free_count n b + (if leb n f then 0 else 1)
  unfolding free_count
  free_count-set_free zero h = ground arith
  free_count-set_free (suc n) h =
      ground (arith, free_count-set_free n h, is_used-set_free b f n bytes)

-- The bitmap holds bytes, and the free frames and the used ones make up the total, modulo 2^64.
pub record IsValid (p : Pmm) : Type 0 where
  pub bytes : Bytes p.bitmap
  pub balanced : (free_count max_frames p.bitmap + p.used_frames) % u64_mod ≡ p.total_frames

free_one-IsValid : (p : Pmm) (f : ℕ) → f < max_frames → IsValid p → IsValid (free_one p f)
unfolding free_one
free_one-IsValid p f h v = elim (Bool-cases (is_used p.bitmap f)) [
  | inl e ↦ rw e (record {
    bytes = set_free-Bytes p.bitmap f v.bytes;
    balanced = ground (arith, free_count-set_free p.bitmap f v.bytes max_frames e, v.balanced);
  })
  | inr e ↦ rw e v
]

use_one-IsValid : (p : Pmm) (f : ℕ) → f < max_frames → IsValid p → IsValid (use_one p f)
unfolding use_one
use_one-IsValid p f h v = elim (Bool-cases (is_used p.bitmap f)) [
  | inl e ↦ rw e v
  | inr e ↦ rw e (record {
    bytes = set_used-Bytes p.bitmap f v.bytes;
    balanced = ground (arith, free_count-set_used p.bitmap f v.bytes max_frames e, v.balanced);
  })
]

abbrev Keeps : (Pmm → ℕ → Pmm) → Type 0
Keeps one = (p : Pmm) (f : ℕ) → f < max_frames → IsValid p → IsValid (one p f)

mark_loop-IsValid :
    (one : Pmm → ℕ → Pmm)
    → Keeps one
    → (rounds addr : ℕ) (p : Pmm) → IsValid p
    → IsValid (mark_loop one rounds addr p)
unfolding mark_loop
mark_loop-IsValid one keep zero addr p v = v
mark_loop-IsValid one keep (suc rounds) addr p v =
    elim (Bool-cases (leb max_frames (addr / page_size))) [
      | inl e ↦ rw e v
      | inr e ↦ rw e (
          mark_loop-IsValid one keep rounds (addr + page_size) (one p (addr / page_size))
            (keep p (addr / page_size) (ground arith) v))
    ]

mark_range_free-IsValid :
    (p : Pmm) (base len : ℕ) → IsValid p → IsValid (mark_range_free p base len)
unfolding mark_range_free
mark_range_free-IsValid p base len v =
    if-elim IsValid (leb (floor_page (base + len)) (ceil_page base)) (λ _. v)
      (λ _. mark_loop-IsValid free_one free_one-IsValid _ _ p v)

mark_range_used-IsValid :
    (p : Pmm) (base len : ℕ) → IsValid p → IsValid (mark_range_used p base len)
unfolding mark_range_used
mark_range_used-IsValid p base len v = mark_loop-IsValid use_one use_one-IsValid _ _ p v

free_entries-IsValid : (es : List MemMapEntry) (p : Pmm) → IsValid p → IsValid (free_entries es p)
unfolding free_entries
free_entries-IsValid [] p v = v
free_entries-IsValid (e ∷ es) p v = free_entries-IsValid es _ (
    if-elim IsValid (e.type == avail) (λ _. mark_range_free-IsValid p e.base_addr e.len v) (λ _. v))

use_modules-IsValid : (ts : List Tag) (p : Pmm) → IsValid p → IsValid (use_modules ts p)
unfolding use_modules
use_modules-IsValid [] p v = v
use_modules-IsValid (mem_map es ∷ ts) p v = use_modules-IsValid ts p v
use_modules-IsValid (boot_module s e ∷ ts) p v =
    use_modules-IsValid ts _ (mark_range_used-IsValid p _ _ v)
use_modules-IsValid (other ∷ ts) p v = use_modules-IsValid ts p v

pub all_reserved-is_used : (n : ℕ) → is_used all_reserved.bitmap n ≡ true
unfolding is_used
all_reserved-is_used n = test_bit-ones (n % 8) (omega arith)

all_used_count : (n : ℕ) → free_count n all_reserved.bitmap ≡ 0
unfolding free_count
all_used_count zero = refl
all_used_count (suc n) = ground (arith, all_used_count n, all_reserved-is_used n)

all_reserved-IsValid : IsValid all_reserved
all_reserved-IsValid = record {
  bytes = λ i. omega arith;
  balanced = omega (arith, all_used_count max_frames);
}

carve-IsValid : (info : BootInfo) (p : Pmm) → IsValid p → IsValid (carve info p)
unfolding carve
carve-IsValid info p v = use_modules-IsValid info.tags _ (
    mark_range_used-IsValid _ _ _ (mark_range_used-IsValid _ _ _ (mark_range_used-IsValid p _ _ v)))

-- What `init` returns comes from a memory map.
pub init-inv :
    (info : BootInfo) {p : Pmm}
    → init info ≡ some p
    → (es : List MemMapEntry) × (find_mem_map info.tags ≡ some es)
      × (p ≡ carve info (free_entries es all_reserved))
unfolding init
init-inv info e = elim (Option-cases (find_mem_map info.tags)) [
  | inl h ↦ absurd (ground arith)
  | inr (es, h) ↦ (es, h, ground arith)
]

pub init-IsValid : (info : BootInfo) {p : Pmm} → init info ≡ some p → IsValid p
init-IsValid info e =
    let (es, h, q) = init-inv info e in
    rw q (carve-IsValid info _ (free_entries-IsValid es _ all_reserved-IsValid))

scan-some :
    (rounds i : ℕ) (b : Bitmap) {f : ℕ}
    → scan rounds i b ≡ some f
    → (is_used b f ≡ false) × (f < i + rounds)
unfolding scan
scan-some zero i b e = cc
scan-some (suc rounds) i b {f} e = ground (arith, scan-some rounds (i + 1) b {f = f})

-- What `alloc_frame` returns when it does not halt.
pub alloc_frame-inv :
    (p : Pmm) {addr : ℕ} {q : Pmm}
    → alloc_frame p ≡ some (addr, q)
    → (f : ℕ) × (scan max_frames 0 p.bitmap ≡ some f)
      × (addr ≡ f * page_size)
      × (q ≡ record p { bitmap = set_used p.bitmap f; used_frames = (p.used_frames + 1) % u64_mod })
unfolding alloc_frame
alloc_frame-inv p e = elim (Option-cases (scan max_frames 0 p.bitmap)) [
  | inl h ↦ absurd (ground arith)
  | inr (f, h) ↦ (f, h, ground arith, ground arith)
]

pub alloc_frame-IsValid :
    (p : Pmm) {addr : ℕ} {q : Pmm} → IsValid p → alloc_frame p ≡ some (addr, q) → IsValid q
alloc_frame-IsValid p v e =
    let (f, h, _, h') = alloc_frame-inv p e in
    let free = scan-some max_frames 0 p.bitmap h in
    rw h' (record {
      bytes = set_used-Bytes p.bitmap f v.bytes;
      balanced =
          ground
            (arith, free_count-set_used p.bitmap f v.bytes max_frames free.0, free.1, v.balanced);
    })

pub free_frame-IsValid : (p : Pmm) (addr : ℕ) → IsValid p → IsValid (free_frame p addr)
unfolding free_frame
free_frame-IsValid p addr v =
    if-elim IsValid _ (λ _. v)
      λ h. record {
        bytes = set_free-Bytes p.bitmap (addr / page_size) v.bytes;
        balanced =
            ground (
              arith,
              free_count-set_free p.bitmap (addr / page_size) v.bytes max_frames,
              v.balanced,
            );
      }

-- The calls that the rest of the kernel makes once `init` has run. `none` is the halt.
pub data Call : Type 0 where
  alloc : Call
  free : ℕ → Call

unfoldable pub step : Pmm → Call → Option Pmm
step p alloc = elim (alloc_frame p) [ none ↦ none | some (addr, q) ↦ some q ]
step p (free addr) = some (free_frame p addr)

unfoldable pub run : Pmm → List Call → Option Pmm
run p [] = some p
run p (c ∷ cs) = elim (step p c) [ none ↦ none | some q ↦ run q cs ]

step-IsValid : (p : Pmm) (c : Call) {q : Pmm} → IsValid p → step p c ≡ some q → IsValid q
unfolding step
step-IsValid p alloc {q} v e = elim (Option-cases (alloc_frame p)) [
  | inl h ↦ absurd (ground arith)
  | inr ((addr, r), h) ↦ let h' : r ≡ q = ground arith in rw (← h') (alloc_frame-IsValid p v h)
]
step-IsValid p (free addr) {q} v e =
    let h : free_frame p addr ≡ q = ground arith in rw (← h) (free_frame-IsValid p addr v)

run-IsValid : (p : Pmm) (cs : List Call) {q : Pmm} → IsValid p → run p cs ≡ some q → IsValid q
unfolding run
run-IsValid p [] {q} v e = let h : p ≡ q = ground arith in rw (← h) v
run-IsValid p (c ∷ cs) v e = elim (Option-cases (step p c)) [
  | inl h ↦ absurd (ground arith)
  | inr (r, h) ↦ run-IsValid r cs (step-IsValid p c v h) (ground arith)
]

-- After init and any sequence of alloc_frame and free_frame calls, the u64 difference of
-- total_frames and used_frames is the number of free bits in the bitmap.
pub free_count_of_counters :
    (info : BootInfo) (p q : Pmm) (cs : List Call)
    → init info ≡ some p
    → run p cs ≡ some q
    → (total_frame_count q + u64_mod - used_frame_count q % u64_mod) % u64_mod
      ≡ free_count max_frames q.bitmap
unfolding total_frame_count used_frame_count
free_count_of_counters info p q cs e h =
    let v = run-IsValid p cs (init-IsValid info e) h in
    omega (arith, free_count-le max_frames q.bitmap, v.balanced)
