-- ===== src/Vmm/Entries.antt =====
-- The bits of the entries that src/mem/vmm.cpp writes.
use retux.Prelude.{
  ℕ, zero, suc, ◌+◌, ◌/◌, ◌%◌, ◌^◌, ◌==◌, true, false, ◌&&◌, ◌≡◌, ◌<◌, refl, ap, ◌∙◌, arith,
  Bool-cases, inl, inr,
}
use retux.Vmm.{present, huge, entry_phys, set_bit, widened, intermediate}
use retux.Vmm.Walk.{is_big}

-- Two entries that differ in permissions only.
abbrev pub Alike : (e e' : ℕ) → Type 0
Alike e e' = (e' % 2 ≡ e % 2) × (e' / 2 ^ 7 ≡ e / 2 ^ 7)

set_bit-two : (e flags : ℕ) → Alike e (set_bit 2 e flags)
set_bit-two e flags = elim (Bool-cases (flags / 2 % 2 == 1 && e / 2 % 2 == 0)) [
  | inl add ↦
      let clear : e / 2 % 2 ≡ 0 = ground (arith, add) in
      rw add (omega (arith, clear), omega (arith, clear))
  | inr keep ↦ rw keep (refl, refl)
]

set_bit-four : (e flags : ℕ) → Alike e (set_bit 4 e flags)
set_bit-four e flags = elim (Bool-cases (flags / 4 % 2 == 1 && e / 4 % 2 == 0)) [
  | inl add ↦
      let clear : e / 4 % 2 ≡ 0 = ground (arith, add) in
      rw add (omega (arith, clear), omega (arith, clear))
  | inr keep ↦ rw keep (refl, refl)
]

widened-Alike : (e flags : ℕ) → Alike e (widened e flags)
widened-Alike e flags =
    let (bit, rest) = set_bit-two e flags in
    let (bit', rest') = set_bit-four (set_bit 2 e flags) flags in (bit' ∙ bit, rest' ∙ rest)

pub is_big-of_huge : (l e : ℕ) → huge e ≡ false → is_big l e ≡ false
is_big-of_huge zero e h = refl
is_big-of_huge (suc zero) e h = h
is_big-of_huge (suc (suc zero)) e h = h
is_big-of_huge (suc (suc (suc l))) e h = refl

is_big_same : (l e e' : ℕ) → huge e' ≡ huge e → is_big l e' ≡ is_big l e
is_big_same zero e e' h = refl
is_big_same (suc zero) e e' h = h
is_big_same (suc (suc zero)) e e' h = h
is_big_same (suc (suc (suc l))) e e' h = refl

pub widened_lem :
    (l e flags : ℕ)
    → (present (widened e flags) ≡ present e)
      × (huge (widened e flags) ≡ huge e)
      × (is_big l (widened e flags) ≡ is_big l e)
      × (entry_phys (widened e flags) ≡ entry_phys e)
widened_lem l e flags =
    let (bit, rest) = widened-Alike e flags in
    let same_huge : huge (widened e flags) ≡ huge e = ap (λ q. q % 2 == 1) rest in
    (
      ap (λ b. b == 1) bit,
      same_huge,
      is_big_same l e (widened e flags) same_huge,
      omega (arith, rest),
    )

-- The entry for a fresh table.
pub fresh_entry :
    (n flags : ℕ)
    → n % 4096 ≡ 0
    → n / 4096 < 2 ^ 40
    → flags % 2 ≡ 1
    → flags < 8
    → (present (n + set_bit 1 flags 1) ≡ true)
      × (huge (n + set_bit 1 flags 1) ≡ false)
      × (entry_phys (n + set_bit 1 flags 1) ≡ n)
fresh_entry n flags aligned low odd small =
    let same : set_bit 1 flags 1 ≡ flags = ground (arith, odd) in
    rw same (
      ground (arith, aligned, odd),
      ground (arith, aligned, small),
      omega (arith, aligned, low, small),
    )

pub intermediate_lem : (flags : ℕ) → (intermediate flags % 2 ≡ 1) × (intermediate flags < 8)
intermediate_lem flags = (omega arith, omega arith)
