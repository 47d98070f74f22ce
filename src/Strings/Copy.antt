-- ===== src/Strings/Copy.antt =====
-- What the copying functions of src/lib/string.cpp leave in memory.
use retux.Prelude.{
  ℕ, zero, suc, ◌+◌, ◌-◌, ◌≤◌, ◌<◌, ◌≡◌, refl, ap, ◌∙◌, if◌then◌else◌, List, [], ◌∷◌, arith, length,
  get_or, ltb, leb, ◌&&◌, ◌⊎◌, update, ◌%◌, ◌^◌, ◌==◌, ◌≢◌, inl, inr, Bool-cases,
}
use retux.Strings.{Memory, memcpy_from, memcpy, memset_from, strncpy_copy, strncpy, size_mod}
use retux.Strings.Compare.{NulFree}

-- How far an address lies behind `d`, which goes on at 0 behind the last address.
abbrev behind : (d q : ℕ) → ℕ
behind d q = (q + 2 ^ 64 - d % 2 ^ 64) % 2 ^ 64

pub memset_from_byte :
    (n : ℕ) (mem : Memory) (d c q : ℕ)
    → n ≤ 2 ^ 64
    → q < 2 ^ 64
    → memset_from n mem d c q ≡ (if ltb (behind d q) n then c else mem q)
unfolding memset_from
memset_from_byte zero mem d c q most word = ground arith
memset_from_byte (suc n) mem d c q most word =
    let rest =
      memset_from_byte n (update mem (d % 2 ^ 64) c) (d + 1) c q (omega (arith, most)) word in
    elim (Bool-cases (d % 2 ^ 64 == q)) [
      | inl here ↦
          let at : behind d q ≡ 0 = ground (arith, here, word) in rest ∙ ground (arith, here, at)
      | inr other ↦
          let ne : d % 2 ^ 64 ≢ q = λ z. ground (arith, other, z) in
          let step : behind d q ≡ behind (d + 1) q + 1 = omega (arith, ne, word) in
          rest ∙ ground (arith, other, step)
    ]

memcpy_from_byte :
    (n i : ℕ) (mem : Memory) (dest src q : ℕ)
    → (dest ≤ src) ⊎ (src + i + n ≤ dest)
    → memcpy_from n i mem dest src q
      ≡ (if leb (dest + i) q && ltb q (dest + i + n) then mem (src + (q - dest)) else mem q)
unfolding memcpy_from
memcpy_from_byte zero i mem dest src q apart = ground arith
memcpy_from_byte (suc n) i mem dest src q apart =
    let rest =
      memcpy_from_byte n (i + 1) (update mem (dest + i) (mem (src + i))) dest src q
        (ground (arith, apart)) in
    let moved : dest + i ≡ q → mem (src + i) ≡ mem (src + (q - dest)) =
      λ e. ap mem (omega (arith, e)) in
    rest ∙ ground (arith, apart, moved)

-- Memcpy moves n bytes and changes no other, unless the destination starts inside the source.
pub memcpy_lem :
    (mem : Memory) (dest src n q : ℕ)
    → (dest ≤ src) ⊎ (src + n ≤ dest)
    → memcpy mem dest src n q
      ≡ (if leb dest q && ltb q (dest + n) then mem (src + (q - dest)) else mem q)
unfolding memcpy
memcpy_lem mem dest src n q apart =
    ground (arith, memcpy_from_byte n 0 mem dest src q (ground (arith, apart)))

-- Where a string `s` stands at `d`, with a NUL behind it.
abbrev pub byte_at : List ℕ → (d q : ℕ) → ℕ
byte_at s d q = get_or s (q - d) 0

byte_at-cons : (c : ℕ) (s : List ℕ) (d q : ℕ) → d < q → byte_at (c ∷ s) d q ≡ byte_at s (d + 1) q
byte_at-cons c s d q behind =
    ap (λ (i : ℕ). get_or (c ∷ s) i 0) (let e : q - d ≡ suc (q - (d + 1)) = omega arith in e)

byte_at-first : (c : ℕ) (s : List ℕ) (d q : ℕ) → d ≡ q → byte_at (c ∷ s) d q ≡ c
byte_at-first c s d q e =
    ap (λ (i : ℕ). get_or (c ∷ s) i 0) (let e' : q - d ≡ 0 = omega (arith, e) in e')

-- When the string and its NUL fit, the first loop stops at the NUL.
strncpy_copy-fits :
    (n : ℕ) (mem : Memory) (d : ℕ) (s : List ℕ) (q : ℕ)
    → NulFree s
    → length s < n
    → d + n ≤ 2 ^ 64
    → ((strncpy_copy n mem d s).memory q
        ≡ (if leb d q && leb q (d + length s) then byte_at s d q else mem q))
      × ((strncpy_copy n mem d s).at ≡ d + length s + 1)
      × ((strncpy_copy n mem d s).left ≡ n - length s - 1)
unfolding strncpy_copy
strncpy_copy-fits zero mem d s q f fits word = elim fits [ ]
strncpy_copy-fits (suc n) mem d [] q f fits word =
    let low : d % 2 ^ 64 ≡ d = omega (arith, word) in
    (ground (arith, low), omega arith, omega arith)
strncpy_copy-fits (suc n) mem d (c ∷ s) q f fits word =
    let low : d % 2 ^ 64 ≡ d = omega (arith, word) in
    let (m, at, left) =
      strncpy_copy-fits n (update mem (d % 2 ^ 64) c) (d + 1) s q f.1 (omega arith)
        (omega (arith, word)) in
    (
      ground (arith, low, f.0, m, byte_at-cons c s d q, byte_at-first c s d q),
      ground (arith, f.0, at),
      ground (arith, f.0, left),
    )

-- When it does not, the first loop stops at the end of the room, and `n` has wrapped.
strncpy_copy-full :
    (n : ℕ) (mem : Memory) (d : ℕ) (s : List ℕ) (q : ℕ)
    → NulFree s
    → n ≤ length s
    → d + n ≤ 2 ^ 64
    → ((strncpy_copy n mem d s).memory q
        ≡ (if leb d q && ltb q (d + n) then byte_at s d q else mem q))
      × ((strncpy_copy n mem d s).at ≡ d + n)
      × ((strncpy_copy n mem d s).left ≡ size_mod - 1)
unfolding strncpy_copy
strncpy_copy-full zero mem d s q f full word = (ground arith, omega arith, refl)
strncpy_copy-full (suc n) mem d [] q f full word = elim full [ ]
strncpy_copy-full (suc n) mem d (c ∷ s) q f full word =
    let low : d % 2 ^ 64 ≡ d = omega (arith, word) in
    let (m, at, left) =
      strncpy_copy-full n (update mem (d % 2 ^ 64) c) (d + 1) s q f.1 (omega arith)
        (omega (arith, word)) in
    (
      ground (arith, low, f.0, m, byte_at-cons c s d q, byte_at-first c s d q),
      ground (arith, f.0, at),
      ground (arith, f.0, left),
    )

get_or-past : (s : List ℕ) (i : ℕ) → length s ≤ i → get_or s i 0 ≡ 0
get_or-past [] i past = refl
get_or-past (c ∷ s) zero past = elim past [ ]
get_or-past (c ∷ s) (suc i) past = get_or-past s i (omega arith)

-- Strncpy of a string shorter than its field writes the string, fills the rest of the field with
-- NUL and changes no other byte; the string holds no NUL and the field ends within memory.
pub strncpy_fits :
    (mem : Memory) (dest : ℕ) (s : List ℕ) (n q : ℕ)
    → NulFree s
    → length s < n
    → dest + n ≤ 2 ^ 64
    → q < 2 ^ 64
    → strncpy mem dest s n q ≡ (if leb dest q && ltb q (dest + n) then byte_at s dest q else mem q)
unfolding strncpy
strncpy_fits mem dest s n q f fits word small =
    let (m, at, left) = strncpy_copy-fits n mem dest s q f fits word in
    let clear =
      memset_from_byte (n - length s - 1) (strncpy_copy n mem dest s).memory (dest + length s + 1) 0
        q (omega (arith, word)) small in
    let in_rest : ltb (behind (dest + length s + 1) q) (n - length s - 1)
        ≡ (leb (dest + length s + 1) q && ltb q (dest + n)) =
      ground (arith, fits, word, small) in
    rw (at, left) (clear ∙ ground (arith, m, in_rest, get_or-past s (q - dest)))

-- Strncpy of a string at least as long as a field of at least one byte clears the whole memory but
-- the last byte of the field, which keeps its character, as its count wraps to 2^64 - 1; the
-- string holds no NUL and the field ends within memory.
pub strncpy_overruns :
    (mem : Memory) (dest : ℕ) (s : List ℕ) (n q : ℕ)
    → NulFree s
    → n ≤ length s
    → 1 ≤ n
    → dest + n ≤ 2 ^ 64
    → q < 2 ^ 64
    → strncpy mem dest s n q ≡ (if q == dest + n - 1 then byte_at s dest q else 0)
unfolding strncpy
strncpy_overruns mem dest s n q f full some_room word small =
    let (m, at, left) = strncpy_copy-full n mem dest s q f full word in
    let clear =
      memset_from_byte (size_mod - 1) (strncpy_copy n mem dest s).memory (dest + n) 0 q
        (omega arith) small in
    rw (at, left)
      (clear ∙ (elim (Bool-cases (q == dest + n - 1)) [
        | inl last ↦
            let far : behind (dest + n) q ≡ 2 ^ 64 - 1 =
              ground (arith, last, some_room, word, small) in
            rw far (ground (arith, m, last, some_room))
        | inr other ↦
            let ne : q ≢ dest + n - 1 = λ z. ground (arith, other, z) in
            let near : behind (dest + n) q < 2 ^ 64 - 1 =
              omega (arith, ne, some_room, word, small) in
            ground (arith, near, other)
      ]))
