-- ===== src/Strings.antt =====
-- src/lib/string.cpp and src/lib/hex.hpp. A C string that is only read is the list of its bytes, and
-- reading at the end of the list gives the NUL. What a function writes goes into a memory, the
-- function from addresses to bytes.
pub mod Compare
pub mod Copy
pub mod Hex
mod Examples
use retux.Prelude.{
  ℕ, zero, suc, ◌+◌, ◌-◌, ◌*◌, ◌/◌, ◌%◌, ◌^◌, ◌==◌, ltb, if◌then◌else◌, Bool, true, false, not,
  ◌&&◌, List, [], ◌∷◌, update,
}
use retux.Prelude.Int.{ℤ, pos, sub_ℕ}

abbrev pub Memory : Type 0
Memory = ℕ → ℕ

-- `*s`, at the end of the list too.
abbrev pub char : List ℕ → ℕ
char [] = 0
char (c ∷ s) = c

-- `s + 1`
abbrev pub next_char : List ℕ → List ℕ
next_char [] = []
next_char (c ∷ s) = s

-- `for (i = 0; i < n; ++i) d[i] = s[i]`, from `i` on.
pub memcpy_from : ℕ → ℕ → Memory → (dest src : ℕ) → Memory
memcpy_from zero i mem dest src = mem
memcpy_from (suc rounds) i mem dest src =
    memcpy_from rounds (i + 1) (update mem (dest + i) (mem (src + i))) dest src

pub memcpy : Memory → (dest src n : ℕ) → Memory
memcpy mem dest src n = memcpy_from n 0 mem dest src

-- `for (i = 0; i < n; ++i) d[i] = c`, from `d` on; an address is taken modulo 2^64.
pub memset_from : ℕ → Memory → ℕ → ℕ → Memory
memset_from zero mem d c = mem
memset_from (suc rounds) mem d c = memset_from rounds (update mem (d % 2 ^ 64) c) (d + 1) c

pub memset : Memory → (dest c n : ℕ) → Memory
memset mem dest c n = memset_from n mem dest (c % 256)

unfoldable pub strcmp : List ℕ → List ℕ → ℤ
strcmp [] t = sub_ℕ 0 (char t)
strcmp (a ∷ s) [] = sub_ℕ a 0
strcmp (a ∷ s) (b ∷ t) =
    let rest = strcmp s t in if not (a == 0) && not (b == 0) && (a == b) then rest else sub_ℕ a b

unfoldable pub strncmp : List ℕ → List ℕ → ℕ → ℤ
strncmp s t zero = pos 0
strncmp s t (suc n) =
    let rest = strncmp (next_char s) (next_char t) n in
    if not (char s == 0) && not (char t == 0) && (char s == char t)
    then rest
    else sub_ℕ (char s) (char t)

unfoldable pub strlen : List ℕ → ℕ
strlen [] = 0
strlen (c ∷ s) = let rest = strlen s in if c == 0 then 0 else rest + 1

unfoldable pub strnlen : List ℕ → ℕ → ℕ
strnlen s zero = 0
strnlen s (suc max) = let rest = strnlen (next_char s) max in if char s == 0 then 0 else rest + 1

abbrev pub size_mod : ℕ
size_mod = 2 ^ 64

-- Where a copying loop stands: the memory, the next address to write, and the room that is left.
pub record Copying : Type 0 where
  pub memory : Memory
  pub at : ℕ
  pub left : ℕ

-- `while (n-- && (*d++ = *src++));`: the test takes one from `n` also when it fails.
pub strncpy_copy : ℕ → Memory → ℕ → List ℕ → Copying
strncpy_copy zero mem d s = record { memory = mem; at = d; left = size_mod - 1 }
strncpy_copy (suc n) mem d s =
    let rest = strncpy_copy n (update mem (d % 2 ^ 64) (char s)) (d + 1) (next_char s) in
    if char s == 0
    then record { memory = update mem (d % 2 ^ 64) 0; at = d + 1; left = n }
    else rest

-- `while (n--) *d++ = '\0';`
pub strncpy : Memory → ℕ → List ℕ → ℕ → Memory
strncpy mem dest s n =
    let copied = strncpy_copy n mem dest s in memset_from copied.left copied.memory copied.at 0

-- The digit of a nibble in "0123456789ABCDEF".
pub digit : ℕ → ℕ
digit n = if ltb n 10 then b'0' + n else b'A' + (n - 10)

-- `for (i = 15; i >= 0; --i)`: the digits go in from the last to the first.
pub hex_digits : ℕ → ℕ → List ℕ → List ℕ
hex_digits zero value out = out
hex_digits (suc rounds) value out = hex_digits rounds (value / 16) (digit (value % 16) ∷ out)

pub to_string : ℕ → List ℕ
to_string value = hex_digits 16 value []
