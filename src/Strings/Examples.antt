-- ===== src/Strings/Examples.antt =====
-- The string functions on concrete strings.
use retux.Prelude.{All, ℕ, ◌≡◌, ◌↔◌, List, [], ◌∷◌, arith, length, inl}
use retux.Prelude.Int.{pos}
use retux.Strings.{memcpy, strcmp, strnlen, strncpy, to_string, Memory}
use retux.Strings.Compare.{NulFree, strcmp-zero_iff, strnlen_lem}
use retux.Strings.Copy.{memcpy_lem, strncpy_fits, strncpy_overruns}
use retux.Strings.Hex.{IsDigit, read_hex, read_hex-to_string}

abbrev abc : List ℕ
abc = b'a' ∷ b'b' ∷ b'c' ∷ []

abc-NulFree : NulFree abc
abc-NulFree = (omega arith, (omega arith, (omega arith, tt)))

abbrev ones : Memory
ones = λ q. 1

strcmp-zero_iff_run : (strcmp abc (b'a' ∷ []) ≡ pos 0) ↔ (abc ≡ b'a' ∷ [])
strcmp-zero_iff_run = strcmp-zero_iff abc (b'a' ∷ []) abc-NulFree (omega arith, tt)

strnlen_lem_run : strnlen abc 2 ≡ 2
strnlen_lem_run = strnlen_lem 2 abc abc-NulFree

memcpy_lem_run : memcpy (λ q. q) 10 12 4 13 ≡ 15
memcpy_lem_run = memcpy_lem (λ q. q) 10 12 4 13 (inl (omega arith))

strncpy_fits_run : strncpy ones 8 abc 5 12 ≡ 0
strncpy_fits_run =
    strncpy_fits ones 8 abc 5 12 abc-NulFree (omega arith) (omega arith) (omega arith)

-- A byte of the field that is cleared.
strncpy_overruns_example : strncpy ones 8 abc 3 9 ≡ 0
strncpy_overruns_example =
    strncpy_overruns ones 8 abc 3 9 abc-NulFree (omega arith) (omega arith) (omega arith)
      (omega arith)

read_hex-to_string_example :
    (read_hex 0 (to_string 0xb8000) ≡ 0xb8000)
    × (length (to_string 0xb8000) ≡ 16)
    × All IsDigit (to_string 0xb8000)
read_hex-to_string_example = read_hex-to_string 0xb8000 (omega arith)
