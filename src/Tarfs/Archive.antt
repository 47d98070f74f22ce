-- ===== src/Tarfs/Archive.antt =====
-- The headers of an archive, as src/fs/tarfs.cpp reads them: octal fields and full paths.
use retux.Prelude.{
  ℕ, zero, suc, ◌+◌, ◌-◌, ◌*◌, ◌/◌, ◌%◌, ◌^◌, ◌≤◌, ◌<◌, ◌≡◌, refl, sym, ap, ◌∙◌, ltb, if◌then◌else◌,
  true, ◌||◌, List, [], ◌∷◌, ◌++◌, arith, length, take, take_all, length-append, Bool-cases, inl,
  inr,
}
use mathlib.Core.List.{append_assoc}
use retux.Strings.{char, strnlen}
use retux.Strings.Compare.{NulFree, strnlen_lem}
use retux.Tarfs.{parse_octal_from, parse_octal, UstarHeader, build_full_path}

-- `n` octal digits of a value before what ends the field.
unfoldable pub octal_field : ℕ → ℕ → List ℕ → List ℕ
octal_field zero value tail = tail
octal_field (suc n) value tail = octal_field n (value / 8) ((b'0' + value % 8) ∷ tail)

abbrev pub eight_to : ℕ → ℕ
eight_to zero = 1
eight_to (suc n) = eight_to n * 8

parse_octal-digits :
    (n value : ℕ) (tail : List ℕ)
    → value < eight_to n
    → value < 2 ^ 64
    → parse_octal_from 0 (octal_field n value tail) ≡ parse_octal_from value tail
unfolding octal_field parse_octal_from
parse_octal-digits zero value tail small word =
    ap (λ v. parse_octal_from v tail) (omega (arith, small))
parse_octal-digits (suc n) value tail small word =
    let digit : (value / 8 * 8 + (b'0' + value % 8 - b'0')) % 2 ^ 64 ≡ value =
      omega (arith, word) in
    parse_octal-digits n (value / 8) ((b'0' + value % 8) ∷ tail) (omega (arith, small))
      (omega (arith, word))
    ∙ ground (arith, ap (λ v. parse_octal_from v tail) digit)

parse_octal-tail :
    (value : ℕ) (tail : List ℕ)
    → ltb (char tail) b'0' || ltb b'7' (char tail) ≡ true
    → parse_octal_from value tail ≡ value
unfolding parse_octal_from
parse_octal-tail value [] ends = refl
parse_octal-tail value (c ∷ tail) ends = rw ends refl

-- A 64-bit value in a field of octal digits, enough for it, that no further digit follows is read
-- back by parse_octal.
pub parse_octal-octal_field :
    (n value : ℕ) (tail : List ℕ)
    → value < eight_to n
    → value < 2 ^ 64
    → ltb (char tail) b'0' || ltb b'7' (char tail) ≡ true
    → parse_octal (octal_field n value tail) ≡ value
unfolding parse_octal
parse_octal-octal_field n value tail small word ends =
    parse_octal-digits n value tail small word ∙ parse_octal-tail value tail ends

-- The path that the two fields of a header stand for.
abbrev pub full_path : UstarHeader → List ℕ
full_path hdr = if ltb 0 (length hdr.prefix) then hdr.prefix ++ b'/' ∷ hdr.name else hdr.name

take-shorter :
    (xs : List ℕ) (room : ℕ)
    → take (if ltb (length xs) room then length xs else room) xs ≡ take room xs
take-shorter xs room = elim (Bool-cases (ltb (length xs) room)) [
  | inl short ↦
      rw short
        (take_all (length xs) xs (omega arith) ∙ sym (take_all room xs (ground (arith, short))))
  | inr long ↦ rw long refl
]

take-append :
    (xs ys : List ℕ) (k : ℕ) → length xs ≤ k → take k (xs ++ ys) ≡ xs ++ take (k - length xs) ys
take-append [] ys k h = ap (λ n. take n ys) (omega arith)
take-append (x ∷ xs) ys zero h = elim h [ ]
take-append (x ∷ xs) ys (suc k) h =
    ap (◌∷◌ x) (take-append xs ys k (omega arith) ∙ ap (λ n. xs ++ take n ys) (omega arith))

-- Build_full_path with its buffer of 256 bytes gives the prefix, a slash and the name, or the name
-- alone when the prefix is empty, cut to 255 bytes; the fields hold no NUL and have at most 155
-- and 100 bytes.
pub build_full_path_lem :
    (hdr : UstarHeader)
    → NulFree hdr.prefix
    → NulFree hdr.name
    → length hdr.prefix ≤ 155
    → length hdr.name ≤ 100
    → build_full_path hdr 256 ≡ take 255 (full_path hdr)
unfolding build_full_path
build_full_path_lem hdr f g short_prefix short_name =
    let p : strnlen hdr.prefix 155 ≡ length hdr.prefix =
      strnlen_lem 155 hdr.prefix f ∙ omega (arith, short_prefix) in
    let n : strnlen hdr.name 100 ≡ length hdr.name =
      strnlen_lem 100 hdr.name g ∙ omega (arith, short_name) in
    elim (Bool-cases (ltb 0 (length hdr.prefix))) [
      | inl some_prefix ↦
          let whole : ltb (length hdr.prefix) 255 ≡ true = ground (arith, short_prefix) in
          let slash : length (hdr.prefix ++ b'/' ∷ []) ≡ length hdr.prefix + 1 =
            length-append hdr.prefix (b'/' ∷ []) in
          rw (p, some_prefix, whole, take_all (length hdr.prefix) hdr.prefix (omega arith), whole)
            (rw (n, take-shorter hdr.name (255 - length (hdr.prefix ++ b'/' ∷ [])))
              (sym (
                  take-append (hdr.prefix ++ b'/' ∷ []) hdr.name 255
                    (omega (arith, slash, short_prefix)))
                ∙ ap (λ l. take 255 l) (append_assoc hdr.prefix (b'/' ∷ []) hdr.name)))
      | inr no_prefix ↦ rw (p, no_prefix, n) (take-shorter hdr.name 255)
    ]
