-- ===== src/Vfs/Whole.antt =====
-- `read_whole_file` of src/fs/vfs.cpp.
use retux.Prelude.{
  ℕ, zero, suc, ◌+◌, ◌-◌, ◌%◌, ◌^◌, ◌==◌, leb, ltb, ◌≤◌, ◌<◌, ◌≡◌, refl, sym, ap, subst, ◌∙◌, false,
  Option, none, some, List, [], ◌∷◌, ◌++◌, length, take, drop, arith, length-drop, length-take,
  take_all, Bool-cases, inl, inr, if◌then◌else◌,
}
use retux.Vfs.{File, file_read, read_loop, read_whole_file, ◌>>=◌}

-- A driver's `read` gives some of the bytes from the offset on, at least one.
abbrev pub Reads : (ℕ → ℕ → Option (List ℕ)) → List ℕ → Type 0
Reads read content =
    (offset count : ℕ)
    → offset < length content
    → 0 < count
    → offset + count ≤ length content
    → (k : ℕ) × (0 < k)
      × (k ≤ count)
      × (offset + k ≤ length content)
      × (read offset count ≡ some (take k (drop offset content)))

take-none : (k : ℕ) → take {A = ℕ} k [] ≡ []
take-none zero = refl
take-none (suc k) = refl

take-take : (o k : ℕ) (xs : List ℕ) → take o xs ++ take k (drop o xs) ≡ take (o + k) xs
take-take zero k xs = ap (λ n. take n xs) (omega arith)
take-take (suc o) k [] = let more : suc o + k ≡ suc (o + k) = omega arith in rw more (take-none k)
take-take (suc o) k (x ∷ xs) =
    let more : suc o + k ≡ suc (o + k) = omega arith in rw more (ap (λ l. x ∷ l) (take-take o k xs))

file_read_lem :
    (f : File) (count : ℕ) (bytes : List ℕ) (read : ℕ → ℕ → Option (List ℕ))
    → f.inode.read ≡ some read
    → read f.offset count ≡ some bytes
    → file_read f count ≡ (some bytes, record f { offset = (f.offset + length bytes) % 2 ^ 64 })
unfolding file_read
file_read_lem f count bytes read op run =
    let answer : Option (List ℕ) → Option (List ℕ) × File = λ r. (elim r [
      | none ↦ (none, f)
      | some bs ↦ (some bs, record f { offset = (f.offset + length bs) % 2 ^ 64 })
    ]) in
    ap (λ o. answer (o >>= λ rd. rd f.offset count)) op ∙ ap answer run

-- One round that reads something.
read_loop-step :
    (fuel : ℕ) (file : File) (size : ℕ) (buf bytes : List ℕ) (read : ℕ → ℕ → Option (List ℕ))
    → length buf < size
    → file.inode.read ≡ some read
    → read file.offset (size - length buf) ≡ some bytes
    → 0 < length bytes
    → length bytes ≤ size - length buf
    → read_loop (suc fuel) file size buf
      ≡ read_loop fuel
          (record file { offset = (file.offset + length bytes) % 2 ^ 64 })
          size
          (buf ++ bytes)
unfolding read_loop
read_loop-step fuel file size buf [] read more op run some_byte fits = elim some_byte [ ]
read_loop-step fuel file size buf (b ∷ bs) read more op run some_byte fits =
    let inside : ltb (size - length buf) (length (b ∷ bs)) ≡ false = ground (arith, fits) in
    let more' : leb size (length buf) ≡ false = ground (arith, more) in
    let got = file_read_lem file (size - length buf) (b ∷ bs) read op run in
    rw (read_loop, more', got, got, inside) refl

read_loop-content :
    (fuel : ℕ) (file : File) (content : List ℕ) (read : ℕ → ℕ → Option (List ℕ)) (o : ℕ)
    → file.inode.read ≡ some read
    → Reads read content
    → file.offset ≡ o
    → o ≤ length content
    → length content - o < fuel
    → length content < 2 ^ 64
    → read_loop fuel file (length content) (take o content) ≡ some (some content)
unfolding read_loop
read_loop-content zero file content read o op reads at le enough word = elim enough [ ]
read_loop-content (suc fuel) file content read o op reads at le enough word =
    let len : length (take o content) ≡ o = omega (arith, length-take o content, le) in
    elim (Bool-cases (leb (length content) o)) [
      | inl done ↦
          rw (len, done) (ap (λ c. some (some c)) (take_all o content (ground (arith, done))))
      | inr more ↦
          let more' : o < length content = ground (arith, more) in
          let (k, some_byte, fits, inside, run) =
            reads o (length content - o) more' (omega (arith, more')) (omega (arith, more')) in
          let bytes = take k (drop o content) in
          let size : length bytes ≡ k =
            omega (arith, length-take k (drop o content), length-drop o content, inside) in
          let run' : read file.offset (length content - length (take o content)) ≡ some bytes =
            ap (λ x. read x (length content - length (take o content))) at
            ∙ ap (λ m. read o (length content - m)) len
            ∙ run in
          let step =
            read_loop-step fuel file (length content) (take o content) bytes read
              (omega (arith, len, more')) op run' (omega (arith, size, some_byte))
              (omega (arith, size, fits, len)) in
          let at' : (file.offset + length bytes) % 2 ^ 64 ≡ o + k =
            omega (arith, at, size, inside, word) in
          let later =
            read_loop-content fuel (record file { offset = (file.offset + length bytes) % 2 ^ 64 })
              content read (o + k) op reads at' inside (omega arith) word in
          step
          ∙ ap
              (λ b.
                read_loop fuel (record file { offset = (file.offset + length bytes) % 2 ^ 64 })
                  (length content) b)
              (take-take o k content)
          ∙ later
    ]

-- When the reads of a file give at least one byte each, in order, read_whole_file of a file at
-- offset 0 whose size is below 2^64 - 1 and below the fuel returns the content of the file.
pub read_whole_file_lem :
    (fuel : ℕ) (file : File) (content : List ℕ) (read : ℕ → ℕ → Option (List ℕ))
    → file.inode.read ≡ some read
    → Reads read content
    → file.offset ≡ 0
    → file.inode.size ≡ length content
    → length content + 1 < 2 ^ 64
    → length content < fuel
    → read_whole_file fuel file ≡ some (some content)
unfolding read_whole_file
read_whole_file_lem fuel file content read op reads start size word enough =
    let real : ((length content + 1) % 2 ^ 64 == 0) ≡ false = ground (arith, word) in
    subst
      (λ n.
        (if (n + 1) % 2 ^ 64 == 0 then some none else read_loop fuel file n [])
        ≡ some (some content))
      (sym size)
      (rw real (
        read_loop-content fuel file content read 0 op reads start (omega arith) (omega arith)
          (omega arith)))
