-- ===== src/Ext2/Content.antt =====
-- Reads of src/fs/ext2.cpp against the bytes of the file, block after block.
use native.Mathlib.Nat.{div-add-mod', mod-lt, div-le_self}
use retux.Prelude.{
  ℕ, zero, suc, ◌+◌, ◌-◌, ◌*◌, ◌/◌, ◌%◌, ◌^◌, ◌==◌, ltb, leb, ◌≤◌, ◌<◌, ◌≡◌, ◌≢◌, inl, inr, refl,
  sym, ap, ◌∙◌, true, false, arith, if◌then◌else◌, ◌∷◌, ◌++◌, Bool-cases, length, take, drop, some,
  min,
}
use retux.Partitions.{bytes_at}
use retux.Vfs.{Inode, read_whole_file, ◌>>=◌}
use retux.Vfs.Whole.{Reads, read_whole_file_lem}
use retux.Ext2.{
  Ext2State, Ext2Inode, Buffer, resolve_block, read_block, copy_blocks, ext2_read, fetch_inode,
  make_vfs_inode, vfs_inode, answer,
}
use retux.Ext2.Blocks.{div_digits, mod_digits}

pub length-bytes_at : (n : ℕ) (f : ℕ → ℕ) (i : ℕ) → length (bytes_at n f i) ≡ n
unfolding bytes_at
length-bytes_at zero f i = refl
length-bytes_at (suc n) f i = ap suc (length-bytes_at n f (i + 1))

bytes_at-add :
    (a b : ℕ) (f : ℕ → ℕ) (i : ℕ) → bytes_at (a + b) f i ≡ bytes_at a f i ++ bytes_at b f (i + a)
unfolding bytes_at
bytes_at-add zero b f i =
    let z : zero + b ≡ b = omega arith in let z' : i + zero ≡ i = omega arith in rw (z, z') refl
bytes_at-add (suc a) b f i =
    let s : suc a + b ≡ suc (a + b) = omega arith in
    let s' : i + suc a ≡ i + 1 + a = omega arith in
    rw (s, s') (ap (λ l. f i ∷ l) (bytes_at-add a b f (i + 1)))

-- A part of the bytes.
take-bytes_at : (k n : ℕ) (f : ℕ → ℕ) (i : ℕ) → k ≤ n → take k (bytes_at n f i) ≡ bytes_at k f i
unfolding bytes_at
take-bytes_at zero n f i le = refl
take-bytes_at (suc k) zero f i le = elim le [ ]
take-bytes_at (suc k) (suc n) f i le =
    ap (λ l. f i ∷ l) (take-bytes_at k n f (i + 1) (omega (arith, le)))

drop-bytes_at :
    (o n : ℕ) (f : ℕ → ℕ) (i : ℕ) → o ≤ n → drop o (bytes_at n f i) ≡ bytes_at (n - o) f (i + o)
unfolding bytes_at
drop-bytes_at zero n f i le =
    let z : i + zero ≡ i = omega arith in let z' : n - zero ≡ n = omega arith in rw (z, z') refl
drop-bytes_at (suc o) zero f i le = elim le [ ]
drop-bytes_at (suc o) (suc n) f i le =
    let s : i + suc o ≡ i + 1 + o = omega arith in
    let s' : suc n - suc o ≡ n - o = omega arith in
    rw (s, s') (drop-bytes_at o n f (i + 1) (omega (arith, le)))

-- Byte `n` of the file whose blocks are given.
abbrev pub byte_of : (bs : ℕ) → (ℕ → Buffer) → ℕ → ℕ
byte_of bs blocks n = blocks (n / bs) (n % bs)

-- Bytes within one block.
bytes_at-block :
    (k bs : ℕ) (blocks : ℕ → Buffer) (l off : ℕ)
    → off + k ≤ bs
    → bytes_at k (byte_of bs blocks) (l * bs + off) ≡ bytes_at k (blocks l) off
unfolding bytes_at
bytes_at-block zero bs blocks l off fits = refl
bytes_at-block (suc k) bs blocks l off fits =
    let next : l * bs + off + 1 ≡ l * bs + (off + 1) = omega arith in
    rw
      (
        next,
        div_digits l off bs (omega (arith, fits)),
        mod_digits l off bs (omega (arith, fits)),
        bytes_at-block k bs blocks l (off + 1) (omega (arith, fits)),
      )
      refl

-- Every block of the file is there and can be read.
abbrev pub Holds : Ext2State → Ext2Inode → (ℕ → Buffer) → Type 0
Holds st di blocks =
    (l : ℕ)
    → l * st.block_size < di.i_size
    → (resolve_block st di l ≢ 0) × (read_block st (resolve_block st di l) ≡ some (blocks l))

module _ (st : Ext2State) (di : Ext2Inode) (blocks : ℕ → Buffer) (some_bs : 0 < st.block_size)
    (word : di.i_size < 2 ^ 32) (holds : Holds st di blocks) where
  abbrev byte : ℕ → ℕ
  byte = byte_of st.block_size blocks

  -- One round copies the rest of a block, or what is left of the count.
  copy_blocks-step :
      (fuel offset count t : ℕ)
      → offset + count ≤ di.i_size
      → t < count
      → (k : ℕ) × (0 < k)
        × (t + k ≤ count)
        × (copy_blocks (suc fuel) st di offset count (bytes_at t byte offset)
            ≡ copy_blocks fuel st di offset count (bytes_at (t + k) byte offset))
  unfolding copy_blocks
  copy_blocks-step fuel offset count t inside more =
      let bs = st.block_size in
      let len = length-bytes_at t byte offset in
      let not_done : leb count t ≡ false = ground (arith, more) in
      let at : (offset + t) % 2 ^ 64 ≡ offset + t = omega (arith, inside, word, more) in
      let l = (offset + t) / bs in
      let off = (offset + t) % bs in
      let split : l * bs + off ≡ offset + t = div-add-mod' (offset + t) bs in
      let off_lt : off < bs = mod-lt (offset + t) some_bs in
      let l_word : l % 2 ^ 32 ≡ l =
        omega (arith, div-le_self (offset + t) bs, inside, word, more) in
      let rest : (count - t) % 2 ^ 32 ≡ count - t = omega (arith, inside, word) in
      let k = if ltb (bs - off) (count - t) then bs - off else count - t in
      let (real, run) = holds l (omega (arith, split, inside, more)) in
      let real' : (resolve_block st di l == 0) ≡ false = ground (arith, real) in
      let some_k : 0 < k = ground (arith, off_lt, more) in
      let fits : t + k ≤ count = ground (arith, more) in
      let in_block : off + k ≤ bs = ground (arith, off_lt) in
      let copied : bytes_at k (blocks l) off ≡ bytes_at k byte (offset + t) =
        sym (bytes_at-block k bs blocks l off in_block) ∙ ap (bytes_at k byte) split in
      (
        k,
        some_k,
        fits,
        rw (copy_blocks, len, not_done, at, l_word, real', run, len, at, rest)
            (ap (λ b. copy_blocks fuel st di offset count b)
              (ap (λ b. bytes_at t byte offset ++ b) copied ∙ sym (bytes_at-add t k byte offset))),
      )

  copy_blocks_lem :
      (fuel offset count t : ℕ)
      → offset + count ≤ di.i_size
      → t ≤ count
      → count - t < fuel
      → copy_blocks fuel st di offset count (bytes_at t byte offset)
        ≡ some (bytes_at count byte offset)
  unfolding copy_blocks
  copy_blocks_lem zero offset count t inside le enough = elim enough [ ]
  copy_blocks_lem (suc fuel) offset count t inside le enough = elim (Bool-cases (leb count t)) [
    | inl done ↦
        let same : t ≡ count = ground (arith, done, le) in
        let full : leb count count ≡ true = ground arith in
        rw (same, length-bytes_at count byte offset, full) refl
    | inr more ↦
        let more' : t < count = ground (arith, more) in
        let (k, some_k, fits, step) = copy_blocks-step fuel offset count t inside more' in
        step ∙ copy_blocks_lem fuel offset count (t + k) inside fits (omega (arith, some_k, enough))
  ]

  -- Under the same conditions on the file, ext2_read of count bytes with more fuel than count and
  -- offset + count below 2^64 gives the bytes of the file from the offset on, count of them or as
  -- many as are left.
  pub ext2_read_lem :
      (fuel offset count : ℕ)
      → offset + count < 2 ^ 64
      → count < fuel
      → ext2_read fuel st di offset count
        ≡ some
            (some (bytes_at (min count (di.i_size - offset)) (byte_of st.block_size blocks) offset))
  unfolding ext2_read bytes_at
  ext2_read_lem fuel offset count no_wrap enough =
      let at : (offset + count) % 2 ^ 64 ≡ offset + count = omega (arith, no_wrap) in
      let real : (st.block_size == 0) ≡ false = ground (arith, some_bs) in
      elim (Bool-cases (leb di.i_size offset)) [
        | inl past ↦
            let nothing : min count (di.i_size - offset) ≡ 0 = ground (arith, past) in
            rw (past, nothing) refl
        | inr before ↦
            let before' : offset < di.i_size = ground (arith, before) in
            let n = if ltb di.i_size (offset + count) then di.i_size - offset else count in
            let clipped : n ≡ min count (di.i_size - offset) = ground (arith, before') in
            let inside : offset + n ≤ di.i_size = ground (arith, before') in
            let small : n < fuel = ground (arith, before', enough) in
            let run = copy_blocks_lem fuel offset n 0 inside (omega arith) (omega (arith, small)) in
            rw (before, at, real)
              (ap (λ r. r >>= λ bytes. some (some bytes)) run
                ∙ ap (λ m. some (some (bytes_at m byte offset))) clipped)
      ]

  ext2_read-Reads :
      (fuel : ℕ)
      → di.i_size < fuel
      → Reads
          (λ offset count. answer (ext2_read fuel st di offset count))
          (bytes_at di.i_size byte 0)
  ext2_read-Reads fuel enough offset count before some_count inside =
      let len = length-bytes_at di.i_size byte 0 in
      let all : min count (di.i_size - offset) ≡ count = omega (arith, inside, len) in
      let part : bytes_at count byte offset ≡ take count (drop offset (bytes_at di.i_size byte 0)) =
        let z : 0 + offset ≡ offset = omega arith in
        sym (
          ap (take count) (drop-bytes_at offset di.i_size byte 0 (omega (arith, before, len)))
          ∙ take-bytes_at count (di.i_size - offset) byte (0 + offset) (omega (arith, inside, len))
          ∙ ap (bytes_at count byte) z) in
      (
        count,
        some_count,
        omega arith,
        inside,
        ap answer (
              ext2_read_lem fuel offset count (omega (arith, inside, len, word))
                (omega (arith, inside, len, enough)))
            ∙ ap (λ m. some (bytes_at m byte offset)) all
            ∙ ap some part,
      )

-- When blocks are not empty and every block of a file below 4 GiB is present and readable, then
-- from its inode, once fetched, make_vfs_inode makes an inode of which read_whole_file gives the
-- bytes of the file, block after block, with more fuel than it has bytes.
pub read_whole_file-ext2 :
    (st : Ext2State) (di : Ext2Inode) (blocks : ℕ → Buffer) (fuel sb ino : ℕ)
    → 0 < st.block_size
    → di.i_size < 2 ^ 32
    → Holds st di blocks
    → fetch_inode st ino ≡ some (some di)
    → di.i_size < fuel
    → (inode : Inode) × (make_vfs_inode fuel st sb ino ≡ some (some inode))
      × (read_whole_file fuel (record { inode = inode; offset = 0 })
          ≡ some (some (bytes_at di.i_size (byte_of st.block_size blocks) 0)))
unfolding make_vfs_inode
read_whole_file-ext2 st di blocks fuel sb ino some_bs word holds fetched enough =
    let content = bytes_at di.i_size (byte_of st.block_size blocks) 0 in
    let len : length content ≡ di.i_size =
      length-bytes_at di.i_size (byte_of st.block_size blocks) 0 in
    let made = vfs_inode fuel st sb ino di in
    (
      made,
      ap (λ r. r >>= λ fetched. some (fetched >>= λ di. some (vfs_inode fuel st sb ino di)))
          fetched,
      read_whole_file_lem fuel (record { inode = made; offset = 0 }) content
          (λ offset count. answer (ext2_read fuel st di offset count)) refl
          (ext2_read-Reads st di blocks some_bs word holds fuel enough) refl (sym len)
          (omega (arith, len, word)) (omega (arith, len, enough)),
    )
