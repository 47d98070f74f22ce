-- ===== src/Ext2/Lookup.antt =====
-- A directory of src/fs/ext2.cpp under the look-up of src/fs/vfs.cpp.
use native.Mathlib.Nat.{pow-suc}
use retux.Prelude.{
  ℕ, zero, suc, ◌+◌, ◌-◌, ◌%◌, ◌^◌, ◌==◌, ◌≤◌, ◌<◌, ◌≡◌, inl, inr, sym, ap, ◌∙◌, subst, false,
  arith, List, [], ◌∷◌, ◌++◌, Bool-cases, some, min, length, All,
}
use retux.Strings.Compare.{NulFree}
use retux.Tarfs.Files.{length-record_of}
use retux.Partitions.{number_at}
use retux.Vfs.{◌>>=◌, find_entry, chunk_size}
use retux.Vfs.Chunks.{records, lookup, IsEntry}
use retux.Vfs.Lookup.{Lists, find_entry_lem}
use retux.Ext2.{Ext2State, Ext2Inode, Ext2DirEntry, Buffer, entry_at, ext2_readdir, answer}
use retux.Ext2.Entries.{list_blocks_lem, DirectoryAt, EntriesAt, concat}
use retux.Ext2.Directory.{live, is_live, Named, Stops, list_all-skip, list_all-write}
use retux.Ext2.Content.{length-bytes_at}

number_at-lt : (n : ℕ) (f : ℕ → ℕ) (i : ℕ) → number_at n f i < 256 ^ n
unfolding number_at
number_at-lt zero f i = omega arith
number_at-lt (suc n) f i = rw (pow-suc 256 n) (omega (arith, number_at-lt n f (i + 1)))

-- What the width of the fields gives.
abbrev Sane : Ext2DirEntry → Type 0
Sane d = (d.inode < 2 ^ 32) × (length d.name < 256)

entry_at-Named : (blk : Buffer) (pos : ℕ) → Named (entry_at blk pos)
unfolding entry_at
entry_at-Named blk pos = length-bytes_at (blk (pos + 6) % 256) blk (pos + 8)

entry_at-Sane : (blk : Buffer) (pos : ℕ) → Sane (entry_at blk pos)
unfolding entry_at
entry_at-Sane blk pos =
    (number_at-lt 4 blk pos, omega (arith, length-bytes_at (blk (pos + 6) % 256) blk (pos + 8)))

EntriesAt-All :
    (P : Ext2DirEntry → Type 0)
    → ((blk : Buffer) (pos : ℕ) → P (entry_at blk pos))
    → (blk : Buffer) (size pos : ℕ) (ds : List Ext2DirEntry) → EntriesAt blk size pos ds
    → All P ds
EntriesAt-All P each blk size pos [] at = tt
EntriesAt-All P each blk size pos (d ∷ ds) (_, here, _, at) =
    (subst P here (each blk pos), EntriesAt-All P each blk size (pos + d.rec_len) ds at)

All-append :
    (P : Ext2DirEntry → Type 0) (ds es : List Ext2DirEntry) → All P ds → All P es → All P (ds ++ es)
All-append P [] es a b = b
All-append P (d ∷ ds) es (h, a) b = (h, All-append P ds es a b)

DirectoryAt-All :
    (P : Ext2DirEntry → Type 0)
    → ((blk : Buffer) (pos : ℕ) → P (entry_at blk pos))
    → (st : Ext2State) (di : Ext2Inode) (blk_start : ℕ) (dss : List (List Ext2DirEntry))
    → DirectoryAt st di blk_start dss
    → All P (concat dss)
DirectoryAt-All P each st di blk_start [] at = tt
DirectoryAt-All P each st di blk_start (ds ∷ dss) (blk, _, _, _, entries, at) =
    All-append P ds (concat dss)
      (EntriesAt-All P each blk (min st.block_size (di.i_size - blk_start)) 0 ds entries)
      (DirectoryAt-All P each st di (blk_start + st.block_size) dss at)

-- Entries in use with plain names are entries of the look-up, and short.
abbrev Fits : ℕ × List ℕ → Type 0
Fits e = IsEntry e × (length e.1 < 256)

live-Fits :
    (ds : List Ext2DirEntry)
    → All Sane ds
    → All (λ (e : ℕ × List ℕ). NulFree e.1) (live ds)
    → All Fits (live ds)
live-Fits [] sane plain = tt
live-Fits (d ∷ ds) ((small, short), sane) plain = elim (Bool-cases (is_live d)) [
  | inl used ↦
      let plain' : All (λ (e : ℕ × List ℕ). NulFree e.1) ((d.inode, d.name) ∷ live ds) =
        rw used at plain in
      rw used (((omega (arith, small), plain'.0), short), live-Fits ds sane plain'.1)
  | inr unused ↦
      let plain' : All (λ (e : ℕ × List ℕ). NulFree e.1) (live ds) = rw unused at plain in
      rw unused (live-Fits ds sane plain')
]

Fits-IsEntry : (es : List (ℕ × List ℕ)) → All Fits es → All IsEntry es
Fits-IsEntry [] a = tt
Fits-IsEntry (e ∷ es) ((h, _), a) = (h, Fits-IsEntry es a)

Fits-right : (xs ys : List (ℕ × List ℕ)) → All Fits (xs ++ ys) → All Fits ys
Fits-right [] ys a = a
Fits-right (x ∷ xs) ys a = Fits-right xs ys a.1

-- A record fits in an empty chunk, so one is written while there is one.
Stops-first :
    (zs rest : List (ℕ × List ℕ))
    → All Fits (zs ++ rest)
    → Stops chunk_size (length (records zs)) rest
    → 0 < length (zs ++ rest)
    → 0 < length zs
Stops-first (z ∷ zs) rest a stops more = omega arith
Stops-first [] [] a stops more = more
Stops-first [] (e ∷ es) a stops more =
    absurd (omega (arith, stops, length-record_of e.0 e.1, a.0.1))

module _ (st : Ext2State) (di : Ext2Inode) (dss : List (List Ext2DirEntry)) (fuel : ℕ)
    (some_bs : 0 < st.block_size) (word : di.i_size + st.block_size < 2 ^ 32)
    (directory : DirectoryAt st di 0 dss) (enough : length dss < fuel) where
  -- A read where a record starts gives the records from there on, whole, as many as fit.
  pub ext2_readdir_lem :
      (xs ys : List (ℕ × List ℕ)) (count : ℕ)
      → live (concat dss) ≡ xs ++ ys
      → (zs rest : List (ℕ × List ℕ)) × (ys ≡ zs ++ rest)
        × (ext2_readdir fuel st di (length (records xs)) count ≡ some (some (records zs)))
        × (length (records zs) ≤ count)
        × Stops count (length (records zs)) rest
  unfolding ext2_readdir
  ext2_readdir_lem xs ys count split =
      let named = DirectoryAt-All Named entry_at-Named st di 0 dss directory in
      let real : (st.block_size == 0) ≡ false = ground (arith, some_bs) in
      let offset = length (records xs) in
      let (ds', left, named', skip) =
        list_all-skip (concat dss) xs ys offset count 0 [] split named (omega arith) in
      let (zs, rest, parts, run, fits, stops) =
        list_all-write ds' offset count offset [] named' (omega arith) (omega arith) in
      let blocks =
        list_blocks_lem st di fuel offset count 0 dss
          (record { out = []; stream_pos = 0; full = false }) word directory enough in
      (
        zs,
        rest,
        sym left ∙ parts,
        rw real (
            ap (λ r. r >>= λ l. some (some l.out)) blocks
            ∙ ap (λ l. some (some l.out)) skip
            ∙ ap (λ o. some (some o)) run),
        fits,
        stops,
      )

  module _ (plain : All (λ (e : ℕ × List ℕ). NulFree e.1) (live (concat dss))) where
    ext2_readdir-Lists :
        Lists (λ offset count. answer (ext2_readdir fuel st di offset count)) (live (concat dss))
    ext2_readdir-Lists xs ys split =
        let (zs, rest, parts, run, fits, stops) = ext2_readdir_lem xs ys chunk_size split in
        let all =
          live-Fits (concat dss) (DirectoryAt-All Sane entry_at-Sane st di 0 dss directory) plain in
        let all_ys : All Fits (zs ++ rest) =
          subst (λ l. All Fits l) parts (Fits-right xs ys (subst (λ l. All Fits l) split all)) in
        (
          zs,
          rest,
          parts,
          ap answer run,
          fits,
          λ more. Stops-first zs rest all_ys stops (omega (arith, more, ap length parts)),
        )

    -- When the blocks of a directory are present and covered by its entries, with fuel for them, its
    -- size and a block together below 2^32 and its names in use free of NUL, the search in chunks of
    -- 512 bytes through ext2_readdir finds the first entry in use with the given name, or nothing if
    -- there is none.
    pub find_entry-ext2_readdir :
        (component buf : List ℕ) (dir_fuel : ℕ)
        → NulFree component
        → length (records (live (concat dss))) < 2 ^ 64
        → length (live (concat dss)) < dir_fuel
        → find_entry dir_fuel
            (λ offset count. answer (ext2_readdir fuel st di offset count))
            buf
            0
            component
          ≡ some (lookup (live (concat dss)) component)
    find_entry-ext2_readdir component buf dir_fuel free small more =
        find_entry_lem (λ offset count. answer (ext2_readdir fuel st di offset count))
          (live (concat dss)) component buf dir_fuel ext2_readdir-Lists
          (Fits-IsEntry (live (concat dss)) (
            live-Fits (concat dss) (DirectoryAt-All Sane entry_at-Sane st di 0 dss directory)
              plain))
          free small more
