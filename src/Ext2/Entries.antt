-- ===== src/Ext2/Entries.antt =====
-- The entries of a directory of src/fs/ext2.cpp: the two loops of ext2_readdir go through them in
-- order.
use retux.Prelude.{
  ℕ, zero, suc, ◌+◌, ◌-◌, ◌/◌, ◌%◌, ◌^◌, ◌==◌, ltb, leb, ◌≤◌, ◌<◌, ◌≡◌, ◌≢◌, inl, inr, refl, sym,
  ap, ◌∙◌, Bool, true, false, ◌||◌, arith, if◌then◌else◌, List, [], ◌∷◌, ◌++◌, Bool-cases, Option,
  some, min, length,
}
use retux.Vfs.{◌>>=◌}
use retux.Ext2.{
  Ext2State, Ext2Inode, Ext2DirEntry, Listing, Buffer, entry_at, list_entry, list_block,
  list_blocks, resolve_block, read_block,
}

-- The entries of a list one after another, until the buffer is full.
unfoldable pub list_all : (offset count : ℕ) → List Ext2DirEntry → Listing → Listing
list_all offset count [] l = l
list_all offset count (d ∷ ds) l =
    let rest = list_all offset count ds (list_entry offset count d l) in if l.full then l else rest

-- The entries that cover a block from a position on.
abbrev pub EntriesAt : Buffer → (size pos : ℕ) → List Ext2DirEntry → Type 0
EntriesAt blk size pos [] = size ≤ pos
EntriesAt blk size pos (d ∷ ds) =
    (pos < size)
    × (entry_at blk pos ≡ d)
    × (0 < d.rec_len)
    × EntriesAt blk size (pos + d.rec_len) ds

-- The blocks of a directory from a byte on, with their entries.
abbrev pub DirectoryAt : Ext2State → Ext2Inode → (blk_start : ℕ) → List (List Ext2DirEntry) → Type 0
DirectoryAt st di blk_start [] = di.i_size ≤ blk_start
DirectoryAt st di blk_start (ds ∷ dss) =
    (blk : Buffer) × (blk_start < di.i_size)
    × (resolve_block st di (blk_start / st.block_size) ≢ 0)
    × (read_block st (resolve_block st di (blk_start / st.block_size)) ≡ some blk)
    × EntriesAt blk (min st.block_size (di.i_size - blk_start)) 0 ds
    × DirectoryAt st di (blk_start + st.block_size) dss

abbrev pub concat : List (List Ext2DirEntry) → List Ext2DirEntry
concat [] = []
concat (ds ∷ dss) = ds ++ concat dss

pub list_all-full :
    (offset count : ℕ) (ds : List Ext2DirEntry) (l : Listing)
    → l.full ≡ true
    → list_all offset count ds l ≡ l
unfolding list_all
list_all-full offset count [] l full = refl
list_all-full offset count (d ∷ ds) l full =
    ap (λ b. if b then l else list_all offset count ds (list_entry offset count d l)) full

pub list_all-step :
    (offset count : ℕ) (d : Ext2DirEntry) (ds : List Ext2DirEntry) (l : Listing)
    → l.full ≡ false
    → list_all offset count (d ∷ ds) l ≡ list_all offset count ds (list_entry offset count d l)
unfolding list_all
list_all-step offset count d ds l room =
    ap (λ b. if b then l else list_all offset count ds (list_entry offset count d l)) room

list_all-append :
    (offset count : ℕ) (ds es : List Ext2DirEntry) (l : Listing)
    → list_all offset count (ds ++ es) l ≡ list_all offset count es (list_all offset count ds l)
unfolding list_all
list_all-append offset count [] es l = refl
list_all-append offset count (d ∷ ds) es l = elim (Bool-cases l.full) [
  | inl full ↦
      list_all-full offset count (d ∷ ds ++ es) l full
      ∙ sym (list_all-full offset count es l full)
      ∙ ap (list_all offset count es) (sym (list_all-full offset count (d ∷ ds) l full))
  | inr room ↦
      list_all-step offset count d (ds ++ es) l room
      ∙ list_all-append offset count ds es (list_entry offset count d l)
      ∙ ap (list_all offset count es) (sym (list_all-step offset count d ds l room))
]

-- The tests with which a round of the loops begins.
stop-left :
    (full done : Bool) (x y : Option Listing) → full ≡ true → (if full || done then x else y) ≡ x
stop-left true done x y e = refl
stop-left false done x y e = cc

stop-right :
    (full done : Bool) (x y : Option Listing) → done ≡ true → (if full || done then x else y) ≡ x
stop-right true done x y e = refl
stop-right false true x y e = refl
stop-right false false x y e = cc

go_on :
    (full done : Bool) (x y : Option Listing)
    → full ≡ false
    → done ≡ false
    → (if full || done then x else y) ≡ y
go_on true done x y e f = cc
go_on false true x y e f = cc
go_on false false x y e f = refl

list_block_lem :
    (fuel offset count : ℕ) (blk : Buffer) (size pos : ℕ) (ds : List Ext2DirEntry) (l : Listing)
    → EntriesAt blk size pos ds
    → size - pos < fuel
    → list_block fuel offset count blk size pos l ≡ some (list_all offset count ds l)
unfolding list_block list_all
list_block_lem zero offset count blk size pos ds l at enough = elim enough [ ]
list_block_lem (suc fuel) offset count blk size pos [] l at enough =
    stop-right l.full (leb size pos) _ _ (ground (arith, at))
list_block_lem (suc fuel) offset count blk size pos (d ∷ ds) l (inside, here, long, at) enough =
    let later =
      list_block_lem fuel offset count blk size (pos + d.rec_len) ds (list_entry offset count d l)
        at (omega (arith, long, inside, enough)) in
    let real : (d.rec_len == 0) ≡ false = ground (arith, long) in
    (elim (Bool-cases l.full) [
      | inl full ↦
          stop-left l.full (leb size pos) _ _ full
          ∙ ap some (sym (list_all-full offset count (d ∷ ds) l full))
      | inr room ↦
          go_on l.full (leb size pos) _ _ room (ground (arith, inside))
          ∙ rw here (rw real later)
          ∙ ap some (sym (list_all-step offset count d ds l room))
    ])

pub list_blocks_lem :
    (st : Ext2State) (di : Ext2Inode) (fuel offset count blk_start : ℕ)
    (dss : List (List Ext2DirEntry)) (l : Listing)
    → di.i_size + st.block_size < 2 ^ 32
    → DirectoryAt st di blk_start dss
    → length dss < fuel
    → list_blocks fuel st di offset count blk_start l ≡ some (list_all offset count (concat dss) l)
unfolding list_blocks list_all
list_blocks_lem st di zero offset count blk_start dss l word at enough = elim enough [ ]
list_blocks_lem st di (suc fuel) offset count blk_start [] l word at enough =
    stop-right l.full (leb di.i_size blk_start) _ _ (ground (arith, at))
list_blocks_lem st di (suc fuel) offset count blk_start (ds ∷ dss) l word
      (blk, inside, real, run, entries, at) enough =
    let bs = st.block_size in
    let l' = list_all offset count ds l in
    let real' : (resolve_block st di (blk_start / bs) == 0) ≡ false = ground (arith, real) in
    let end : (blk_start + bs) % 2 ^ 32 ≡ blk_start + bs = omega (arith, inside, word) in
    let size : ((if ltb di.i_size (blk_start + bs) then di.i_size else blk_start + bs)
            + 2 ^ 32
            - blk_start)
          % 2 ^ 32
        ≡ min bs (di.i_size - blk_start) =
      ground (arith, inside, word) in
    let block =
      list_block_lem (suc (min bs (di.i_size - blk_start))) offset count blk
        (min bs (di.i_size - blk_start)) 0 ds l entries (omega arith) in
    let later =
      list_blocks_lem st di fuel offset count (blk_start + bs) dss l' word at
        (omega (arith, enough)) in
    (elim (Bool-cases l.full) [
      | inl full ↦
          stop-left l.full (leb di.i_size blk_start) _ _ full
          ∙ ap some (sym (list_all-full offset count (ds ++ concat dss) l full))
      | inr room ↦
          go_on l.full (leb di.i_size blk_start) _ _ room (ground (arith, inside))
          ∙ rw (real', run, end, size)
              (ap (λ r. r >>= λ l'. list_blocks fuel st di offset count (blk_start + bs) l') block
                ∙ later)
          ∙ ap some (sym (list_all-append offset count ds (concat dss) l))
    ])
