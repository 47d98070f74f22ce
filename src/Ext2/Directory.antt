-- ===== src/Ext2/Directory.antt =====
-- What a read of a directory of src/fs/ext2.cpp gives: the records of its entries, for the look-up
-- of src/fs/vfs.cpp.
use mathlib.Core.List.{append_assoc, append-nil, nil≢cons, head-eq_of_cons-eq, tail-eq_of_cons-eq}
use retux.Prelude.{
  ℕ, ◌+◌, ◌==◌, ltb, leb, ◌≤◌, ◌<◌, ◌≡◌, inl, inr, refl, sym, ap, ◌∙◌, Bool, true, false, not, ◌&&◌,
  arith, if◌then◌else◌, List, [], ◌∷◌, ◌++◌, Bool-cases, length, All, length-append,
}
use retux.Tarfs.{record_of}
use retux.Tarfs.Files.{length-record_of}
use retux.Vfs.Chunks.{records}
use retux.Ext2.{Ext2DirEntry, Listing, list_entry}
use retux.Ext2.Entries.{list_all, list_all-full, list_all-step}

abbrev pub is_live : Ext2DirEntry → Bool
is_live d = not (d.inode == 0) && ltb 0 d.name_len

-- The entries in use, by number and name.
abbrev pub live : List Ext2DirEntry → List (ℕ × List ℕ)
live [] = []
live (d ∷ ds) = if is_live d then (d.inode, d.name) ∷ live ds else live ds

-- The length of a name is the one that is stored.
abbrev pub Named : Ext2DirEntry → Type 0
Named d = length d.name ≡ d.name_len

abbrev pub record_size : Ext2DirEntry → ℕ
record_size d = 8 + d.name_len + 1

-- One entry, by the case that applies.
entry_unused :
    (offset count : ℕ) (d : Ext2DirEntry) (l : Listing)
    → is_live d ≡ false
    → list_entry offset count d l ≡ l
unfolding list_entry
entry_unused offset count d l unused = rw unused refl

entry_early :
    (offset count : ℕ) (d : Ext2DirEntry) (out : List ℕ) (pos : ℕ)
    → is_live d ≡ true
    → pos < offset
    → list_entry offset count d (record { out = out; stream_pos = pos; full = false })
      ≡ record { out = out; stream_pos = pos + record_size d; full = false }
unfolding list_entry
entry_early offset count d out pos used early =
    let early' : leb offset pos ≡ false = ground (arith, early) in rw (used, early') refl

entry_full :
    (offset count : ℕ) (d : Ext2DirEntry) (out : List ℕ) (pos : ℕ)
    → is_live d ≡ true
    → offset ≤ pos
    → count < length out + record_size d
    → list_entry offset count d (record { out = out; stream_pos = pos; full = false })
      ≡ record { out = out; stream_pos = pos; full = true }
unfolding list_entry
entry_full offset count d out pos used late no_room =
    let late' : leb offset pos ≡ true = ground (arith, late) in
    let no_room' : ltb count (length out + record_size d) ≡ true = ground (arith, no_room) in
    rw (used, late', no_room') refl

entry_written :
    (offset count : ℕ) (d : Ext2DirEntry) (out : List ℕ) (pos : ℕ)
    → is_live d ≡ true
    → offset ≤ pos
    → length out + record_size d ≤ count
    → list_entry offset count d (record { out = out; stream_pos = pos; full = false }) ≡ record {
      out = out ++ record_of d.inode d.name;
      stream_pos = pos + record_size d;
      full = false;
    }
unfolding list_entry
entry_written offset count d out pos used late room =
    let late' : leb offset pos ≡ true = ground (arith, late) in
    let room' : ltb count (length out + record_size d) ≡ false = ground (arith, room) in
    rw (used, late', room') refl

abbrev pub at_entry : List ℕ → ℕ → Listing
at_entry out pos = record { out = out; stream_pos = pos; full = false }

live-unused :
    (d : Ext2DirEntry) (ds : List Ext2DirEntry) → is_live d ≡ false → live (d ∷ ds) ≡ live ds
live-unused d ds unused = rw unused refl

live-used :
    (d : Ext2DirEntry) (ds : List Ext2DirEntry)
    → is_live d ≡ true
    → live (d ∷ ds) ≡ (d.inode, d.name) ∷ live ds
live-used d ds used = rw used refl

size-record_of : (d : Ext2DirEntry) → Named d → length (record_of d.inode d.name) ≡ record_size d
size-record_of d named = omega (arith, length-record_of d.inode d.name, named)

-- The records before the offset are passed over.
pub list_all-skip :
    (ds : List Ext2DirEntry) (xs ys : List (ℕ × List ℕ)) (offset count pos : ℕ) (out : List ℕ)
    → live ds ≡ xs ++ ys
    → All Named ds
    → pos + length (records xs) ≡ offset
    → (ds' : List Ext2DirEntry) × (live ds' ≡ ys)
      × All Named ds'
      × (list_all offset count ds (at_entry out pos)
          ≡ list_all offset count ds' (at_entry out offset))
list_all-skip ds [] ys offset count pos out split named at =
    (ds, split, named, ap (λ p. list_all offset count ds (at_entry out p)) (omega (arith, at)))
list_all-skip [] (x ∷ xs) ys offset count pos out split named at = absurd (nil≢cons split)
list_all-skip (d ∷ ds) (x ∷ xs) ys offset count pos out split (here, named) at =
    elim (Bool-cases (is_live d)) [
      | inl used ↦
          let split' : (d.inode, d.name) ∷ live ds ≡ x ∷ (xs ++ ys) =
            sym (live-used d ds used) ∙ split in
          let same : (d.inode, d.name) ≡ x = head-eq_of_cons-eq split' in
          let size : length (record_of x.0 x.1) ≡ record_size d =
            ap (λ (e : ℕ × List ℕ). length (record_of e.0 e.1)) (sym same)
            ∙ size-record_of d here in
          let parts = length-append (record_of x.0 x.1) (records xs) in
          let (ds', left, named', run) =
            list_all-skip ds xs ys offset count (pos + record_size d) out
              (tail-eq_of_cons-eq split') named (omega (arith, at, parts, size)) in
          (
            ds',
            left,
            named',
            list_all-step offset count d ds (at_entry out pos) refl
                ∙ ap (list_all offset count ds)
                    (entry_early offset count d out pos used (omega (arith, at, parts, size)))
                ∙ run,
          )
      | inr unused ↦
          let (ds', left, named', run) =
            list_all-skip ds (x ∷ xs) ys offset count pos out
              (sym (live-unused d ds unused) ∙ split) named at in
          (
            ds',
            left,
            named',
            list_all-step offset count d ds (at_entry out pos) refl
                ∙ ap (list_all offset count ds)
                    (entry_unused offset count d (at_entry out pos) unused)
                ∙ run,
          )
    ]

-- There is no next record, or it does not fit.
abbrev pub Stops : (count used : ℕ) → List (ℕ × List ℕ) → Type 0
Stops count used [] = Unit {0}
Stops count used (e ∷ es) = count < used + length (record_of e.0 e.1)

-- From the offset on, records are written while they fit.
pub list_all-write :
    (ds : List Ext2DirEntry) (offset count pos : ℕ) (out : List ℕ)
    → All Named ds
    → offset ≤ pos
    → length out ≤ count
    → (zs rest : List (ℕ × List ℕ)) × (live ds ≡ zs ++ rest)
      × ((list_all offset count ds (at_entry out pos)).out ≡ out ++ records zs)
      × (length (out ++ records zs) ≤ count)
      × Stops count (length (out ++ records zs)) rest
unfolding list_all
list_all-write [] offset count pos out named late fits =
    ([], [], refl, sym (append-nil out), rw (append-nil out) fits, tt)
list_all-write (d ∷ ds) offset count pos out (here, named) late fits =
    let step = list_all-step offset count d ds (at_entry out pos) refl in
    elim (Bool-cases (is_live d)) [
      | inl used ↦ (elim (Bool-cases (ltb count (length out + record_size d))) [
        | inl no_room ↦
            let no_room' : count < length out + record_size d = ground (arith, no_room) in
            (
              [],
              live (d ∷ ds),
              refl,
              ap (λ l. l.out)
                    (step
                      ∙ ap (list_all offset count ds)
                          (entry_full offset count d out pos used late no_room')
                      ∙ list_all-full offset count ds
                          (record { out = out; stream_pos = pos; full = true }) refl)
                  ∙ sym (append-nil out),
              rw (append-nil out) fits,
              rw (live-used d ds used, append-nil out)
                  (omega (arith, no_room', size-record_of d here)),
            )
        | inr room ↦
            let room' : length out + record_size d ≤ count = ground (arith, room) in
            let longer = length-append out (record_of d.inode d.name) in
            let (zs, rest, split, run, fits', stops) =
              list_all-write ds offset count (pos + record_size d) (out ++ record_of d.inode d.name)
                named (omega (arith, late)) (omega (arith, longer, room', size-record_of d here)) in
            let joined = append_assoc out (record_of d.inode d.name) (records zs) in
            (
              (d.inode, d.name) ∷ zs,
              rest,
              live-used d ds used ∙ ap (λ l. (d.inode, d.name) ∷ l) split,
              ap (λ l. l.out)
                    (step
                      ∙ ap (list_all offset count ds)
                          (entry_written offset count d out pos used late room'))
                  ∙ run
                  ∙ joined,
              rw (← joined) fits',
              rw (← joined) stops,
            )
      ])
      | inr unused ↦
          let (zs, rest, split, run, fits', stops) =
            list_all-write ds offset count pos out named late fits in
          (
            zs,
            rest,
            live-unused d ds unused ∙ split,
            ap (λ l. l.out)
                  (step
                    ∙ ap (list_all offset count ds)
                        (entry_unused offset count d (at_entry out pos) unused))
                ∙ run,
            fits',
            stops,
          )
    ]
