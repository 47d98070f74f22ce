-- ===== src/Tarfs/Files.antt =====
-- Reads of a file and of a directory of the archive, `tar_read` and `tar_readdir` of
-- src/fs/tarfs.cpp.
use mathlib.Core.List.{append_assoc, append-nil}
use retux.Prelude.{
  ℕ, zero, suc, ◌+◌, ◌-◌, ◌/◌, ◌^◌, ◌≤◌, ◌<◌, ◌≡◌, refl, ap, ltb, leb, true, false, List, [], ◌∷◌,
  ◌++◌, Option, none, some, arith, length, length-append, min, Bool-cases, inl, inr,
}
use retux.Tarfs.{TarNode, copied, tar_read, le_bytes, record_of, readdir_from, tar_readdir}

-- While offset + count is below 2^64, a read of a file at an offset inside it copies the bytes
-- asked for, cut at the end of the file.
pub tar_read_lem :
    (node : TarNode) (offset count : ℕ)
    → node.is_dir ≡ false
    → offset < node.size
    → offset + count < 2 ^ 64
    → tar_read node offset count
      ≡ copied (node.data_offset + offset) (min count (node.size - offset))
unfolding tar_read
tar_read_lem node offset count file inside word = ground (arith, file, inside, word)

module _ (nodes : ℕ → TarNode) where
  -- The chain of siblings from `cur` is `cs`.
  abbrev pub Siblings : Option ℕ → List ℕ → Type 0
  Siblings cur [] = cur ≡ none
  Siblings cur (c ∷ cs) = (cur ≡ some c) × Siblings (nodes c).next_sibling cs

  -- The records of some children, one after another.
  abbrev pub stream : List ℕ → List ℕ
  stream [] = []
  stream (c ∷ cs) = record_of c (nodes c).name ++ stream cs

pub length-le_bytes : (n v : ℕ) → length (le_bytes n v) ≡ n
unfolding le_bytes
length-le_bytes zero v = refl
length-le_bytes (suc n) v = ap suc (length-le_bytes n (v / 256))

pub length-record_of : (ino : ℕ) (name : List ℕ) → length (record_of ino name) ≡ 8 + length name + 1
unfolding record_of
length-record_of ino name = omega (
  arith,
  length-append (le_bytes 8 ino ++ name) (0 ∷ []),
  length-append (le_bytes 8 ino) name,
  length-le_bytes 8 ino,
)

-- Records before the offset are passed over.
readdir-skip :
    (nodes : ℕ → TarNode) (xs ys : List ℕ) (fuel offset count : ℕ) (cur : Option ℕ) (pos : ℕ)
    (out : List ℕ)
    → Siblings nodes cur (xs ++ ys)
    → length (xs ++ ys) ≤ fuel
    → pos + length (stream nodes xs) ≡ offset
    → (next : Option ℕ) × (fuel' : ℕ) × Siblings nodes next ys
      × (length ys ≤ fuel')
      × (readdir_from fuel nodes offset count cur pos out
          ≡ readdir_from fuel' nodes offset count next offset out)
unfolding readdir_from
readdir-skip nodes [] ys fuel offset count cur pos out c enough at = (
  cur,
  fuel,
  c,
  enough,
  ap (λ p. readdir_from fuel nodes offset count cur p out) (omega (arith, at)),
)
readdir-skip nodes (x ∷ xs) ys zero offset count cur pos out c enough at = elim enough [ ]
readdir-skip nodes (x ∷ xs) ys (suc fuel) offset count cur pos out c enough at =
    let here = length-record_of x (nodes x).name in
    let parts = length-append (record_of x (nodes x).name) (stream nodes xs) in
    let (next, fuel', c', enough', e) =
      readdir-skip nodes xs ys fuel offset count (nodes x).next_sibling
        (pos + (8 + length (nodes x).name + 1)) out c.1 (omega (arith, enough))
        (omega (arith, here, parts, at)) in
    let early : leb offset pos ≡ false = ground (arith, here, parts, at) in
    (next, fuel', c', enough', rw (c.0, early) e)

-- The next child is missing, or its record does not fit.
abbrev pub Stops : (ℕ → TarNode) → (count used : ℕ) → List ℕ → Type 0
Stops nodes count used [] = Unit {0}
Stops nodes count used (c ∷ cs) = count < used + length (record_of c (nodes c).name)

-- From the offset on, records are written while they fit.
readdir-write :
    (nodes : ℕ → TarNode) (ys : List ℕ) (fuel offset count : ℕ) (cur : Option ℕ) (pos : ℕ)
    (out : List ℕ)
    → Siblings nodes cur ys
    → length ys ≤ fuel
    → offset ≤ pos
    → length out ≤ count
    → (zs rest : List ℕ) × (ys ≡ zs ++ rest)
      × (readdir_from fuel nodes offset count cur pos out ≡ some (out ++ stream nodes zs))
      × (length (out ++ stream nodes zs) ≤ count)
      × Stops nodes count (length (out ++ stream nodes zs)) rest
unfolding readdir_from
readdir-write nodes [] fuel offset count cur pos out c enough late fits =
    ([], [], refl, rw (c, append-nil out) refl, rw (append-nil out) fits, tt)
readdir-write nodes (y ∷ ys) zero offset count cur pos out c enough late fits = elim enough [ ]
readdir-write nodes (y ∷ ys) (suc fuel) offset count cur pos out c enough late fits =
    let here = length-record_of y (nodes y).name in
    let from_here : leb offset pos ≡ true = ground (arith, late) in
    elim (Bool-cases (ltb count (length out + (8 + length (nodes y).name + 1)))) [
      | inl full ↦ (
        [],
        y ∷ ys,
        refl,
        rw (c.0, from_here, full, append-nil out) refl,
        rw (append-nil out) fits,
        rw (append-nil out) (ground (arith, full, here)),
      )
      | inr room ↦
          let longer = length-append out (record_of y (nodes y).name) in
          let (zs, rest, e, run, fits', stops) =
            readdir-write nodes ys fuel offset count (nodes y).next_sibling
              (pos + (8 + length (nodes y).name + 1)) (out ++ record_of y (nodes y).name) c.1
              (omega (arith, enough)) (omega (arith, late)) (ground (arith, longer, here, room)) in
          let joined = append_assoc out (record_of y (nodes y).name) (stream nodes zs) in
          (
            y ∷ zs,
            rest,
            ap (◌∷◌ y) e,
            rw (c.0, from_here, room, ← joined) run,
            rw (← joined) fits',
            rw (← joined) stops,
          )
    ]

-- With fuel for the children of a directory, a read of it at an offset where a record starts gives
-- the records from there on, whole and in order, and stops only at the end or where the next
-- record does not fit.
pub tar_readdir_lem :
    (nodes : ℕ → TarNode) (node : ℕ) (xs ys : List ℕ) (fuel count : ℕ)
    → (nodes node).is_dir ≡ true
    → Siblings nodes (nodes node).first_child (xs ++ ys)
    → length (xs ++ ys) ≤ fuel
    → (zs rest : List ℕ) × (ys ≡ zs ++ rest)
      × (tar_readdir fuel nodes node (length (stream nodes xs)) count
          ≡ some (some (stream nodes zs)))
      × (length (stream nodes zs) ≤ count)
      × Stops nodes count (length (stream nodes zs)) rest
unfolding tar_readdir
tar_readdir_lem nodes node xs ys fuel count dir c enough =
    let (next, fuel', c', enough', e) =
      readdir-skip nodes xs ys fuel (length (stream nodes xs)) count (nodes node).first_child 0 [] c
        enough (omega arith) in
    let (zs, rest, parts, run, fits, stops) =
      readdir-write nodes ys fuel' (length (stream nodes xs)) count next (length (stream nodes xs))
        [] c' enough' (omega arith) (omega arith) in
    (zs, rest, parts, rw (dir, e, run) refl, fits, stops)
