-- ===== src/Vfs/Archive.antt =====
-- A directory of src/fs/tarfs.cpp under the look-up of src/fs/vfs.cpp.
use mathlib.Core.List.{nil≢cons, head-eq_of_cons-eq, tail-eq_of_cons-eq}
use mathlib.Core.Option.{some_inj}
use retux.Prelude.{
  ℕ, suc, ◌+◌, ◌^◌, ◌≤◌, ◌<◌, ◌≡◌, refl, sym, ap, subst, ◌∙◌, true, Option, some, List, [], ◌∷◌,
  ◌++◌, length, All, arith,
}
use retux.Strings.Compare.{NulFree}
use retux.Tarfs.{TarNode, tar_readdir, record_of}
use retux.Tarfs.Files.{Siblings, stream, Stops, tar_readdir_lem, length-record_of}
use retux.Vfs.{find_entry, chunk_size}
use retux.Vfs.Chunks.{records, lookup, IsEntry}
use retux.Vfs.Lookup.{Lists, find_entry_lem}

-- The entries of some nodes.
abbrev pub entries : (ℕ → TarNode) → List ℕ → List (ℕ × List ℕ)
entries nodes [] = []
entries nodes (c ∷ cs) = (c, (nodes c).name) ∷ entries nodes cs

-- A node that `lookup_path` can find: a record of it fits in a chunk.
abbrev pub IsNode : (ℕ → TarNode) → ℕ → Type 0
IsNode nodes c = (c < 2 ^ 64) × NulFree (nodes c).name × (length (nodes c).name + 9 ≤ chunk_size)

records-entries : (nodes : ℕ → TarNode) (cs : List ℕ) → records (entries nodes cs) ≡ stream nodes cs
records-entries nodes [] = refl
records-entries nodes (c ∷ cs) =
    ap (λ r. record_of c (nodes c).name ++ r) (records-entries nodes cs)

length-entries : (nodes : ℕ → TarNode) (cs : List ℕ) → length (entries nodes cs) ≡ length cs
length-entries nodes [] = refl
length-entries nodes (c ∷ cs) = ap suc (length-entries nodes cs)

entries-append :
    (nodes : ℕ → TarNode) (pre post : List ℕ)
    → entries nodes (pre ++ post) ≡ entries nodes pre ++ entries nodes post
entries-append nodes [] post = refl
entries-append nodes (a ∷ pre) post =
    ap (λ l. (a, (nodes a).name) ∷ l) (entries-append nodes pre post)

entries-split :
    (nodes : ℕ → TarNode) (cs : List ℕ) (xs ys : List (ℕ × List ℕ))
    → entries nodes cs ≡ xs ++ ys
    → (pre post : List ℕ) × (cs ≡ pre ++ post)
      × (entries nodes pre ≡ xs)
      × (entries nodes post ≡ ys)
entries-split nodes cs [] ys e = ([], cs, refl, refl, e)
entries-split nodes [] (x ∷ xs) ys e = absurd (nil≢cons e)
entries-split nodes (c ∷ cs) (x ∷ xs) ys e =
    let (pre, post, split, left, right) = entries-split nodes cs xs ys (tail-eq_of_cons-eq e) in
    (c ∷ pre, post, ap (λ l. c ∷ l) split, rw (head-eq_of_cons-eq e, left) refl, right)

entries-IsEntry :
    (nodes : ℕ → TarNode) (cs : List ℕ) → All (IsNode nodes) cs → All IsEntry (entries nodes cs)
entries-IsEntry nodes [] a = tt
entries-IsEntry nodes (c ∷ cs) ((small, plain, _), a) = ((small, plain), entries-IsEntry nodes cs a)

All-right : (P : ℕ → Type 0) (pre post : List ℕ) → All P (pre ++ post) → All P post
All-right P [] post a = a
All-right P (x ∷ pre) post a = All-right P pre post a.1

-- What is left has nothing that does not fit in an empty buffer.
Stops-first :
    (nodes : ℕ → TarNode) (post zs rest : List ℕ)
    → post ≡ zs ++ rest
    → All (IsNode nodes) post
    → Stops nodes chunk_size (length (stream nodes zs)) rest
    → 0 < length post
    → 0 < length zs
Stops-first nodes post (z ∷ zs) rest split a stops more = omega arith
Stops-first nodes post [] [] split a stops more = omega (arith, ap length split, more)
Stops-first nodes post [] (c ∷ cs) split a stops more =
    let a' : All (IsNode nodes) (c ∷ cs) = subst (λ l. All (IsNode nodes) l) split a in
    absurd (omega (arith, stops, length-record_of c (nodes c).name, a'.0.2))

module _ (nodes : ℕ → TarNode) (node : ℕ) (cs : List ℕ) (fuel : ℕ)
    (readdir : ℕ → ℕ → Option (List ℕ))
    (reads : (offset count : ℕ)
      → tar_readdir fuel nodes node offset count ≡ some (readdir offset count))
    (dir : (nodes node).is_dir ≡ true) (children : Siblings nodes (nodes node).first_child cs)
    (enough : length cs ≤ fuel) (plain : All (IsNode nodes) cs) where
  readdir-Lists : Lists readdir (entries nodes cs)
  readdir-Lists xs ys e =
      let (pre, post, split, left, right) = entries-split nodes cs xs ys e in
      let plain_post =
        All-right (IsNode nodes) pre post (subst (λ l. All (IsNode nodes) l) split plain) in
      let (zs, rest, parts, run, fits, stops) =
        tar_readdir_lem nodes node pre post fuel chunk_size dir
          (subst (λ l. Siblings nodes (nodes node).first_child l) split children)
          (subst (λ l. length l ≤ fuel) split enough) in
      let at : length (records xs) ≡ length (stream nodes pre) =
        ap (λ l. length (records l)) (sym left) ∙ ap length (records-entries nodes pre) in
      (
        entries nodes zs,
        entries nodes rest,
        sym right ∙ ap (entries nodes) parts ∙ entries-append nodes zs rest,
        ap (λ o. readdir o chunk_size) at
            ∙ some_inj.0 (sym (reads (length (stream nodes pre)) chunk_size) ∙ run)
            ∙ ap some (sym (records-entries nodes zs)),
        rw (records-entries nodes zs) fits,
        λ more. omega (
          arith,
          length-entries nodes zs,
          Stops-first nodes post zs rest parts plain_post stops
              (omega (arith, more, ap length right, length-entries nodes post)),
        ),
      )

  -- With fuel for the children of an archive directory, whose names have at most 503 bytes and no
  -- NUL and whose records together are below 2^64 bytes, the search that reads it in chunks of 512
  -- bytes through tar_readdir finds the first child of the given name, or nothing if there is none.
  pub find_entry-tar_readdir :
      (component buf : List ℕ) (dir_fuel : ℕ)
      → NulFree component
      → length (stream nodes cs) < 2 ^ 64
      → length cs < dir_fuel
      → find_entry dir_fuel readdir buf 0 component ≡ some (lookup (entries nodes cs) component)
  find_entry-tar_readdir component buf dir_fuel named word more =
      find_entry_lem readdir (entries nodes cs) component buf dir_fuel readdir-Lists
        (entries-IsEntry nodes cs plain) named
        (omega (arith, word, ap length (records-entries nodes cs)))
        (omega (arith, more, length-entries nodes cs))
