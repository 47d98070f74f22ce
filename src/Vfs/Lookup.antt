-- ===== src/Vfs/Lookup.antt =====
-- One directory in `lookup_path` of src/fs/vfs.cpp, chunk by chunk.
use mathlib.Core.List.{append_assoc}
use retux.Prelude.{
  ℕ, zero, suc, ◌+◌, ◌%◌, ◌^◌, ◌==◌, ◌≤◌, ◌<◌, ◌≡◌, refl, sym, ap, subst, ◌∙◌, false, Option, none,
  some, List, [], ◌∷◌, ◌++◌, length, drop, All, arith, length-append, Bool-cases, Option-cases, inl,
  inr, ==_iff,
}
use retux.Strings.Compare.{NulFree}
use retux.Vfs.{chunk_size, find_entry, filled}
use retux.Vfs.Chunks.{
  records, lookup, IsEntry, scan_chunk_lem, records-append, records-long, lookup-append-none,
  lookup-append-some,
}

-- A driver's `readdir` gives the records of the entries: a read where a record starts gives the
-- records from there on, whole, as many as fit, and at least one while there is one.
abbrev pub Lists : (ℕ → ℕ → Option (List ℕ)) → List (ℕ × List ℕ) → Type 0
Lists readdir es =
    (xs ys : List (ℕ × List ℕ))
    → es ≡ xs ++ ys
    → (zs rest : List (ℕ × List ℕ)) × (ys ≡ zs ++ rest)
      × (readdir (length (records xs)) chunk_size ≡ some (records zs))
      × (length (records zs) ≤ chunk_size)
      × (0 < length ys → 0 < length zs)

pub All-append :
    (xs ys : List (ℕ × List ℕ)) → All IsEntry (xs ++ ys) → All IsEntry xs × All IsEntry ys
All-append [] ys a = (tt, a)
All-append (x ∷ xs) ys (h, a) = let (l, r) = All-append xs ys a in ((h, l), r)

records-none : (es : List (ℕ × List ℕ)) → length es ≡ 0 → records es ≡ []
records-none [] e = refl
records-none (x ∷ es) e = absurd (omega (arith, e))

lookup-none :
    (es : List (ℕ × List ℕ)) (component : List ℕ) → length es ≡ 0 → lookup es component ≡ none
unfolding lookup
lookup-none [] component e = refl
lookup-none (x ∷ es) component e = absurd (omega (arith, e))

-- One chunk.
find_chunk :
    (readdir : ℕ → ℕ → Option (List ℕ)) (zs : List (ℕ × List ℕ)) (component buf : List ℕ)
    (fuel offset : ℕ)
    → readdir offset chunk_size ≡ some (records zs)
    → length (records zs) ≤ chunk_size
    → All IsEntry zs
    → NulFree component
    → 0 < length zs
    → find_entry (suc fuel) readdir buf offset component ≡ (elim (lookup zs component) [
      | some ino ↦ some (some ino)
      | none ↦
          find_entry fuel readdir
            (filled (records zs) buf)
            ((offset + length (records zs)) % 2 ^ 64)
            component
    ])
unfolding find_entry
find_chunk readdir zs component buf fuel offset run fits entries plain some_entry =
    let long = records-long zs in
    let more : (length (records zs) == 0) ≡ false = ground (arith, long, some_entry) in
    rw
      (
        find_entry,
        run,
        more,
        scan_chunk_lem zs component (drop (length (records zs)) buf) 512 512 entries plain
            (omega (arith, long, fits)) fits (omega arith),
      )
      refl

-- From the entries `ys` on.
find_from :
    (readdir : ℕ → ℕ → Option (List ℕ)) (es xs ys : List (ℕ × List ℕ)) (component buf : List ℕ)
    (fuel : ℕ)
    → Lists readdir es
    → es ≡ xs ++ ys
    → All IsEntry ys
    → NulFree component
    → length (records es) < 2 ^ 64
    → length ys < fuel
    → find_entry fuel readdir buf (length (records xs)) component ≡ some (lookup ys component)
unfolding find_entry
find_from readdir es xs ys component buf zero lists at entries plain word enough = elim enough [ ]
find_from readdir es xs ys component buf (suc fuel) lists at entries plain word enough =
    let (zs, rest, split, run, fits, some_entry) = lists xs ys at in
    let (entries_zs, entries_rest) =
      All-append zs rest (subst (λ l. All IsEntry l) split entries) in
    let sizes : length ys ≡ length zs + length rest = ap length split ∙ length-append zs rest in
    elim (Bool-cases (length zs == 0)) [
      | inl nothing ↦
          let empty : length zs ≡ 0 = (==_iff (length zs) 0).0 nothing in
          let none_left : length ys ≡ 0 = ground (arith, some_entry, empty) in
          rw (find_entry, run, records-none zs empty, lookup-none ys component none_left) refl
      | inr something ↦
          let some_zs : 0 < length zs = ground (arith, something) in
          let step =
            find_chunk readdir zs component buf fuel (length (records xs)) run fits entries_zs plain
              some_zs in
          let at' : es ≡ (xs ++ zs) ++ rest =
            at ∙ ap (λ l. xs ++ l) split ∙ sym (append_assoc xs zs rest) in
          let so_far : length (records xs) + length (records zs) ≡ length (records (xs ++ zs)) =
            sym (length-append (records xs) (records zs))
            ∙ sym (ap length (records-append xs zs)) in
          let whole : length (records (xs ++ zs)) ≤ length (records es) =
            let total =
              ap (λ l. length (records l)) at'
              ∙ ap length (records-append (xs ++ zs) rest)
              ∙ length-append (records (xs ++ zs)) (records rest) in
            omega (arith, total) in
          let no_wrap : (length (records xs) + length (records zs)) % 2 ^ 64
              ≡ length (records (xs ++ zs)) =
            omega (arith, so_far, whole, word) in
          (elim (Option-cases (lookup zs component)) [
            | inl missing ↦
                let later =
                  find_from readdir es (xs ++ zs) rest component (filled (records zs) buf) fuel
                    lists at' entries_rest plain word (omega arith) in
                step
                ∙ rw (missing, no_wrap, split, lookup-append-none zs rest component missing) later
            | inr (ino, found) ↦
                step ∙ rw (found, split, lookup-append-some zs rest component ino found) refl
          ])
    ]

pub find_entry_lem :
    (readdir : ℕ → ℕ → Option (List ℕ)) (es : List (ℕ × List ℕ)) (component buf : List ℕ) (fuel : ℕ)
    → Lists readdir es
    → All IsEntry es
    → NulFree component
    → length (records es) < 2 ^ 64
    → length es < fuel
    → find_entry fuel readdir buf 0 component ≡ some (lookup es component)
find_entry_lem readdir es component buf fuel lists entries plain word enough =
    find_from readdir es [] es component buf fuel lists refl entries plain word enough

-- A read that is answered by -1.
pub find_entry-refused :
    (readdir : ℕ → ℕ → Option (List ℕ)) (component buf : List ℕ) (fuel : ℕ)
    → readdir 0 chunk_size ≡ none
    → 0 < fuel
    → find_entry fuel readdir buf 0 component ≡ some none
unfolding find_entry
find_entry-refused readdir component buf zero refused enough = elim enough [ ]
find_entry-refused readdir component buf (suc fuel) refused enough = rw (find_entry, refused) refl
