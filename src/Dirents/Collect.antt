-- ===== src/Dirents/Collect.antt =====
-- The entries that `sys_getdents64` of src/cpu/syscall.cpp collects from a driver.
use mathlib.Core.List.{append_assoc, append-nil}
use retux.Prelude.{
  ℕ, zero, suc, ◌+◌, ◌-◌, ◌%◌, ◌^◌, ◌==◌, leb, ◌<◌, ◌≡◌, refl, sym, ap, subst, ◌∙◌, false, Option,
  some, List, [], ◌∷◌, ◌++◌, length, take, drop, All, arith, length-append, length-take, Bool-cases,
  inl, inr, ==_iff,
}
use retux.Strings.{strlen}
use retux.Strings.Compare.{NulFree}
use retux.Tarfs.{le_bytes, record_of}
use retux.Tarfs.Files.{length-record_of}
use retux.Vfs.{filled}
use retux.Vfs.Chunks.{
  records, IsEntry, le_value-le_bytes, drop-le_bytes, drop_past, record_of-append, records-append,
  records-long,
}
use retux.Vfs.Lookup.{Lists}
use retux.Dirents.{collect_chunk, collect, name_room}

-- An entry whose name fits in the array.
abbrev pub IsShort : ℕ × List ℕ → Type 0
IsShort e = IsEntry e × (length e.1 < name_room)

strlen-nul : (name rest : List ℕ) → NulFree name → strlen (name ++ 0 ∷ rest) ≡ length name
unfolding strlen
strlen-nul [] rest f = refl
strlen-nul (c ∷ name) rest f = ground (arith, f.0, strlen-nul name rest f.1)

take-append : (xs ys : List ℕ) → take (length xs) (xs ++ ys) ≡ xs
take-append [] ys = refl
take-append (x ∷ xs) ys = ap (λ l. x ∷ l) (take-append xs ys)

take-none : (n : ℕ) → take {A = ℕ × List ℕ} n [] ≡ []
take-none zero = refl
take-none (suc n) = refl

take-split :
    (n : ℕ) (xs ys : List (ℕ × List ℕ)) → take n (xs ++ ys) ≡ take n xs ++ take (n - length xs) ys
take-split n [] ys =
    ap (λ m. take m ys) (omega arith) ∙ ap (λ l. l ++ take (n - 0) ys) (sym (take-none n))
take-split zero (x ∷ xs) ys =
    let none_left : 0 - suc (length xs) ≡ 0 = omega arith in rw none_left refl
take-split (suc n) (x ∷ xs) ys =
    let less : suc n - suc (length xs) ≡ n - length xs = omega arith in
    rw less (ap (λ l. x ∷ l) (take-split n xs ys))

collect_chunk_lem :
    (es : List (ℕ × List ℕ)) (rest : List ℕ) (fuel room : ℕ) (entries : List (ℕ × List ℕ))
    → All IsShort es
    → length es < fuel
    → collect_chunk fuel (records es ++ rest) (length (records es)) room entries
      ≡ some (entries ++ take room es)
unfolding collect_chunk
collect_chunk_lem es rest zero room entries short enough = elim enough [ ]
collect_chunk_lem [] rest (suc fuel) room entries short enough =
    ap some (sym (append-nil entries) ∙ ap (λ l. entries ++ l) (sym (take-none room)))
collect_chunk_lem ((ino, name) ∷ es) rest (suc fuel) zero entries short enough =
    let here = length-record_of ino name in
    let parts = length-append (record_of ino name) (records es) in
    let more : (length (record_of ino name ++ records es) == 0) ≡ false =
      ground (arith, here, parts) in
    rw more (ap some (sym (append-nil entries)))
collect_chunk_lem ((ino, name) ∷ es) rest (suc fuel) (suc room) entries
      (((small, free), fits), short) enough =
    let behind = records es ++ rest in
    let here = length-record_of ino name in
    let parts = length-append (record_of ino name) (records es) in
    let shape : (record_of ino name ++ records es) ++ rest
        ≡ le_bytes 8 ino ++ (name ++ 0 ∷ behind) =
      append_assoc (record_of ino name) (records es) rest ∙ record_of-append ino name behind in
    let at_name = drop-le_bytes ino (name ++ 0 ∷ behind) in
    let number = le_value-le_bytes 8 ino (name ++ 0 ∷ behind) small in
    let len = strlen-nul name behind free in
    let later = drop_past name behind in
    let more : (length (record_of ino name ++ records es) == 0) ≡ false =
      ground (arith, here, parts) in
    let in_room : leb 47 (length name) ≡ false = ground (arith, fits) in
    let left : length (record_of ino name ++ records es) - (8 + length name + 1)
        ≡ length (records es) =
      omega (arith, here, parts) in
    let room' : suc room - 1 ≡ room = omega arith in
    let some_room : (suc room == 0) ≡ false = ground arith in
    rw
      (
        shape,
        at_name,
        len,
        later,
        more,
        some_room,
        in_room,
        left,
        number,
        take-append name (0 ∷ behind),
        room',
      )
      (collect_chunk_lem es rest fuel room (entries ++ (ino, name) ∷ []) short (omega arith)
        ∙ ap some (append_assoc entries ((ino, name) ∷ []) (take room es)))

records-short : (es : List (ℕ × List ℕ)) → length es ≡ 0 → (es ≡ []) × (records es ≡ [])
records-short [] e = (refl, refl)
records-short (x ∷ es) e = absurd (omega (arith, e))

All-right : (xs ys : List (ℕ × List ℕ)) → All IsShort (xs ++ ys) → All IsShort xs × All IsShort ys
All-right [] ys a = (tt, a)
All-right (x ∷ xs) ys (h, a) = let (l, r) = All-right xs ys a in ((h, l), r)

-- From the entries `ys` on.
collect_from :
    (readdir : ℕ → ℕ → Option (List ℕ)) (es xs ys : List (ℕ × List ℕ)) (buf : List ℕ) (fuel : ℕ)
    (entries : List (ℕ × List ℕ))
    → Lists readdir es
    → es ≡ xs ++ ys
    → All IsShort ys
    → length (records es) < 2 ^ 64
    → length ys < fuel
    → collect fuel readdir buf (length (records xs)) entries
      ≡ some (entries ++ take (32 - length entries) ys)
unfolding collect
collect_from readdir es xs ys buf zero entries lists at short word enough = elim enough [ ]
collect_from readdir es xs ys buf (suc fuel) entries lists at short word enough =
    elim (Bool-cases (leb 32 (length entries))) [
      | inl full ↦
          let no_room : 32 - length entries ≡ 0 = ground (arith, full) in
          rw (full, no_room) (ap some (sym (append-nil entries)))
      | inr free ↦
          let (zs, rest, split, run, fits, some_entry) = lists xs ys at in
          let (short_zs, short_rest) = All-right zs rest (subst (λ l. All IsShort l) split short) in
          let sizes : length ys ≡ length zs + length rest =
            ap length split ∙ length-append zs rest in
          (elim (Bool-cases (length zs == 0)) [
            | inl nothing ↦
                let empty : length zs ≡ 0 = (==_iff (length zs) 0).0 nothing in
                let none_left : length ys ≡ 0 = ground (arith, some_entry, empty) in
                rw
                  (
                    collect,
                    free,
                    run,
                    (records-short zs empty).1,
                    (records-short ys none_left).0,
                    take-none (32 - length entries),
                  )
                  (ap some (sym (append-nil entries)))
            | inr something ↦
                let long = records-long zs in
                let more : (length (records zs) == 0) ≡ false = ground (arith, long, something) in
                let chunk =
                  collect_chunk_lem zs (drop (length (records zs)) buf) 512 (32 - length entries)
                    entries short_zs (omega (arith, long, fits)) in
                let at' : es ≡ (xs ++ zs) ++ rest =
                  at ∙ ap (λ l. xs ++ l) split ∙ sym (append_assoc xs zs rest) in
                let so_far : length (records xs) + length (records zs)
                    ≡ length (records (xs ++ zs)) =
                  sym (length-append (records xs) (records zs))
                  ∙ sym (ap length (records-append xs zs)) in
                let total =
                  ap (λ l. length (records l)) at'
                  ∙ ap length (records-append (xs ++ zs) rest)
                  ∙ length-append (records (xs ++ zs)) (records rest) in
                let no_wrap : (length (records xs) + length (records zs)) % 2 ^ 64
                    ≡ length (records (xs ++ zs)) =
                  omega (arith, so_far, total, word) in
                let some_zs : 0 < length zs = ground (arith, something) in
                let n = 32 - length entries in
                let left_room : 32 - length (entries ++ take n zs) ≡ n - length zs =
                  omega (arith, length-append entries (take n zs), length-take n zs) in
                let later =
                  collect_from readdir es (xs ++ zs) rest (filled (records zs) buf) fuel
                    (entries ++ take (32 - length entries) zs) lists at' short_rest word
                    (omega arith) in
                rw (collect, free, run, more, chunk, no_wrap, later)
                  (ap some (
                    append_assoc entries (take n zs)
                      (take (32 - length (entries ++ take n zs)) rest)
                    ∙ ap (λ l. entries ++ l)
                        (ap (λ m. take n zs ++ take m rest) left_room
                          ∙ sym (take-split n zs rest)
                          ∙ ap (λ l. take n l) (sym split))))
          ])
    ]

pub collect_lem :
    (readdir : ℕ → ℕ → Option (List ℕ)) (es : List (ℕ × List ℕ)) (buf : List ℕ) (fuel : ℕ)
    → Lists readdir es
    → All IsShort es
    → length (records es) < 2 ^ 64
    → length es < fuel
    → collect fuel readdir buf 0 [] ≡ some (take 32 es)
collect_lem readdir es buf fuel lists short word enough =
    collect_from readdir es [] es buf fuel [] lists refl short word enough
