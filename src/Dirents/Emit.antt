-- ===== src/Dirents/Emit.antt =====
-- The records that `sys_getdents64` of src/cpu/syscall.cpp writes.
use mathlib.Core.List.{append_assoc}
use retux.Prelude.{
  ℕ, zero, suc, ◌+◌, ◌^◌, ltb, ◌≤◌, ◌<◌, ◌≡◌, refl, sym, ap, subst, ◌∙◌, not, true, Option, some,
  List, [], ◌∷◌, ◌++◌, length, take, drop, All, arith, Bool-cases, inl, inr, if◌then◌else◌,
}
use retux.Prelude.Int.{ℤ, pos, neg}
use retux.Vfs.{File, ◌>>=◌}
use retux.Vfs.Chunks.{records}
use retux.Vfs.Lookup.{Lists}
use retux.Dirents.{Dirent, reclen, emit, collect, sys_getdents64, max_entries, einval}
use retux.Dirents.Collect.{IsShort, collect_lem}

-- The records of some entries, and the bytes that they take.
abbrev pub dirents : List (ℕ × List ℕ) → List Dirent
dirents [] = []
dirents ((ino, name) ∷ es) =
    record { d_ino = ino; d_reclen = reclen name; d_name = name } ∷ dirents es

abbrev pub bytes_of : List (ℕ × List ℕ) → ℕ
bytes_of [] = 0
bytes_of ((ino, name) ∷ es) = reclen name + bytes_of es

-- Nothing is left, or the next record does not fit.
abbrev pub Full : (count used : ℕ) → List (ℕ × List ℕ) → Type 0
Full count used [] = Unit {0}
Full count used ((ino, name) ∷ es) = count < used + reclen name

emit_lem :
    (es : List (ℕ × List ℕ)) (count written idx : ℕ)
    → written ≤ count
    → (zs rest : List (ℕ × List ℕ)) × (es ≡ zs ++ rest)
      × (emit es count written idx ≡ (dirents zs, written + bytes_of zs, idx + length zs))
      × (written + bytes_of zs ≤ count)
      × Full count (written + bytes_of zs) rest
unfolding emit
emit_lem [] count written idx fits =
    let same : written + 0 ≡ written = omega arith in
    let same' : idx + 0 ≡ idx = omega arith in
    ([], [], refl, rw (same, same') refl, omega (arith, fits), tt)
emit_lem ((ino, name) ∷ es) count written idx fits =
    elim (Bool-cases (ltb count (written + reclen name))) [
      | inl full ↦
          let same : written + 0 ≡ written = omega arith in
          let same' : idx + 0 ≡ idx = omega arith in
          (
            [],
            (ino, name) ∷ es,
            refl,
            rw (full, same, same') refl,
            omega (arith, fits),
            ground (arith, full, same),
          )
      | inr room ↦
          let (zs, rest, split, run, fits', stops) =
            emit_lem es count (written + reclen name) (idx + 1) (ground (arith, room)) in
          let same : written + reclen name + bytes_of zs ≡ written + (reclen name + bytes_of zs) =
            omega arith in
          let same' : idx + 1 + length zs ≡ idx + suc (length zs) = omega arith in
          (
            (ino, name) ∷ zs,
            rest,
            ap (λ l. (ino, name) ∷ l) split,
            rw (room, run, same, same') refl,
            omega (arith, fits'),
            subst (λ u. Full count u rest) same stops,
          )
    ]

-- Under the same conditions a call of sys_getdents64 stops only at the end of the first 32 entries
-- or where the next record does not fit in the count, returns the bytes of the records, and
-- advances the offset by their number.
pub sys_getdents64_lem :
    (fuel : ℕ) (buf : List ℕ) (f : File) (count : ℕ) (readdir : ℕ → ℕ → Option (List ℕ))
    (es : List (ℕ × List ℕ))
    → f.inode.is_dir ≡ true
    → f.inode.readdir ≡ some readdir
    → Lists readdir es
    → All IsShort es
    → length (records es) < 2 ^ 64
    → length es < fuel
    → (zs rest : List (ℕ × List ℕ)) × (drop f.offset (take max_entries es) ≡ zs ++ rest)
      × (sys_getdents64 fuel buf (some f) count
          ≡ some (pos (bytes_of zs), dirents zs, some (record f { offset = f.offset + length zs })))
      × (bytes_of zs ≤ count)
      × Full count (bytes_of zs) rest
unfolding sys_getdents64
sys_getdents64_lem fuel buf f count readdir es dir op lists short word enough =
    let (zs, rest, split, run, fits, stops) =
      emit_lem (drop f.offset (take 32 es)) count 0 f.offset (omega arith) in
    let got = collect_lem readdir es buf fuel lists short word enough in
    let result : List Dirent × ℕ × ℕ → Option (ℤ × List Dirent × Option File) =
      λ r. some (pos r.1, r.0, some (record f { offset = r.2 })) in
    let each : List (ℕ × List ℕ) → Option (ℤ × List Dirent × Option File) =
      λ entries. result (emit (drop f.offset entries) count 0 f.offset) in
    let from_start : 0 + bytes_of zs ≡ bytes_of zs = omega arith in
    (
      zs,
      rest,
      split,
      ap
            (λ b.
              if not b
              then some (neg einval, [], some f)
              else (f.inode.readdir >>= λ rd. collect fuel rd buf 0 [] >>= each))
            dir
          ∙ ap (λ o. o >>= λ rd. collect fuel rd buf 0 [] >>= each) op
          ∙ ap (λ o. o >>= each) got
          ∙ ap result run
          ∙ ap (λ w. some (pos w, dirents zs, some (record f { offset = f.offset + length zs })))
              from_start,
      omega (arith, fits),
      subst (λ u. Full count u rest) from_start stops,
    )

drop-none : (b : ℕ) → drop {A = ℕ × List ℕ} b [] ≡ []
drop-none zero = refl
drop-none (suc b) = refl

drop-add : (a b : ℕ) (xs : List (ℕ × List ℕ)) → drop (a + b) xs ≡ drop b (drop a xs)
drop-add zero b xs = ap (λ n. drop n xs) (omega arith)
drop-add (suc a) b [] =
    let more : suc a + b ≡ suc (a + b) = omega arith in rw more (sym (drop-none b))
drop-add (suc a) b (x ∷ xs) =
    let more : suc a + b ≡ suc (a + b) = omega arith in rw more (drop-add a b xs)

drop-append : (xs ys : List (ℕ × List ℕ)) → drop (length xs) (xs ++ ys) ≡ ys
drop-append [] ys = refl
drop-append (x ∷ xs) ys = drop-append xs ys

-- Over a directory whose driver lists its entries as whole records and whose names have less than
-- 47 bytes, with fuel for the entries, two calls of sys_getdents64 in a row give records of the
-- first entries from the offset on and of those that follow, none lost or doubled, out of the
-- first 32 of the directory, each within its count, and each call stops only where the next record
-- does not fit in the count or no entry is left.
pub sys_getdents64-sys_getdents64 :
    (fuel : ℕ) (buf : List ℕ) (f : File) (count count' : ℕ) (readdir : ℕ → ℕ → Option (List ℕ))
    (es : List (ℕ × List ℕ))
    → f.inode.is_dir ≡ true
    → f.inode.readdir ≡ some readdir
    → Lists readdir es
    → All IsShort es
    → length (records es) < 2 ^ 64
    → length es < fuel
    → (f' f'' : File) × (zs zs' rest : List (ℕ × List ℕ)) × (drop f.offset (take max_entries es)
        ≡ zs ++ zs' ++ rest)
      × (sys_getdents64 fuel buf (some f) count ≡ some (pos (bytes_of zs), dirents zs, some f'))
      × (sys_getdents64 fuel buf (some f') count'
          ≡ some (pos (bytes_of zs'), dirents zs', some f''))
      × (bytes_of zs ≤ count)
      × (bytes_of zs' ≤ count')
      × Full count (bytes_of zs) (zs' ++ rest)
      × Full count' (bytes_of zs') rest
sys_getdents64-sys_getdents64 fuel buf f count count' readdir es dir op lists short word enough =
    let (zs, left, split, run, fits, stops) =
      sys_getdents64_lem fuel buf f count readdir es dir op lists short word enough in
    let f' : File = record f { offset = f.offset + length zs } in
    let (zs', rest, split', run', fits', stops') =
      sys_getdents64_lem fuel buf f' count' readdir es dir op lists short word enough in
    let all = take max_entries es in
    let behind : left ≡ zs' ++ rest =
      sym (drop-append zs left)
      ∙ ap (drop (length zs)) (sym split)
      ∙ sym (drop-add f.offset (length zs) all)
      ∙ split' in
    (
      f',
      record f' { offset = f'.offset + length zs' },
      zs,
      zs',
      rest,
      split ∙ ap (λ l. zs ++ l) behind ∙ sym (append_assoc zs zs' rest),
      run,
      run',
      fits,
      fits',
      subst (Full count (bytes_of zs)) behind stops,
      stops',
    )
