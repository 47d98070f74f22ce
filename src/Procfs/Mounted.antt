-- ===== src/Procfs/Mounted.antt =====
-- The files of src/fs/procfs.cpp opened by their paths through src/fs/vfs.cpp.
use mathlib.Core.List.{nil≢cons, head-eq_of_cons-eq, tail-eq_of_cons-eq}
use mathlib.Core.Option.{some_inj, none-ne-some}
use retux.Prelude.{
  ℕ, ◌^◌, ◌==◌, ltb, ◌≤◌, ◌<◌, ◌≡◌, ◌⊎◌, refl, sym, ap, subst, ◌∙◌, true, false, Option, none, some,
  List, [], ◌∷◌, ◌++◌, length, All, arith, Bool-cases, inl, inr, if◌then◌else◌, ==_iff,
}
use retux.Pmm.{Pmm}
use retux.Strings.Compare.{NulFree}
use retux.Tarfs.{record_of, le_bytes}
use retux.Vfs.{
  Vfs, Inode, File, open_file, resolve_mount, mount_at, under, inode_of, chunk_size, lookup_path,
  ◌>>=◌,
}
use retux.Vfs.Chunks.{records, lookup, same, same_iff}
use retux.Vfs.Lookup.{Lists}
use retux.Vfs.Mounts.{mount_at-resolve}
use retux.Vfs.Tree.{IsComponent, slashed, resolve, Describes, lookup_path-resolve}
use retux.Procfs.{
  read_bytes, Clocks, proc_readdir, readdir_loop, names, bytes, render, make_inode, proc_get_inode,
  mount, uptime_ms, format_uptime, format_meminfo, format_cpuinfo,
}
use retux.Procfs.Entries.{file_inode, make_inode-file}

split-cons :
    (x : ℕ × List ℕ) (l xs ys : List (ℕ × List ℕ))
    → x ∷ l ≡ xs ++ ys
    → ((xs ≡ []) × (ys ≡ x ∷ l)) ⊎ ((xs' : List (ℕ × List ℕ)) × (xs ≡ x ∷ xs') × (l ≡ xs' ++ ys))
split-cons x l [] ys e = inl (refl, sym e)
split-cons x l (x' ∷ xs) ys e =
    inr (xs, ap (λ h. h ∷ xs) (sym (head-eq_of_cons-eq e)), tail-eq_of_cons-eq e)

split-nil : (xs ys : List (ℕ × List ℕ)) → [] ≡ xs ++ ys → (xs ≡ []) × (ys ≡ [])
split-nil [] ys e = (refl, sym e)
split-nil (x ∷ xs) ys e = absurd (nil≢cons e)

-- One read gives all that is left.
abbrev Rest : List (ℕ × List ℕ) → List (ℕ × List ℕ) → Type 0
Rest xs ys =
    (zs rest : List (ℕ × List ℕ)) × (ys ≡ zs ++ rest)
    × (proc_readdir 0 (length (records xs)) chunk_size ≡ some (records zs))
    × (length (records zs) ≤ chunk_size)
    × (0 < length ys → 0 < length zs)

Rest-at :
    (xs ys as_xs as_ys : List (ℕ × List ℕ))
    → xs ≡ as_xs
    → ys ≡ as_ys
    → Rest as_xs as_ys
    → Rest xs ys
Rest-at xs ys as_xs as_ys e e' r =
    subst (λ l. Rest l ys) (sym e) (subst (λ l. Rest as_xs l) (sym e') r)

pub names-Lists : Lists (proc_readdir 0) names
unfolding proc_readdir readdir_loop bytes record_of le_bytes
names-Lists xs ys e =
    elim (split-cons (1, bytes "uptime") ((2, bytes "meminfo") ∷ (3, bytes "cpuinfo") ∷ []) xs ys
      e) [
        | inl (ex, ey) ↦
            Rest-at xs ys [] names ex ey (names, [], refl, refl, omega arith, λ m. omega arith)
        | inr (xs1, ex1, e1) ↦
            (elim (split-cons (2, bytes "meminfo") ((3, bytes "cpuinfo") ∷ []) xs1 ys e1) [
              | inl (ex, ey) ↦
                  Rest-at xs ys ((1, bytes "uptime") ∷ [])
                    ((2, bytes "meminfo") ∷ (3, bytes "cpuinfo") ∷ [])
                    (ex1 ∙ ap (λ l. (1, bytes "uptime") ∷ l) ex) ey
                    (
                      (2, bytes "meminfo") ∷ (3, bytes "cpuinfo") ∷ [],
                      [],
                      refl,
                      refl,
                      omega arith,
                      λ m. omega arith,
                    )
              | inr (xs2, ex2, e2) ↦ (elim (split-cons (3, bytes "cpuinfo") [] xs2 ys e2) [
                | inl (ex, ey) ↦
                    Rest-at xs ys ((1, bytes "uptime") ∷ (2, bytes "meminfo") ∷ [])
                      ((3, bytes "cpuinfo") ∷ [])
                      (ex1
                        ∙ ap (λ l. (1, bytes "uptime") ∷ l)
                            (ex2 ∙ ap (λ l. (2, bytes "meminfo") ∷ l) ex))
                      ey ((3, bytes "cpuinfo") ∷ [], [], refl, refl, omega arith, λ m. omega arith)
                | inr (xs3, ex3, e3) ↦
                    let (ex, ey) = split-nil xs3 ys e3 in
                    Rest-at xs ys names []
                      (ex1
                        ∙ ap (λ l. (1, bytes "uptime") ∷ l)
                            (ex2
                              ∙ ap (λ l. (2, bytes "meminfo") ∷ l)
                                  (ex3 ∙ ap (λ l. (3, bytes "cpuinfo") ∷ l) ex)))
                      ey ([], [], refl, refl, omega arith, λ m. m)
              ])
            ])
      ]

-- The root, and the inodes of the three files.
abbrev IsProcInode : Clocks → Pmm → ℕ → Inode → Type 0
IsProcInode c p sb i =
    ((make_inode c p sb 0 ≡ some i))
    ⊎ ((ino : ℕ) × (0 < ino) × (ino ≤ 3) × (make_inode c p sb ino ≡ some i))

abbrev proc_entries : Inode → Option (List (ℕ × List ℕ))
proc_entries i = if i.ino == 0 then some names else none

proc_readdir-refused : (ino : ℕ) → 0 < ino → proc_readdir ino 0 chunk_size ≡ none
unfolding proc_readdir
proc_readdir-refused ino real = ground (arith, real)

described :
    (c : Clocks) (p : Pmm) (sb dir_fuel : ℕ) (i : Inode)
    → uptime_ms c < 2 ^ 64
    → 3 < dir_fuel
    → IsProcInode c p sb i
    → Describes dir_fuel i.readdir (proc_entries i)
unfolding make_inode bytes record_of le_bytes
described c p sb dir_fuel i word enough (inl made) =
    subst (λ i. Describes dir_fuel i.readdir (proc_entries i)) (some_inj.0 made)
      (names-Lists, omega arith, omega arith, omega (arith, enough))
described c p sb dir_fuel i word enough (inr (ino, real, known, made)) =
    let (t, _, _, made') = make_inode-file c p sb ino word real known in
    let not_root : (ino == 0) ≡ false = ground (arith, real) in
    subst (λ i. Describes dir_fuel i.readdir (proc_entries i)) (some_inj.0 (sym made' ∙ made))
      (rw not_root (proc_readdir-refused ino real, omega (arith, enough)))

sb-proc :
    (c : Clocks) (p : Pmm) (sb : ℕ) (i : Inode)
    → uptime_ms c < 2 ^ 64
    → IsProcInode c p sb i
    → i.sb ≡ sb
unfolding make_inode
sb-proc c p sb i word (inl made) = sym (ap (λ i. i.sb) (some_inj.0 made))
sb-proc c p sb i word (inr (ino, real, known, made)) =
    let (t, _, _, made') = make_inode-file c p sb ino word real known in
    sym (ap (λ i. i.sb) (some_inj.0 (sym made' ∙ made)))

closed :
    (c : Clocks) (p : Pmm) (sb : ℕ) (v : Vfs) (i next : Inode) (ino : ℕ)
    → uptime_ms c < 2 ^ 64
    → v.superblocks sb ≡ some (mount c p sb)
    → IsProcInode c p sb i
    → inode_of v i ino ≡ some next
    → IsProcInode c p sb next
unfolding inode_of mount proc_get_inode
closed c p sb v i next ino word mounted valid run =
    let made : proc_get_inode c p sb ino >>= (λ inode. inode) ≡ some next =
      ap (λ o. o >>= λ s. s.get_inode >>= λ get. get ino)
        (sym (ap v.superblocks (sb-proc c p sb i word valid) ∙ mounted))
      ∙ run in
    elim (Bool-cases (ltb 3 ino)) [
      | inl unknown ↦ absurd (ground (arith, made, unknown))
      | inr known ↦
          let made' : make_inode c p sb ino ≡ some next = ground (arith, made, known) in
          (elim (Bool-cases (ino == 0)) [
            | inl is_root ↦
                inl (subst (λ n. make_inode c p sb n ≡ some next) ((==_iff ino 0).0 is_root) made')
            | inr other ↦ inr (ino, ground (arith, other), ground (arith, known), made')
          ])
    ]

-- "/proc"
unfoldable pub proc : List ℕ
proc = bytes "/proc"

known-name : (name : List ℕ) (ino : ℕ) → lookup names name ≡ some ino → (0 < ino) × (ino ≤ 3)
unfolding lookup
known-name name ino found = ground (arith, found)

proc-NulFree : NulFree proc
unfolding proc bytes
proc-NulFree = omega arith

mount_at-superblocks :
    (v : Vfs) (prefix : List ℕ) (sb : ℕ) → (mount_at v prefix sb).superblocks ≡ v.superblocks
unfolding mount_at
mount_at-superblocks v prefix sb = elim (Bool-cases (ltb (length v.mounts) 4)) [
  | inl room ↦ rw room refl
  | inr full ↦ rw full refl
]

abbrev pub root_inode : ℕ → Inode
root_inode sb = record {
  ino = 0;
  size = 0;
  is_dir = true;
  sb = sb;
  read = some (read_bytes none);
  readdir = some (proc_readdir 0);
}

resolve-name :
    (c : Clocks) (p : Pmm) (sb : ℕ) (v : Vfs) (name : List ℕ) (ino : ℕ) (t : List ℕ)
    → v.superblocks sb ≡ some (mount c p sb)
    → lookup names name ≡ some ino
    → 0 < ino
    → ino ≤ 3
    → make_inode c p sb ino ≡ some (file_inode sb ino t)
    → resolve v proc_entries (root_inode sb) (name ∷ []) ≡ some (file_inode sb ino t)
unfolding resolve inode_of mount proc_get_inode
resolve-name c p sb v name ino t mounted found real known made =
    let inside : ltb 3 ino ≡ false = ground (arith, known) in rw (found, mounted, inside, made) refl

-- The text of a file by its name.
abbrev pub IsText : Clocks → Pmm → (name t : List ℕ) → Type 0
IsText c p name t =
    ((name ≡ bytes "uptime") × (format_uptime c ≡ some t))
    ⊎ (((name ≡ bytes "meminfo") × (format_meminfo p ≡ some t))
        ⊎ ((name ≡ bytes "cpuinfo") × (t ≡ format_cpuinfo)))

-- The content is the text that is made.
content-some :
    (o : Option (List ℕ)) (t : List ℕ)
    → (o >>= λ text. some (some text)) ≡ some (some t)
    → o ≡ some t
content-some none t e = absurd (none-ne-some (some t) e)
content-some (some text) t e = some_inj.0 e

render-IsText :
    (c : Clocks) (p : Pmm) (name : List ℕ) (ino : ℕ) (t : List ℕ)
    → lookup names name ≡ some ino
    → render c p ino ≡ some (some t)
    → IsText c p name t
unfolding lookup render
render-IsText c p name ino t found run =
    let made : (n : ℕ) → lookup names name ≡ some n → render c p n ≡ some (some t) =
      λ n e. subst (λ m. render c p m ≡ some (some t)) (some_inj.0 (sym found ∙ e)) run in
    elim (Bool-cases (same (bytes "uptime") name)) [
      | inl first ↦ inl (
        sym ((same_iff (bytes "uptime") name).0 first),
        content-some (format_uptime c) t (made 1 (rw first refl)),
      )
      | inr no1 ↦ (elim (Bool-cases (same (bytes "meminfo") name)) [
        | inl second ↦ inr (
            inl (
              sym ((same_iff (bytes "meminfo") name).0 second),
              content-some (format_meminfo p) t (made 2 (rw (no1, second) refl)),
            ))
        | inr no2 ↦ (elim (Bool-cases (same (bytes "cpuinfo") name)) [
          | inl third ↦ inr (
              inr (
                sym ((same_iff (bytes "cpuinfo") name).0 third),
                sym (some_inj.0 (some_inj.0 (made 3 (rw (no1, no2, third) refl)))),
              ))
          | inr no3 ↦
              let nowhere : lookup names name ≡ none = rw (no1, no2, no3) refl in
              absurd (none-ne-some ino (sym nowhere ∙ found))
        ])
      ])
    ]

-- Once the superblock of procfs is mounted at /proc among fewer than 4 mounts of which no earlier
-- one claims the path, open of /proc/ and one of the three names gives the file at offset 0 whose
-- content is the text of that name and whose size is its length, with fuel for one name and the
-- entries; the uptime is below 2^64 ms.
pub open_file-procfs :
    (c : Clocks) (p : Pmm) (sb : ℕ) (v : Vfs) (name buf : List ℕ) (ino fuel dir_fuel : ℕ)
    → uptime_ms c < 2 ^ 64
    → v.superblocks sb ≡ some (mount c p sb)
    → length v.mounts < 4
    → All (λ m. under m.0 (proc ++ slashed (name ∷ [])) ≡ false) v.mounts
    → IsComponent name
    → lookup names name ≡ some ino
    → 1 < fuel
    → 3 < dir_fuel
    → (t : List ℕ) × IsText c p name t
      × (open_file fuel dir_fuel (mount_at v proc sb) buf (proc ++ slashed (name ∷ []))
          ≡ some (some (record { inode = file_inode sb ino t; offset = 0 })))
unfolding open_file mount make_inode
open_file-procfs c p sb v name buf ino fuel dir_fuel word mounted room others named found enough
      enough' =
    let (real, known) = known-name name ino found in
    let (t, run, short, made) = make_inode-file c p sb ino word real known in
    let v' = mount_at v proc sb in
    let mounted' : v'.superblocks sb ≡ some (mount c p sb) =
      ap (λ f. f sb) (mount_at-superblocks v proc sb) ∙ mounted in
    let resolved : resolve_mount v' (proc ++ slashed (name ∷ [])) ≡ (sb, slashed (name ∷ [])) =
      mount_at-resolve v proc (slashed (name ∷ [])) sb room proc-NulFree (inl refl) others in
    let look =
      lookup_path-resolve v' proc_entries dir_fuel buf (IsProcInode c p sb)
        (λ i valid. described c p sb dir_fuel i word enough' valid)
        (λ i next n valid step. closed c p sb v' i next n word mounted' valid step) fuel
        (root_inode sb) (name ∷ []) (named, tt) (omega (arith, enough)) (inl refl) in
    let there = resolve-name c p sb v' name ino t mounted' found real known made in
    let opened : Option (Option Inode) → Option (Option File) = λ o. o >>= λ target. (elim target [
      | none ↦ some none
      | some inode ↦ some (some (record { inode = inode; offset = 0 }))
    ]) in
    let walked =
      ap (λ r. lookup_path fuel dir_fuel v' buf (root_inode sb) r.1) resolved
      ∙ look
      ∙ ap some there in
    (
      t,
      render-IsText c p name ino t found run,
      rw (open_file, resolved, mounted') (ap opened walked),
    )
