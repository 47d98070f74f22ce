-- ===== src/Vfs/Examples.antt =====
-- Paths in a small file system, under the model of src/fs/vfs.cpp.
use mathlib.Core.List.{nil≢cons, head-eq_of_cons-eq, tail-eq_of_cons-eq}
use retux.Prelude.{
  ℕ, ◌-◌, ◌==◌, ltb, leb, ◌≡◌, ◌↔◌, ◌⊎◌, refl, sym, ap, subst, ◌∙◌, true, false, Option, none, some,
  List, [], ◌∷◌, ◌++◌, take, drop, min, arith, Bool-cases, inl, inr, if◌then◌else◌,
}
use mathlib.Core.Option.{some_inj, none-ne-some}
use retux.Strings.{char, strcmp}
use retux.Strings.Compare.{NulFree}
use retux.Tarfs.{readdir_from, le_bytes, TarNode, tar_readdir, record_of}
use retux.Vfs.{
  Vfs, Inode, SuperBlock, lookup_path, resolve_mount, mount_at, under, open_file, read_whole_file,
  inode_of, find_entry, walk_path, scan_chunk, resolve_in, skip_slash, next_component, skip_slashes,
  le_value,
}
use retux.Vfs.Chunks.{lookup, records}
use retux.Vfs.Lookup.{Lists}
use retux.Vfs.Tree.{slashed, resolve, Describes, lookup_path-resolve}
use retux.Vfs.Mounts.{under_iff, mount_at-resolve}
use retux.Vfs.Whole.{Reads, read_whole_file_lem}
use retux.Vfs.Archive.{entries, find_entry-tar_readdir}

-- "a", "/a", "/proc", "/proclaim"
abbrev name_a : List ℕ
name_a = b'a' ∷ []

abbrev proc : List ℕ
proc = b'/' ∷ b'p' ∷ b'r' ∷ b'o' ∷ b'c' ∷ []

abbrev uptime : List ℕ
uptime = b'/' ∷ b'u' ∷ []

-- A directory with one file "a", of the bytes 7 and 8.
abbrev dir_entries : List (ℕ × List ℕ)
dir_entries = (1, name_a) ∷ []

abbrev read_dir : ℕ → ℕ → Option (List ℕ)
read_dir offset count = if offset == 0 then some (records dir_entries) else some []

abbrev content : List ℕ
content = 7 ∷ 8 ∷ []

abbrev read_content : ℕ → ℕ → Option (List ℕ)
read_content offset count = some (take (min count (2 - offset)) (drop offset content))

abbrev root : Inode
root = record { ino = 0; size = 0; is_dir = true; sb = 100; read = none; readdir = some read_dir }

abbrev file_a : Inode
file_a = record {
  ino = 1;
  size = 2;
  is_dir = false;
  sb = 100;
  read = some read_content;
  readdir = none;
}

abbrev get_a : ℕ → Option Inode
get_a ino = if ino == 1 then some file_a else none

abbrev super : SuperBlock
super = record { root_inode = some (some root); get_inode = some get_a }

abbrev small : Vfs
small = record {
  root_sb = 100;
  mounts = [];
  superblocks = λ p. if p == 100 then some super else none;
}

abbrev entries_of : Inode → Option (List (ℕ × List ℕ))
entries_of i = if i.is_dir then some dir_entries else none

abbrev IsRootOrFile : Inode → Type 0
IsRootOrFile i = (i ≡ root) ⊎ (i ≡ file_a)

finds_a :
    open_file 3 3 small [] (b'/' ∷ name_a) ≡ some (some (record { inode = file_a; offset = 0 }))
unfolding open_file resolve_mount resolve_in lookup_path walk_path next_component find_entry
    scan_chunk skip_slashes le_value inode_of record_of le_bytes strcmp
finds_a = refl

-- Behind a name one slash is skipped: a second one stands for an empty name.
empty_name : next_component 255 (skip_slash (b'/' ∷ b'/' ∷ b'b' ∷ [])) ≡ ([], b'/' ∷ b'b' ∷ [])
unfolding next_component
empty_name = refl

proc-NulFree : NulFree proc
proc-NulFree = (
  λ z. omega (arith, z),
  (
    λ z. omega (arith, z),
    (λ z. omega (arith, z), (λ z. omega (arith, z), (λ z. omega (arith, z), tt))),
  ),
)

dir_Lists : Lists read_dir dir_entries
unfolding record_of le_bytes
dir_Lists [] ys e = (dir_entries, [], sym e ∙ refl, refl, omega arith, λ more. omega arith)
dir_Lists (x ∷ []) [] e =
    ([], [], refl, rw (sym (head-eq_of_cons-eq e)) refl, omega arith, λ more. more)
dir_Lists (x ∷ []) (y ∷ ys) e = absurd (nil≢cons (tail-eq_of_cons-eq e))
dir_Lists (x ∷ y ∷ xs) ys e = absurd (nil≢cons (tail-eq_of_cons-eq e))

-- The two inodes are what the entries say.
small-described : (i : Inode) → IsRootOrFile i → Describes 3 i.readdir (entries_of i)
unfolding record_of le_bytes
small-described i (inl e) =
    subst (λ i. Describes 3 i.readdir (entries_of i)) (sym e)
      (dir_Lists, ((omega arith, ((λ z. omega (arith, z)), tt)), tt), omega arith, omega arith)
small-described i (inr e) = subst (λ i. Describes 3 i.readdir (entries_of i)) (sym e) tt

found-a : (ino : ℕ) (next : Inode) → get_a ino ≡ some next → next ≡ file_a
found-a ino next e = elim (Bool-cases (ino == 1)) [
  | inl here ↦ sym (some_inj.0 (sym (ap (λ b. if b then some file_a else none) here) ∙ e))
  | inr other ↦
      absurd (none-ne-some next (sym (ap (λ b. if b then some file_a else none) other) ∙ e))
]

small-closed :
    (i next : Inode) (ino : ℕ)
    → IsRootOrFile i
    → inode_of small i ino ≡ some next
    → IsRootOrFile next
unfolding inode_of
small-closed i next ino (inl e) run =
    inr (found-a ino next (sym (ap (λ i. inode_of small i ino) e) ∙ run))
small-closed i next ino (inr e) run =
    inr (found-a ino next (sym (ap (λ i. inode_of small i ino) e) ∙ run))

lookup_path-resolve_example :
    lookup_path 2 3 small [] root (slashed (name_a ∷ []))
    ≡ some (resolve small entries_of root (name_a ∷ []))
lookup_path-resolve_example =
    lookup_path-resolve small entries_of 3 [] IsRootOrFile small-described small-closed 2 root
      (name_a ∷ [])
      (((((λ z. omega (arith, z)), (λ z. omega (arith, z))), tt), omega arith, omega arith), tt)
      (omega arith) (inl refl)

under_iff_run :
    (under proc (proc ++ uptime) ≡ true)
    ↔ ((rel : List ℕ) × (proc ++ uptime ≡ proc ++ rel) × ((char rel ≡ b'/') ⊎ (char rel ≡ 0)))
under_iff_run = under_iff proc (proc ++ uptime) proc-NulFree

mount_at-resolve_run : resolve_mount (mount_at small proc 200) (proc ++ uptime) ≡ (200, uptime)
mount_at-resolve_run =
    mount_at-resolve small proc uptime 200 (omega arith) proc-NulFree (inl refl) tt

content-Reads : Reads read_content content
content-Reads offset count inside some_byte within =
    (min count (2 - offset), omega arith, omega arith, omega arith, refl)

read_whole_file_lem_run :
    read_whole_file 3 (record { inode = file_a; offset = 0 }) ≡ some (some content)
read_whole_file_lem_run =
    read_whole_file_lem 3 (record { inode = file_a; offset = 0 }) content read_content refl
      content-Reads refl refl (omega arith) (omega arith)

-- The same directory in an archive.
abbrev nodes : ℕ → TarNode
nodes i =
    if i == 0
    then record {
      name = [];
      is_dir = true;
      data_offset = 0;
      size = 0;
      first_child = some 1;
      next_sibling = none;
    }
    else record {
      name = name_a;
      is_dir = false;
      data_offset = 512;
      size = 2;
      first_child = none;
      next_sibling = none;
    }

abbrev tar_dir : ℕ → ℕ → Option (List ℕ)
tar_dir offset count =
    if leb offset 0 then (if ltb count 10 then some [] else some (record_of 1 name_a)) else some []

tar_dir-reads :
    (offset count : ℕ) → tar_readdir 1 nodes 0 offset count ≡ some (tar_dir offset count)
unfolding tar_readdir readdir_from
tar_dir-reads offset count = elim (Bool-cases (leb offset 0)) [
  | inl start ↦ (elim (Bool-cases (ltb count 10)) [
    | inl small_buf ↦ rw (start, small_buf) refl
    | inr fits ↦ rw (start, fits) refl
  ])
  | inr later ↦ rw later refl
]

find_entry-tar_readdir_example :
    find_entry 2 tar_dir [] 0 name_a ≡ some (lookup (entries nodes (1 ∷ [])) name_a)
unfolding record_of le_bytes
find_entry-tar_readdir_example =
    find_entry-tar_readdir nodes 0 (1 ∷ []) 1 tar_dir tar_dir-reads refl (refl, refl) (omega arith)
      ((omega arith, ((λ z. omega (arith, z)), tt), omega arith), tt) name_a [] 2
      ((λ z. omega (arith, z)), tt) (omega arith) (omega arith)
