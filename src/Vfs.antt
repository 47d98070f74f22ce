-- ===== src/Vfs.antt =====
-- src/fs/vfs.cpp: mounts, the look-up of paths, open and reads of whole files. A pointer to a
-- superblock is a number, and what is behind it a table; an inode carries what the driver's functions
-- answer for it. The outer `none` of a loop is that its fuel was not enough; a null pointer is `none`.
pub mod Mounts
pub mod Chunks
pub mod Lookup
pub mod Tree
pub mod Whole
pub mod Archive
mod Examples
use retux.Prelude.{
  ℕ, zero, suc, ◌+◌, ◌-◌, ◌*◌, ◌%◌, ◌^◌, ◌==◌, ltb, leb, if◌then◌else◌, Bool, true, false, not,
  ◌&&◌, ◌||◌, Option, none, some, List, [], ◌∷◌, ◌++◌, length, drop,
}
use retux.Prelude.Int.{ℤ, pos, negsuc}
use retux.Strings.{char, next_char, strcmp, strncmp, strlen, strnlen}
use retux.Partitions.{Partition}

infixl 5 ◌>>=◌
abbrev pub ◌>>=◌ {ℓ κ} : {A : Type ℓ} {B : Type κ} → Option A → (A → Option B) → Option B
none >>= f = none
some a >>= f = f a

-- The operations are null, -1, or the bytes that are put into the buffer. `sb` is a pointer.
pub record Inode : Type 0 where
  pub ino : ℕ
  pub size : ℕ
  pub is_dir : Bool
  pub sb : ℕ
  pub read : Option (ℕ → ℕ → Option (List ℕ))
  pub readdir : Option (ℕ → ℕ → Option (List ℕ))

-- The operations of a superblock.
pub record SuperBlock : Type 0 where
  pub root_inode : Option (Option Inode)
  pub get_inode : Option (ℕ → Option Inode)

pub record File : Type 0 where
  pub inode : Inode
  pub offset : ℕ

-- The state of the module; a superblock's operations by its address.
pub record Vfs : Type 0 where
  pub root_sb : ℕ
  pub mounts : List (List ℕ × ℕ)
  pub superblocks : ℕ → Option SuperBlock

abbrev pub chunk_size : ℕ
chunk_size = 512

abbrev pub max_mounts : ℕ
max_mounts = 4

abbrev pub is_zero : ℤ → Bool
is_zero (pos n) = n == 0
is_zero (negsuc n) = false

pub skip_slashes : List ℕ → List ℕ
skip_slashes [] = []
skip_slashes (c ∷ path) = let rest = skip_slashes path in if c == b'/' then rest else c ∷ path

-- The bytes up to the next slash or the end, and what is left of the path.
pub next_component : (room : ℕ) → List ℕ → List ℕ × List ℕ
next_component zero path = ([], path)
next_component (suc room) [] = ([], [])
next_component (suc room) (c ∷ path) =
    let rest = next_component room path in
    if c == 0 || c == b'/' then ([], c ∷ path) else (c ∷ rest.0, rest.1)

-- The little-endian number in the first `n` bytes.
pub le_value : ℕ → List ℕ → ℕ
le_value zero p = 0
le_value (suc n) p = char p % 256 + 256 * le_value n (next_char p)

-- `while (p < buf + bytes)`: `left` is `buf + bytes - p`, `room` is `chunk_size - (p - buf)`, and the
-- list is what `p` points to.
pub scan_chunk : ℕ → (p : List ℕ) → (left room : ℕ) → List ℕ → Option (Option ℕ)
scan_chunk zero p left room component = none
scan_chunk (suc fuel) p left room component =
    let name = drop 8 p in
    let room' = (room + 2 ^ 64 - 8) % 2 ^ 64 in
    let name_len = strnlen name room' in
    let rest =
      scan_chunk fuel (drop (name_len + 1) name) (left - (8 + name_len + 1))
        ((room' + 2 ^ 64 - (name_len + 1)) % 2 ^ 64) component in
    if left == 0
    then some none
    else if is_zero (strcmp name component)
    then some (some (le_value 8 p))
    else rest

-- The buffer once a driver has put its bytes there.
abbrev pub filled : List ℕ → List ℕ → List ℕ
filled bytes buf = bytes ++ drop (length bytes) buf

-- The loop over the chunks of a directory.
pub find_entry :
    ℕ → (ℕ → ℕ → Option (List ℕ)) → (buf : List ℕ) → (offset : ℕ) → List ℕ → Option (Option ℕ)
find_entry zero readdir buf offset component = none
find_entry (suc fuel) readdir buf offset component = elim (readdir offset chunk_size) [
  | none ↦ some none
  | some bytes ↦ if length bytes == 0 then some none else (do
    found ← scan_chunk chunk_size (filled bytes buf) (length bytes) chunk_size component
    elim found [
      | some ino ↦ some (some ino)
      | none ↦
          find_entry fuel readdir (filled bytes buf) ((offset + length bytes) % 2 ^ 64) component
    ])
]

abbrev pub skip_slash : List ℕ → List ℕ
skip_slash path = if char path == b'/' then next_char path else path

-- The inode of a number, through the superblock of the directory.
unfoldable pub inode_of : Vfs → Inode → ℕ → Option Inode
inode_of v cur ino = do sb ← v.superblocks cur.sb; get_inode ← sb.get_inode; get_inode ino

-- `while (*path)`; `dir_fuel` is for the chunks of one directory, `buf` what the stack holds.
pub walk_path : ℕ → (dir_fuel : ℕ) → Vfs → (buf : List ℕ) → Inode → List ℕ → Option (Option Inode)
walk_path zero dir_fuel v buf cur path = none
walk_path (suc fuel) dir_fuel v buf cur path =
    let parts = next_component 255 path in
    if char path == 0 then some (some cur) else elim cur.readdir [
      | none ↦ some none
      | some readdir ↦ (do
        found ← find_entry dir_fuel readdir buf 0 parts.0
        elim found [
          | none ↦ some none
          | some ino ↦ (elim (inode_of v cur ino) [
            | none ↦ some none
            | some next ↦ walk_path fuel dir_fuel v buf next (skip_slash parts.1)
          ])
        ])
    ]

pub lookup_path : ℕ → (dir_fuel : ℕ) → Vfs → List ℕ → Inode → List ℕ → Option (Option Inode)
lookup_path fuel dir_fuel v buf root path = walk_path fuel dir_fuel v buf root (skip_slashes path)

-- The prefix matches, and ends at a slash or at the end of the path.
pub under : List ℕ → List ℕ → Bool
under prefix path =
    let plen = strlen prefix in
    is_zero (strncmp path prefix plen)
    && (char (drop plen path) == b'/' || char (drop plen path) == 0)

-- The superblock that a path is resolved against, and the path there.
pub resolve_in : List (List ℕ × ℕ) → (root_sb : ℕ) → List ℕ → ℕ × List ℕ
resolve_in [] root_sb path = (root_sb, path)
resolve_in ((prefix, sb) ∷ mounts) root_sb path =
    let rest = resolve_in mounts root_sb path in
    if under prefix path then (sb, drop (strlen prefix) path) else rest

pub resolve_mount : Vfs → List ℕ → ℕ × List ℕ
resolve_mount v path = resolve_in v.mounts v.root_sb path

unfoldable pub mount_at : Vfs → List ℕ → ℕ → Vfs
mount_at v prefix sb =
    if ltb (length v.mounts) max_mounts
    then record v { mounts = v.mounts ++ (prefix, sb) ∷ [] }
    else v

unfoldable pub open_file : ℕ → (dir_fuel : ℕ) → Vfs → List ℕ → List ℕ → Option (Option File)
open_file fuel dir_fuel v buf path =
    let (sb, rel) = resolve_mount v path in
    elim (v.superblocks sb >>= λ s. s.root_inode) [
      | none ↦ some none
      | some none ↦ some none
      | some (some root) ↦ (do
        target ← lookup_path fuel dir_fuel v buf root rel
        elim target [
          | none ↦ some none
          | some inode ↦ some (some (record { inode = inode; offset = 0 }))
        ])
    ]

-- `default_ops.read`: the bytes, and the file with its new offset.
pub file_read : File → ℕ → Option (List ℕ) × File
file_read f count = elim (f.inode.read >>= λ read. read f.offset count) [
  | none ↦ (none, f)
  | some bytes ↦ (some bytes, record f { offset = (f.offset + length bytes) % 2 ^ 64 })
]

-- `while (total < size)`, with what the buffer holds; a read of -1 or of nothing gives null, and one
-- that gives more than was asked for has written past the buffer, `none`.
pub read_loop : ℕ → File → (size : ℕ) → List ℕ → Option (Option (List ℕ))
read_loop zero file size buf = none
read_loop (suc fuel) file size buf =
    let (got, file') = file_read file (size - length buf) in
    if leb size (length buf) then some (some buf) else elim got [
      | none ↦ some none
      | some bytes ↦ (elim bytes [
        | [] ↦ some none
        | b ∷ bs ↦
            let rest = read_loop fuel file' size (buf ++ b ∷ bs) in
            if ltb (size - length buf) (length (b ∷ bs)) then none else rest
      ])
    ]

-- `kmalloc` of 0 bytes is null; the size is a u64. The run goes on from where it returns: that it
-- halts when the heap cannot grow is in Heap.
pub read_whole_file : ℕ → File → Option (Option (List ℕ))
read_whole_file fuel file =
    if (file.inode.size + 1) % 2 ^ 64 == 0
    then some none
    else read_loop fuel file file.inode.size []

-- The loop of `init`; `mount` is `mount` of the disk at a sector, null when it finds no file system.
pub first_mount : (mount : ℕ → Option ℕ) → List Partition → Option ℕ
first_mount mount [] = none
first_mount mount (part ∷ parts) = elim (mount part.start_lba) [
  | some sb ↦ some sb
  | none ↦ first_mount mount parts
]

pub init : (mount : ℕ → Option ℕ) → List Partition → Vfs → Vfs
init mount parts v = elim (first_mount mount parts) [
  | some sb ↦ record v { root_sb = sb }
  | none ↦ (elim (mount 0) [ some sb ↦ record v { root_sb = sb } | none ↦ v ])
]
