-- ===== src/Dirents.antt =====
-- `sys_getdents64` of src/cpu/syscall.cpp, over the records that a driver of src/fs/vfs.hpp gives. A
-- record in the caller's buffer is its fields, without the padding behind the name, which is not
-- written. The outer `none` is a write outside the array of entries, a call through a null pointer, or
-- fuel that was not enough.
pub mod Collect
pub mod Emit
mod Examples
use retux.Prelude.{
  ℕ, zero, suc, ◌+◌, ◌-◌, ◌*◌, ◌/◌, ◌%◌, ◌^◌, ◌==◌, ltb, leb, if◌then◌else◌, Bool, true, false, not,
  ◌||◌, Option, none, some, List, [], ◌∷◌, ◌++◌, length, take, drop,
}
use retux.Prelude.Int.{ℤ, pos, neg}
use retux.Strings.{strlen}
use retux.Vfs.{File, ◌>>=◌, le_value, chunk_size, filled}

abbrev pub max_entries : ℕ
max_entries = 32

-- `sizeof(Ent::name) - 1`; `strncpy` of a name that is not shorter runs past the field.
abbrev pub name_room : ℕ
name_room = 47

abbrev pub ebadf : ℕ
ebadf = 9

abbrev pub einval : ℕ
einval = 22

-- `while (p < end && num_entries < MAX_ENTRIES)`: `left` is `end - p`, `room` what is left of the
-- array, and `entries` what it holds.
pub collect_chunk :
    ℕ → (p : List ℕ) → (left room : ℕ) → List (ℕ × List ℕ) → Option (List (ℕ × List ℕ))
collect_chunk zero p left room entries = none
collect_chunk (suc fuel) p left room entries =
    let name = drop 8 p in
    let name_len = strlen name in
    let rest =
      collect_chunk fuel (drop (name_len + 1) name) (left - (8 + name_len + 1)) (room - 1)
        (entries ++ (le_value 8 p, take name_len name) ∷ []) in
    if left == 0 || room == 0 then some entries else if leb name_room name_len then none else rest

-- `while (num_entries < MAX_ENTRIES)`
pub collect :
    ℕ
    → (ℕ → ℕ → Option (List ℕ))
    → (vfs_buf : List ℕ) → (vfs_off : ℕ) → List (ℕ × List ℕ)
    → Option (List (ℕ × List ℕ))
collect zero readdir vfs_buf vfs_off entries = none
collect (suc fuel) readdir vfs_buf vfs_off entries =
    if leb max_entries (length entries) then some entries else elim (readdir vfs_off chunk_size) [
      | none ↦ some entries
      | some bytes ↦ if length bytes == 0 then some entries else (do
        entries' ←
            collect_chunk chunk_size (filled bytes vfs_buf) (length bytes)
              (max_entries - length entries) entries
        collect fuel readdir (filled bytes vfs_buf) ((vfs_off + length bytes) % 2 ^ 64) entries')
    ]

-- `struct linux_dirent64`, with `d_off` and `d_type` 0.
pub record Dirent : Type 0 where
  pub d_ino : ℕ
  pub d_reclen : ℕ
  pub d_name : List ℕ

abbrev pub reclen : List ℕ → ℕ
reclen name = (19 + length name + 1 + 7) / 8 * 8

-- `while (idx < num_entries)`, over the entries from `idx` on: the records, the bytes written and
-- the new index.
pub emit : List (ℕ × List ℕ) → (count written idx : ℕ) → List Dirent × ℕ × ℕ
emit [] count written idx = ([], written, idx)
emit ((ino, name) ∷ entries) count written idx =
    let rest = emit entries count (written + reclen name) (idx + 1) in
    if ltb count (written + reclen name)
    then ([], written, idx)
    else (record { d_ino = ino; d_reclen = reclen name; d_name = name } ∷ rest.0, rest.1, rest.2)

-- Of the file that `real_file` returns: the result, the records in the buffer, and the file after.
pub sys_getdents64 :
    ℕ → (vfs_buf : List ℕ) → Option File → (count : ℕ) → Option (ℤ × List Dirent × Option File)
sys_getdents64 fuel vfs_buf none count = some (neg ebadf, [], none)
sys_getdents64 fuel vfs_buf (some f) count =
    if not f.inode.is_dir then some (neg einval, [], some f) else (do
      readdir ← f.inode.readdir
      entries ← collect fuel readdir vfs_buf 0 []
      let (dirents, written, idx) = emit (drop f.offset entries) count 0 f.offset
      some (pos written, dirents, some (record f { offset = idx })))
