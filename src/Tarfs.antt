-- ===== src/Tarfs.antt =====
-- src/fs/tarfs.cpp: the archive file system as it is read. An index of -1 is none. A name is the list
-- of the bytes before its NUL, and the table of nodes is a function of the index.
pub mod Archive
pub mod Scan
pub mod Files
mod Examples
use retux.Prelude.{
  ℕ, zero, suc, ◌+◌, ◌-◌, ◌*◌, ◌/◌, ◌%◌, ◌^◌, ◌==◌, ltb, leb, if◌then◌else◌, Bool, true, false, not,
  ◌&&◌, ◌||◌, Option, none, some, List, [], ◌∷◌, ◌++◌, length, get_elem?, set, take, drop, min,
}
use retux.Strings.{char, strnlen}

infixl 5 ◌>>=◌
abbrev ◌>>=◌ {ℓ κ} : {A : Type ℓ} {B : Type κ} → Option A → (A → Option B) → Option B
none >>= f = none
some a >>= f = f a

-- `parse_octal` on the field's bytes; the value is a u64.
pub parse_octal_from : ℕ → List ℕ → ℕ
parse_octal_from value [] = value
parse_octal_from value (c ∷ field) =
    let rest = parse_octal_from ((value * 8 + (c - b'0')) % 2 ^ 64) field in
    if ltb c b'0' || ltb b'7' c then value else rest

pub parse_octal : List ℕ → ℕ
parse_octal field = parse_octal_from 0 field

pub record TarNode : Type 0 where
  pub name : List ℕ
  pub is_dir : Bool
  pub data_offset : ℕ
  pub size : ℕ
  pub first_child : Option ℕ
  pub next_sibling : Option ℕ

pub record UstarHeader : Type 0 where
  pub name : List ℕ
  pub size : List ℕ
  pub typeflag : ℕ
  pub prefix : List ℕ

-- What `build_full_path` leaves before the NUL in a buffer of `out_size` bytes.
pub build_full_path : UstarHeader → ℕ → List ℕ
build_full_path hdr out_size =
    let prefix_len = strnlen hdr.prefix 155 in
    let name_len = strnlen hdr.name 100 in
    let start =
      if ltb 0 prefix_len
      then take (if ltb prefix_len (out_size - 1) then prefix_len else out_size - 1) hdr.prefix
      else [] in
    let slashed =
      if ltb 0 prefix_len && ltb (length start) (out_size - 1) then start ++ b'/' ∷ [] else start in
    let room = out_size - 1 - length slashed in
    slashed ++ take (if ltb name_len room then name_len else room) hdr.name

-- `(entry_size + 511) / 512` blocks, and the offset behind them, in u64.
pub data_blocks : ℕ → ℕ
data_blocks entry_size = (entry_size + 511) % 2 ^ 64 / 512

pub next_offset : ℕ → ℕ → ℕ
next_offset offset entry_size = (offset + 512 + data_blocks entry_size * 512) % 2 ^ 64

-- The archive's headers by their offsets; the loop runs on fuel.
pub count_entries : ℕ → (ℕ → UstarHeader) → (size offset : ℕ) → Option ℕ
count_entries zero header size offset = none
count_entries (suc fuel) header size offset =
    let rest =
      count_entries fuel header size (next_offset offset (parse_octal (header offset).size)) in
    if leb (offset + 512) size && not (char (header offset).name == 0)
    then (rest >>= λ n. some (n + 1))
    else some 0

-- What a read hands to `memcpy`: -1, or `count` bytes of the archive from `from` on.
pub data Read : Type 0 where
  not_a_file : Read
  copied : (from count : ℕ) → Read

-- `offset + count` is computed in u64.
pub tar_read : TarNode → (offset count : ℕ) → Read
tar_read node offset count =
    if node.is_dir
    then not_a_file
    else if leb node.size offset
    then copied 0 0
    else if ltb node.size ((offset + count) % 2 ^ 64)
    then copied (node.data_offset + offset) (node.size - offset)
    else copied (node.data_offset + offset) count

-- The bytes of a u64 as it is stored, the lowest first.
unfoldable pub le_bytes : ℕ → ℕ → List ℕ
le_bytes zero v = []
le_bytes (suc n) v = v % 256 ∷ le_bytes n (v / 256)

unfoldable pub record_of : ℕ → List ℕ → List ℕ
record_of ino name = le_bytes 8 ino ++ name ++ 0 ∷ []

-- The loop of `tar_readdir` over the sibling chain, with what the buffer holds already; on fuel.
unfoldable pub readdir_from :
    ℕ → (ℕ → TarNode) → (offset count : ℕ) → Option ℕ → (stream_pos : ℕ) → List ℕ → Option (List ℕ)
readdir_from fuel nodes offset count none stream_pos out = some out
readdir_from zero nodes offset count (some child) stream_pos out = none
readdir_from (suc fuel) nodes offset count (some child) stream_pos out =
    let c = nodes child in
    let needed = 8 + length c.name + 1 in
    let skipped = readdir_from fuel nodes offset count c.next_sibling (stream_pos + needed) out in
    let written =
      readdir_from fuel nodes offset count c.next_sibling (stream_pos + needed)
        (out ++ record_of child c.name) in
    if leb offset stream_pos
    then (if ltb count (length out + needed) then some out else written)
    else skipped

-- The inner `none` is -1.
unfoldable pub tar_readdir : ℕ → (ℕ → TarNode) → (node offset count : ℕ) → Option (Option (List ℕ))
tar_readdir fuel nodes node offset count =
    if not (nodes node).is_dir
    then some none
    else (readdir_from fuel nodes offset count (nodes node).first_child 0 [] >>= λ out.
        some (some out))
