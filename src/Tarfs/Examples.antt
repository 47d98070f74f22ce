-- ===== src/Tarfs/Examples.antt =====
-- Two children of a root directory, a header, and the theorems there.
use mathlib.Core.List.{List, []}
use retux.Prelude.{
  ℕ, ◌-◌, ◌*◌, ◌≡◌, ◌≤◌, refl, ◌∷◌, ◌++◌, arith, length, true, false, none, some, take,
  if◌then◌else◌, ◌==◌, ◌^◌,
}
use retux.Tarfs.{
  TarNode, UstarHeader, parse_octal, count_entries, build_full_path, tar_read, copied, tar_readdir,
}
use retux.Tarfs.Archive.{octal_field, parse_octal-octal_field, build_full_path_lem}
use retux.Tarfs.Scan.{count_entries_ends}
use retux.Tarfs.Files.{tar_read_lem, tar_readdir_lem, stream, Stops}

abbrev file : TarNode
file = record {
  name = b'a' ∷ b'b' ∷ [];
  is_dir = false;
  data_offset = 512;
  size = 100;
  first_child = none;
  next_sibling = some 2;
}

abbrev nodes : ℕ → TarNode
nodes i =
    if i == 0
    then record file { is_dir = true; first_child = some 1 }
    else if i == 1
    then file
    else record file { next_sibling = none }

abbrev hdr : UstarHeader
hdr = record {
  name = b'a' ∷ [];
  size = b'1' ∷ b'7' ∷ b' ' ∷ [];
  typeflag = b'0';
  prefix = b'd' ∷ b'e' ∷ [];
}

seventeen : parse_octal hdr.size ≡ 15
unfolding parse_octal retux.Tarfs.parse_octal_from
seventeen = refl

parse_octal-octal_field_run : parse_octal (octal_field 11 1234 (0 ∷ [])) ≡ 1234
parse_octal-octal_field_run =
    parse_octal-octal_field 11 1234 (0 ∷ []) (omega arith) (omega arith) refl

build_full_path_lem_run : build_full_path hdr 256 ≡ take 255 (b'd' ∷ b'e' ∷ b'/' ∷ b'a' ∷ [])
build_full_path_lem_run =
    build_full_path_lem hdr (omega arith, (omega arith, tt)) (omega arith, tt) (omega arith)
      (omega arith)

tar_read_lem_run : tar_read file 90 50 ≡ copied 602 10
tar_read_lem_run = tar_read_lem file 90 50 refl (omega arith) (omega arith)

tar_readdir_lem_run :
    (zs rest : List ℕ) × (2 ∷ [] ≡ zs ++ rest)
    × (tar_readdir 2 nodes 0 (length (stream nodes (1 ∷ []))) 512 ≡ some (some (stream nodes zs)))
    × (length (stream nodes zs) ≤ 512)
    × Stops nodes 512 (length (stream nodes zs)) rest
tar_readdir_lem_run =
    tar_readdir_lem nodes 0 (1 ∷ []) (2 ∷ []) 2 512 refl (refl, (refl, refl)) (omega arith)

-- A header with 15 bytes of content at every place; two of them fit.
count_entries_ends_example :
    (n : ℕ) × (count_entries 6 (λ o. hdr) 2500 0 ≡ some n) × (n * 512 ≤ 2500)
count_entries_ends_example =
    count_entries_ends 5 (λ o. hdr) 2500 0 (λ o. omega arith) (omega arith) (omega arith)

-- `read(fd, buf, -1)` at offset 1: the sum wraps, and the count is not cut.
reads_past : tar_read file 1 (2 ^ 64 - 1) ≡ copied 513 (2 ^ 64 - 1)
unfolding tar_read
reads_past = refl
