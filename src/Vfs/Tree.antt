-- ===== src/Vfs/Tree.antt =====
-- The walk of a path in `lookup_path` of src/fs/vfs.cpp, against the tree that the directories make.
use retux.Strings.Compare.{NulFree}
use retux.Prelude.{
  ℕ, zero, suc, ◌^◌, ◌==◌, ◌≤◌, ◌<◌, ◌≡◌, ◌≢◌, refl, ap, subst, ◌∙◌, false, Option, none, some,
  List, [], ◌∷◌, ◌++◌, length, All, arith, Option-cases, inl, inr,
}
use retux.Strings.{char}
use retux.Vfs.{
  chunk_size, Vfs, Inode, lookup_path, walk_path, next_component, skip_slashes, skip_slash,
  inode_of, ◌>>=◌,
}
use retux.Vfs.Chunks.{records, lookup, IsEntry}
use retux.Vfs.Lookup.{Lists, find_entry_lem, find_entry-refused}

-- A name in a path: not empty, no slash and no NUL, at most 255 bytes.
abbrev pub IsComponent : List ℕ → Type 0
IsComponent c = All (λ x. (x ≢ 0) × (x ≢ b'/')) c × (0 < length c) × (length c ≤ 255)

-- The path of some names, with a slash before each; without the first one.
abbrev pub slashed : List (List ℕ) → List ℕ
slashed [] = []
slashed (c ∷ cs) = b'/' ∷ (c ++ slashed cs)

abbrev pub bare : List (List ℕ) → List ℕ
bare [] = []
bare (c ∷ cs) = c ++ slashed cs

skip_slash-slashed : (cs : List (List ℕ)) → skip_slash (slashed cs) ≡ bare cs
skip_slash-slashed [] = refl
skip_slash-slashed (c ∷ cs) = refl

next_component-slashed :
    (room : ℕ) (c : List ℕ) (cs : List (List ℕ))
    → All (λ x. (x ≢ 0) × (x ≢ b'/')) c
    → length c ≤ room
    → next_component room (c ++ slashed cs) ≡ (c, slashed cs)
unfolding next_component
next_component-slashed zero [] [] plain fits = refl
next_component-slashed zero [] (d ∷ ds) plain fits = refl
next_component-slashed (suc room) [] [] plain fits = refl
next_component-slashed (suc room) [] (d ∷ ds) plain fits = refl
next_component-slashed zero (x ∷ c) cs plain fits = elim fits [ ]
next_component-slashed (suc room) (x ∷ c) cs ((nul, slash), plain) fits =
    let other : (x == 0) ≡ false = ground (arith, nul) in
    let other' : (x == b'/') ≡ false = ground (arith, slash) in
    rw (other, other', next_component-slashed room c cs plain (omega arith)) refl

skip_slashes-slashed :
    (cs : List (List ℕ)) → All IsComponent cs → skip_slashes (slashed cs) ≡ bare cs
unfolding skip_slashes
skip_slashes-slashed [] plain = refl
skip_slashes-slashed ([] ∷ cs) ((_, some_byte, _), plain) = elim some_byte [ ]
skip_slashes-slashed ((x ∷ c) ∷ cs) ((((_, slash), _), _, _), plain) =
    let other : (x == b'/') ≡ false = ground (arith, slash) in rw other refl

component-NulFree : (c : List ℕ) → All (λ x. (x ≢ 0) × (x ≢ b'/')) c → NulFree c
component-NulFree [] plain = tt
component-NulFree (x ∷ c) ((nul, _), plain) = (nul, component-NulFree c plain)

char-component : (c rest : List ℕ) → IsComponent c → (char (c ++ rest) == 0) ≡ false
char-component [] rest (_, some_byte, _) = elim some_byte [ ]
char-component (x ∷ c) rest (plain, _, _) = ground (arith, plain.0)

-- What a driver's `readdir` is to do for a directory with these entries, and for a file, where it
-- may be null or answer -1.
abbrev pub Describes :
    (dir_fuel : ℕ) → Option (ℕ → ℕ → Option (List ℕ)) → Option (List (ℕ × List ℕ)) → Type 0
Describes dir_fuel none none = Unit {0}
Describes dir_fuel none (some es) = ⊥
Describes dir_fuel (some readdir) none = (readdir 0 chunk_size ≡ none) × (0 < dir_fuel)
Describes dir_fuel (some readdir) (some es) =
    Lists readdir es × All IsEntry es × (length (records es) < 2 ^ 64) × (length es < dir_fuel)

-- The tree, and the inode that some names lead to.
unfoldable pub resolve :
    Vfs → (Inode → Option (List (ℕ × List ℕ))) → Inode → List (List ℕ) → Option Inode
resolve v entries_of cur [] = some cur
resolve v entries_of cur (c ∷ cs) = do
  es ← entries_of cur
  ino ← lookup es c
  next ← inode_of v cur ino
  resolve v entries_of next cs

module _ (v : Vfs) (entries_of : Inode → Option (List (ℕ × List ℕ))) (dir_fuel : ℕ) (buf : List ℕ)
    (IsInode : Inode → Type 0)
    (described : (i : Inode) → IsInode i → Describes dir_fuel i.readdir (entries_of i))
    (closed : (i next : Inode) (ino : ℕ)
      → IsInode i
      → inode_of v i ino ≡ some next
      → IsInode next) where
  -- One name, in a directory with entries.
  walk_in :
      (fuel : ℕ) (cur : Inode) (c : List ℕ) (cs : List (List ℕ)) (readdir : ℕ → ℕ → Option (List ℕ))
      (es : List (ℕ × List ℕ))
      → IsComponent c
      → cur.readdir ≡ some readdir
      → entries_of cur ≡ some es
      → Describes dir_fuel (some readdir) (some es)
      → IsInode cur
      → ((next : Inode)
          → IsInode next
          → walk_path fuel dir_fuel v buf next (bare cs) ≡ some (resolve v entries_of next cs))
      → walk_path (suc fuel) dir_fuel v buf cur (c ++ slashed cs)
        ≡ some (resolve v entries_of cur (c ∷ cs))
  unfolding resolve walk_path
  walk_in fuel cur c cs readdir es named dir at (lists, entries, word, enough) here later =
      let first = char-component c (slashed cs) named in
      let parts = next_component-slashed 255 c cs named.0 named.2 in
      let found =
        find_entry_lem readdir es c buf dir_fuel lists entries (component-NulFree c named.0) word
          enough in
      let continue : Option Inode → Option (Option Inode) = λ o. (elim o [
        | none ↦ some none
        | some next ↦
            walk_path fuel dir_fuel v buf next (skip_slash (next_component 255 (c ++ slashed cs)).1)
      ]) in
      elim (Option-cases (lookup es c)) [
        | inl missing ↦ rw (at, missing, walk_path, first, dir, parts, found, missing) refl
        | inr (ino, there) ↦ (elim (Option-cases (inode_of v cur ino)) [
          | inl null ↦
              rw (at, there, null, walk_path, first, dir, parts, found, there) (ap continue null)
          | inr (next, real) ↦
              let rest : walk_path fuel dir_fuel v buf next
                    (skip_slash (next_component 255 (c ++ slashed cs)).1)
                  ≡ some (resolve v entries_of next cs) =
                rw (parts, skip_slash-slashed cs) (later next (closed cur next ino here real)) in
              rw (at, there, real, walk_path, first, dir, parts, found, there)
                (ap continue real ∙ rest)
        ])
      ]

  walk_path-resolve :
      (fuel : ℕ) (cur : Inode) (cs : List (List ℕ))
      → All IsComponent cs
      → length cs < fuel
      → IsInode cur
      → walk_path fuel dir_fuel v buf cur (bare cs) ≡ some (resolve v entries_of cur cs)
  unfolding resolve walk_path
  walk_path-resolve zero cur cs plain enough valid = elim enough [ ]
  walk_path-resolve (suc fuel) cur [] plain enough valid = refl
  walk_path-resolve (suc fuel) cur (c ∷ cs) (here, plain) enough valid =
      let d = described cur valid in
      elim (Option-cases cur.readdir) [
        | inl file ↦ (elim (Option-cases (entries_of cur)) [
          | inl no_entries ↦
              rw (no_entries, walk_path, char-component c (slashed cs) here, file) refl
          | inr (es, e) ↦
              let d' : Describes dir_fuel none (entries_of cur) =
                subst (λ r. Describes dir_fuel r (entries_of cur)) file d in
              absurd (subst (λ r. Describes dir_fuel none r) e d')
        ])
        | inr (readdir, dir) ↦
            let d' : Describes dir_fuel (some readdir) (entries_of cur) =
              subst (λ r. Describes dir_fuel r (entries_of cur)) dir d in
            (elim (Option-cases (entries_of cur)) [
              | inl no_entries ↦
                  let (refused, some_fuel) : Describes dir_fuel (some readdir) none =
                    subst (λ r. Describes dir_fuel (some readdir) r) no_entries d' in
                  rw
                    (
                      no_entries,
                      walk_path,
                      char-component c (slashed cs) here,
                      dir,
                      next_component-slashed 255 c cs here.0 here.2,
                      find_entry-refused readdir c buf dir_fuel refused some_fuel,
                    )
                    refl
              | inr (es, e) ↦
                  walk_in fuel cur c cs readdir es here dir e
                    (subst (λ r. Describes dir_fuel (some readdir) r) e d') valid
                    (λ next valid'. walk_path-resolve fuel next cs plain (omega arith) valid')
            ])
      ]

  -- When every directory that the look-up can reach lists its entries as whole records within the
  -- fuel, and the other inodes have no readdir or answer -1, lookup_path of names that are not
  -- empty, hold no slash or NUL and have at most 255 bytes gives what the names lead to in the tree,
  -- and null exactly when a name or an inode is missing on the way.
  pub lookup_path-resolve :
      (fuel : ℕ) (root : Inode) (cs : List (List ℕ))
      → All IsComponent cs
      → length cs < fuel
      → IsInode root
      → lookup_path fuel dir_fuel v buf root (slashed cs) ≡ some (resolve v entries_of root cs)
  unfolding lookup_path
  lookup_path-resolve fuel root cs plain enough valid =
      rw (skip_slashes-slashed cs plain) (walk_path-resolve fuel root cs plain enough valid)
