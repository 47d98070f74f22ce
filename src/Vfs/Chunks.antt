-- ===== src/Vfs/Chunks.antt =====
-- The chunks of a directory in `lookup_path` of src/fs/vfs.cpp: records of a number and a name.
use native.Mathlib.Nat.{pow-suc}
use mathlib.Core.List.{append_assoc, nil≢cons, head-eq_of_cons-eq, tail-eq_of_cons-eq}
use retux.Prelude.{
  ℕ, zero, suc, ◌+◌, ◌-◌, ◌*◌, ◌/◌, ◌%◌, ◌^◌, ◌==◌, ◌≤◌, ◌<◌, ◌≡◌, ◌↔◌, refl, sym, ap, ◌∙◌, ◌&&◌,
  Bool, true, false, Option, none, some, List, [], ◌∷◌, ◌++◌, length, drop, All, arith,
  length-append, Bool-cases, inl, inr, if◌then◌else◌,
}
use retux.Strings.{strcmp, strnlen}
use retux.Strings.Compare.{NulFree}
use retux.Tarfs.{le_bytes, record_of}
use retux.Tarfs.Files.{length-record_of}
use retux.Vfs.{scan_chunk, is_zero, le_value}

-- The records of some entries, one after another.
abbrev pub records : List (ℕ × List ℕ) → List ℕ
records [] = []
records ((ino, name) ∷ es) = record_of ino name ++ records es

-- Equal names, and the number of the first entry with a name.
unfoldable pub same : List ℕ → List ℕ → Bool
same [] [] = true
same [] (b ∷ t) = false
same (a ∷ s) [] = false
same (a ∷ s) (b ∷ t) = let rest = same s t in a == b && rest

unfoldable pub lookup : List (ℕ × List ℕ) → List ℕ → Option ℕ
lookup [] component = none
lookup ((ino, name) ∷ es) component =
    let rest = lookup es component in if same name component then some ino else rest

-- An entry that can be told from the records.
abbrev pub IsEntry : ℕ × List ℕ → Type 0
IsEntry e = (e.0 < 2 ^ 64) × NulFree e.1

pub le_value-le_bytes :
    (n v : ℕ) (rest : List ℕ) → v < 256 ^ n → le_value n (le_bytes n v ++ rest) ≡ v
unfolding le_value le_bytes
le_value-le_bytes zero v rest lt = omega (arith, lt)
le_value-le_bytes (suc n) v rest lt =
    let lt' : v < 256 ^ n * 256 = rw⁻¹ (pow-suc 256 n) lt in
    omega (arith, le_value-le_bytes n (v / 256) rest (omega (arith, lt')))

strcmp-same :
    (name component rest : List ℕ)
    → NulFree name
    → NulFree component
    → is_zero (strcmp (name ++ 0 ∷ rest) component) ≡ same name component
unfolding strcmp same
strcmp-same [] [] rest f g = refl
strcmp-same [] (b ∷ t) rest f g = ground (arith, g.0)
strcmp-same (a ∷ s) [] rest f g = ground (arith, f.0)
strcmp-same (a ∷ s) (b ∷ t) rest f g = ground (arith, f.0, g.0, strcmp-same s t rest f.1 g.1)

strnlen-nul :
    (max : ℕ) (name rest : List ℕ)
    → NulFree name
    → length name ≤ max
    → strnlen (name ++ 0 ∷ rest) max ≡ length name
unfolding strnlen
strnlen-nul zero [] rest f le = refl
strnlen-nul (suc max) [] rest f le = refl
strnlen-nul zero (c ∷ name) rest f le = elim le [ ]
strnlen-nul (suc max) (c ∷ name) rest f le =
    ground (arith, f.0, strnlen-nul max name rest f.1 (omega arith))

pub drop-le_bytes : (v : ℕ) (rest : List ℕ) → drop 8 (le_bytes 8 v ++ rest) ≡ rest
unfolding le_bytes
drop-le_bytes v rest = refl

pub drop_past : (name rest : List ℕ) → drop (length name + 1) (name ++ 0 ∷ rest) ≡ rest
drop_past [] rest = refl
drop_past (c ∷ name) rest =
    let more : length (c ∷ name) + 1 ≡ suc (length name + 1) = omega arith in
    rw more (drop_past name rest)

pub record_of-append :
    (ino : ℕ) (name rest : List ℕ)
    → record_of ino name ++ rest ≡ le_bytes 8 ino ++ (name ++ 0 ∷ rest)
unfolding record_of
record_of-append ino name rest =
    append_assoc (le_bytes 8 ino ++ name) (0 ∷ []) rest
    ∙ append_assoc (le_bytes 8 ino) name (0 ∷ rest)

if-some : (b : Bool) (x y : Option ℕ) → (if b then some x else some y) ≡ some (if b then x else y)
if-some true x y = refl
if-some false x y = refl

pub scan_chunk_lem :
    (es : List (ℕ × List ℕ)) (component rest : List ℕ) (fuel room : ℕ)
    → All IsEntry es
    → NulFree component
    → length es < fuel
    → length (records es) ≤ room
    → room < 2 ^ 64
    → scan_chunk fuel (records es ++ rest) (length (records es)) room component
      ≡ some (lookup es component)
unfolding scan_chunk lookup
scan_chunk_lem es component rest zero room entries plain enough fits word = elim enough [ ]
scan_chunk_lem [] component rest (suc fuel) room entries plain enough fits word = refl
scan_chunk_lem ((ino, name) ∷ es) component rest (suc fuel) room ((small, free), entries) plain
      enough fits word =
    let behind = records es ++ rest in
    let here = length-record_of ino name in
    let parts = length-append (record_of ino name) (records es) in
    let size : length (record_of ino name ++ records es)
        ≡ 8 + length name + 1 + length (records es) =
      omega (arith, here, parts) in
    let shape : (record_of ino name ++ records es) ++ rest
        ≡ le_bytes 8 ino ++ (name ++ 0 ∷ behind) =
      append_assoc (record_of ino name) (records es) rest ∙ record_of-append ino name behind in
    let at_name : drop 8 (le_bytes 8 ino ++ (name ++ 0 ∷ behind)) ≡ name ++ 0 ∷ behind =
      drop-le_bytes ino (name ++ 0 ∷ behind) in
    let number : le_value 8 (le_bytes 8 ino ++ (name ++ 0 ∷ behind)) ≡ ino =
      le_value-le_bytes 8 ino (name ++ 0 ∷ behind) small in
    let room' : (room + 2 ^ 64 - 8) % 2 ^ 64 ≡ room - 8 = omega (arith, fits, size) in
    let len = strnlen-nul (room - 8) name behind free (omega (arith, fits, size)) in
    let later : drop (length name + 1) (name ++ 0 ∷ behind) ≡ behind = drop_past name behind in
    let room'' : (room - 8 + 2 ^ 64 - (length name + 1)) % 2 ^ 64 ≡ room - (9 + length name) =
      omega (arith, fits, size) in
    let left : length (record_of ino name ++ records es) - (8 + length name + 1)
        ≡ length (records es) =
      omega (arith, size) in
    let more : (length (record_of ino name ++ records es) == 0) ≡ false = ground (arith, size) in
    rw
      (
        shape,
        at_name,
        room',
        len,
        later,
        room'',
        left,
        more,
        strcmp-same name component behind free plain,
        number,
        scan_chunk_lem es component rest fuel (room - (9 + length name)) entries plain (omega arith)
            (omega (arith, fits, size)) (omega arith),
      )
      (if-some (same name component) (some ino) (lookup es component))

pub records-append : (es es' : List (ℕ × List ℕ)) → records (es ++ es') ≡ records es ++ records es'
records-append [] es' = refl
records-append ((ino, name) ∷ es) es' =
    ap (λ r. record_of ino name ++ r) (records-append es es')
    ∙ sym (append_assoc (record_of ino name) (records es) (records es'))

pub records-long : (es : List (ℕ × List ℕ)) → length es * 9 ≤ length (records es)
records-long [] = omega arith
records-long ((ino, name) ∷ es) = omega (
  arith,
  length-append (record_of ino name) (records es),
  length-record_of ino name,
  records-long es,
)

-- The first entry in two parts of a list.
pub lookup-append-none :
    (es es' : List (ℕ × List ℕ)) (component : List ℕ)
    → lookup es component ≡ none
    → lookup (es ++ es') component ≡ lookup es' component
unfolding lookup
lookup-append-none [] es' component missing = refl
lookup-append-none ((ino, name) ∷ es) es' component missing =
    elim (Bool-cases (same name component)) [
      | inl here ↦ absurd (ground (arith, here, missing))
      | inr other ↦
          let missing' : lookup es component ≡ none = ground (arith, other, missing) in
          rw other (lookup-append-none es es' component missing')
    ]

pub lookup-append-some :
    (es es' : List (ℕ × List ℕ)) (component : List ℕ) (ino : ℕ)
    → lookup es component ≡ some ino
    → lookup (es ++ es') component ≡ some ino
unfolding lookup
lookup-append-some [] es' component ino found = absurd (ground (arith, found))
lookup-append-some ((n, name) ∷ es) es' component ino found =
    elim (Bool-cases (same name component)) [
      | inl here ↦ ground (arith, here, found)
      | inr other ↦
          let found' : lookup es component ≡ some ino = ground (arith, other, found) in
          rw other (lookup-append-some es es' component ino found')
    ]

pub same_iff : (s t : List ℕ) → (same s t ≡ true) ↔ (s ≡ t)
unfolding same
same_iff [] [] = (λ _. refl, λ _. refl)
same_iff [] (b ∷ t) = (λ e. absurd (ground (arith, e)), λ e. absurd (nil≢cons e))
same_iff (a ∷ s) [] = (λ e. absurd (ground (arith, e)), λ e. absurd (nil≢cons (sym e)))
same_iff (a ∷ s) (b ∷ t) =
    let (to, from) = same_iff s t in
    (
      λ e.
          let heads : a ≡ b = ground (arith, e) in
          let tails : s ≡ t = to (ground (arith, e)) in rw (heads, tails) refl,
      λ e. ground (arith, head-eq_of_cons-eq e, from (tail-eq_of_cons-eq e)),
    )
