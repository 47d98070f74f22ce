-- ===== src/Vmm/Tables.antt =====
-- Writes to the tables of src/mem/vmm.cpp: a fresh table, and one entry.
use mathlib.Core.Bool.{true≢false}
use retux.Prelude.{
  ℕ, zero, suc, ◌+◌, ◌%◌, ◌==◌, if◌then◌else◌, true, false, ◌&&◌, ◌≡◌, ◌≢◌, ◌⊎◌, ◌<◌, ◌≤◌, refl,
  sym, ap, ◌∙◌, arith, Bool-cases, inl, inr, ==_iff, ==_refl,
}
use retux.Vmm.{present, huge, entry_phys, write, fill}
use retux.Vmm.Walk.{
  Tables, Tree, Reaches, lookup, through, through-rest, lookup-agree, index, index-lt, is_big, both,
}

-- Tables below a level that are the same give the same translation.
pub lookup-same :
    (t t' : Tables) (level : ℕ → ℕ) (l top virt : ℕ)
    → Tree t level
    → level top ≡ suc l
    → ((f j : ℕ) → level f ≢ 0 → level f ≤ suc l → t' f j ≡ t f j)
    → lookup t' l top virt ≡ lookup t l top virt
unfolding lookup
lookup-same t t' level zero top virt tree at_level same =
    ap (λ e. if present e then entry_phys e + virt % 4096 else 0)
      (same top (index 0 virt) (omega (arith, at_level)) (omega (arith, at_level)))
lookup-same t t' level (suc l) top virt tree at_level same =
    let j = index (suc l) virt in
    let e = t top j in
    ap (λ e. through (suc l) e (lookup t' l (entry_phys e) virt) virt)
      (same top j (omega (arith, at_level)) (omega (arith, at_level)))
    ∙ through-rest (suc l) e (lookup t' l (entry_phys e) virt) (lookup t l (entry_phys e) virt) virt
        (λ there small.
          let child_level = tree.child top j l (index-lt (suc l) virt) at_level there small in
          lookup-same t t' level l (entry_phys e) virt tree child_level
            (λ f j real low. same f j real (omega (arith, low))))

-- A table of which no entry is present.
pub lookup-empty :
    (t : Tables) (l top virt : ℕ) → ((j : ℕ) → present (t top j) ≡ false) → lookup t l top virt ≡ 0
unfolding lookup
lookup-empty t zero top virt empty = rw (empty (index 0 virt)) refl
lookup-empty t (suc l) top virt empty = rw (empty (index (suc l) virt)) refl

pub write-hit : (t : Tables) (table idx e : ℕ) → write t table idx e table idx ≡ e
write-hit t table idx e = rw (==_refl table, ==_refl idx) refl

-- A fresh frame that gets a place.
abbrev pub placed : (ℕ → ℕ) → (n v : ℕ) → ℕ → ℕ
placed p n v f = if f == n then v else p f

pub placed-new : (p : ℕ → ℕ) (n v : ℕ) → placed p n v n ≡ v
placed-new p n v = rw (==_refl n) refl

pub placed-old : (p : ℕ → ℕ) (n v f : ℕ) → f ≢ n → placed p n v f ≡ p f
placed-old p n v f ne = ground (arith, ne)

module _ (t : Tables) (level : ℕ → ℕ) (tree : Tree t level) (n : ℕ) (fresh : level n ≡ 0)
    (entry : ℕ → ℕ) (l : ℕ) where
  fresh-ne : (f : ℕ) → level f ≢ 0 → f ≢ n
  fresh-ne f real same = real (ap level same ∙ fresh)

  pub fill-old : (f j : ℕ) → level f ≢ 0 → fill t n entry f j ≡ t f j
  fill-old f j real = ground (arith, fresh-ne f real)

  old-level : (f m : ℕ) → placed level n (suc l) f ≡ suc m → f ≢ n → level f ≡ suc m
  old-level f m at ne = sym (placed-old level n (suc l) f ne) ∙ at

  -- A fresh table above the lowest level has nothing in it.
  fresh-absent :
      (f i m : ℕ)
      → (l ≡ 0) ⊎ ((j : ℕ) → present (entry j) ≡ false)
      → f ≡ n
      → placed level n (suc l) f ≡ suc (suc m)
      → present (fill t n entry f i) ≡ false
  fresh-absent f i m (inl low) same at =
      absurd (omega (arith, at, low, ap (placed level n (suc l)) same ∙ placed-new level n (suc l)))
  fresh-absent f i m (inr empty) same at =
      let here : (f == n) ≡ true = (==_iff f n).1 same in rw here (empty i)

  -- A fresh table of the lowest level, or without entries, is a table.
  pub fill-Tree :
      (l ≡ 0) ⊎ ((j : ℕ) → present (entry j) ≡ false)
      → Tree (fill t n entry) (placed level n (suc l))
  fill-Tree plain = record {
    child = λ f i m small at there not_big. (elim (Bool-cases (f == n)) [
      | inl same ↦
          absurd (true≢false (sym there ∙ fresh-absent f i m plain ((==_iff f n).0 same) at))
      | inr other ↦
          let ne : f ≢ n = λ z. ground (arith, other, z) in
          let at' = old-level f (suc m) at ne in
          let real : level f ≢ 0 = λ z. ground (arith, at', z) in
          let e = fill-old f i real in
          let child_level =
            tree.child f i m small at' (ap present (sym e) ∙ there)
              (ap (is_big (suc m)) (sym e) ∙ not_big) in
          let child_ne : entry_phys (t f i) ≢ n =
            fresh-ne (entry_phys (t f i)) (λ z. ground (arith, child_level, z)) in
          ap (λ x. placed level n (suc l) (entry_phys x)) e
          ∙ placed-old level n (suc l) (entry_phys (t f i)) child_ne
          ∙ child_level
    ]);
    flat = λ f i small at there. (elim (Bool-cases (f == n)) [
      | inl same ↦
          absurd (true≢false (sym there ∙ fresh-absent f i 1 plain ((==_iff f n).0 same) at))
      | inr other ↦
          let ne : f ≢ n = λ z. ground (arith, other, z) in
          let at' = old-level f 2 at ne in
          let real : level f ≢ 0 = λ z. ground (arith, at', z) in
          let e = fill-old f i real in
          ap huge e ∙ tree.flat f i small at' (ap present (sym e) ∙ there)
    ]);
  }

  -- No translation goes through it yet.
  pub fill-lookup :
      (m top virt : ℕ)
      → level top ≡ suc m
      → lookup (fill t n entry) m top virt ≡ lookup t m top virt
  fill-lookup m top virt at =
      lookup-same t (fill t n entry) level m top virt tree at (λ f j real _. fill-old f j real)

-- Another entry in a table.
module _ (t : Tables) (level : ℕ → ℕ) (tree : Tree t level) (table idx e k : ℕ)
    (here : level table ≡ suc k) (in_table : idx < 512) where
  pub write-old : (f j : ℕ) → ((f == table) && (j == idx)) ≡ false → write t table idx e f j ≡ t f j
  write-old f j miss = rw miss refl

  write-new : (f j : ℕ) → ((f == table) && (j == idx)) ≡ true → write t table idx e f j ≡ e
  write-new f j hit = rw hit refl

  pub write-Tree :
      ((l : ℕ) → k ≡ suc l → present e ≡ true → is_big k e ≡ false → level (entry_phys e) ≡ k)
      → (k ≡ 2 → huge e ≡ false)
      → Tree (write t table idx e) level
  write-Tree linked not_flat = record {
    child = λ f i m small at there not_big. (elim (Bool-cases ((f == table) && (i == idx))) [
      | inl hit ↦
          let (same, same_i) = both f table idx i hit in
          let new = write-new f i hit in
          let same_k : k ≡ suc m = omega (arith, at, here, ap level same) in
          let child_level =
            linked m same_k (ap present (sym new) ∙ there)
              (ap (λ q. is_big q e) same_k ∙ ap (is_big (suc m)) (sym new) ∙ not_big) in
          ap (λ x. level (entry_phys x)) new ∙ child_level ∙ same_k
      | inr miss ↦
          let old = write-old f i miss in
          let child_level =
            tree.child f i m small at (ap present (sym old) ∙ there)
              (ap (is_big (suc m)) (sym old) ∙ not_big) in
          ap (λ x. level (entry_phys x)) old ∙ child_level
    ]);
    flat = λ f i small at there. (elim (Bool-cases ((f == table) && (i == idx))) [
      | inl hit ↦
          let (same, same_i) = both f table idx i hit in
          ap huge (write-new f i hit) ∙ not_flat (omega (arith, at, here, ap level same))
      | inr miss ↦
          let old = write-old f i miss in
          ap huge old ∙ tree.flat f i small at (ap present (sym old) ∙ there)
    ]);
  }

  -- The translations, when what the entry leads to has not changed.
  pub write-lookup :
      (l top virt : ℕ)
      → level top ≡ suc l
      → (Reaches t l top virt k table
          → index k virt ≡ idx
          → lookup (write t table idx e) k table virt ≡ lookup t k table virt)
      → lookup (write t table idx e) l top virt ≡ lookup t l top virt
  write-lookup l top virt at behind =
      lookup-agree t (write t table idx e) level tree table idx k here
        (λ f j _ miss. write-old f j miss) l top virt at behind

pub lookup-entry :
    (t : Tables) (l table virt idx : ℕ)
    → index (suc l) virt ≡ idx
    → lookup t (suc l) table virt
      ≡ through (suc l) (t table idx) (lookup t l (entry_phys (t table idx)) virt) virt
unfolding lookup
lookup-entry t l table virt idx on_path =
    ap (λ j. through (suc l) (t table j) (lookup t l (entry_phys (t table j)) virt) virt) on_path

-- What a new entry above the lowest level leads to.
pub write-behind :
    (t : Tables) (level : ℕ → ℕ) (table idx e l virt : ℕ)
    → Tree t level
    → level table ≡ suc (suc l)
    → index (suc l) virt ≡ idx
    → (present e ≡ true → is_big (suc l) e ≡ false → level (entry_phys e) ≡ suc l)
    → lookup (write t table idx e) (suc l) table virt
      ≡ through (suc l) e (lookup t l (entry_phys e) virt) virt
write-behind t level table idx e l virt tree here on_path linked =
    let t' = write t table idx e in
    lookup-entry t' l table virt idx on_path
    ∙ ap (λ x. through (suc l) x (lookup t' l (entry_phys x) virt) virt) (write-hit t table idx e)
    ∙ through-rest (suc l) e (lookup t' l (entry_phys e) virt) (lookup t l (entry_phys e) virt) virt
        (λ there not_big.
          lookup-same t t' level l (entry_phys e) virt tree (linked there not_big) (λ f j _ low.
            let ne : f ≢ table = λ z. omega (arith, low, here, ap level z) in ground (arith, ne)))
