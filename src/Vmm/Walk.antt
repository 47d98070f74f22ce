-- ===== src/Vmm/Walk.antt =====
-- The walk of src/mem/vmm.cpp through the tables, level by level, and what a write to one table
-- changes of it.
use native.Mathlib.Nat.{div-div-eq-div-mul, div-add-mod', mod-lt}
use retux.Prelude.{
  ℕ, zero, suc, ◌+◌, ◌*◌, ◌/◌, ◌%◌, ◌==◌, if◌then◌else◌, Bool, true, false, ◌&&◌, ◌≡◌, ◌≢◌, ◌⊎◌,
  ◌<◌, ◌≤◌, refl, sym, ap, ◌∙◌, arith, Bool-cases, inl, inr, subst,
}
use retux.Vmm.{Vmm, present, huge, entry_phys, get_pml4, virt_to_phys}

abbrev pub Tables : Type 0
Tables = ℕ → ℕ → ℕ

-- The bytes that an entry of a level covers.
abbrev pub unit : ℕ → ℕ
unit zero = 4096
unit (suc l) = unit l * 512

abbrev pub index : (l virt : ℕ) → ℕ
index l virt = virt / unit l % 512

-- Huge pages are known to the two levels above the lowest.
abbrev pub is_big : (l e : ℕ) → Bool
is_big (suc zero) e = huge e
is_big (suc (suc zero)) e = huge e
is_big l e = false

-- What an entry above the lowest level gives, with what the table behind it gives.
abbrev pub through : (l e rest virt : ℕ) → ℕ
through l e rest virt =
    if present e
    then if is_big l e then entry_phys e / unit l * unit l + virt % unit l else rest
    else 0

-- The translation from a table of a level on, 0 where nothing is mapped.
unfoldable pub lookup : Tables → (l table virt : ℕ) → ℕ
lookup t zero table virt =
    let e = t table (index 0 virt) in if present e then entry_phys e + virt % 4096 else 0
lookup t (suc l) table virt =
    let e = t table (index (suc l) virt) in through (suc l) e (lookup t l (entry_phys e) virt) virt

pub virt_to_phys-lookup :
    (s : Vmm) (virt : ℕ) → virt_to_phys s virt ≡ lookup s.tables 3 (get_pml4 s) virt
unfolding virt_to_phys lookup
virt_to_phys-lookup s virt = refl

pub index-split : (l virt : ℕ) → virt / unit l ≡ virt / unit (suc l) * 512 + index l virt
index-split l virt =
    sym (div-add-mod' (virt / unit l) 512)
    ∙ ap (λ q. q * 512 + index l virt) (div-div-eq-div-mul virt (unit l) 512)

pub index-lt : (l virt : ℕ) → index l virt < 512
index-lt l virt = mod-lt (virt / unit l) (omega arith)

pub through-rest :
    (l e r r' virt : ℕ)
    → (present e ≡ true → is_big l e ≡ false → r ≡ r')
    → through l e r virt ≡ through l e r' virt
through-rest l e r r' virt same = elim (Bool-cases (present e)) [
  | inr absent ↦ rw absent refl
  | inl there ↦ (elim (Bool-cases (is_big l e)) [
    | inl big ↦ rw (there, big) refl
    | inr small ↦ rw (there, small) (same there small)
  ])
]

-- Every table has a level, counted from 1. Several entries may lead to one table.
pub record Tree (t : Tables) (level : ℕ → ℕ) : Type 0 where
  pub child :
      (f i l : ℕ)
      → i < 512
      → level f ≡ suc (suc l)
      → present (t f i) ≡ true
      → is_big (suc l) (t f i) ≡ false
      → level (entry_phys (t f i)) ≡ suc l
  pub flat : (f i : ℕ) → i < 512 → level f ≡ 3 → present (t f i) ≡ true → huge (t f i) ≡ false

-- The walk to an address goes through a table.
abbrev pub Reaches : Tables → (l top virt k table : ℕ) → Type 0
Reaches t zero top virt k table = (k ≡ 0) × (table ≡ top)
Reaches t (suc l) top virt k table =
    ((k ≡ suc l) × (table ≡ top))
    ⊎ ((present (t top (index (suc l) virt)) ≡ true)
        × (is_big (suc l) (t top (index (suc l) virt)) ≡ false)
        × Reaches t l (entry_phys (t top (index (suc l) virt))) virt k table)

pub Reaches-here : (t : Tables) (l top virt : ℕ) → Reaches t l top virt l top
Reaches-here t zero top virt = (refl, refl)
Reaches-here t (suc l) top virt = inl (refl, refl)

-- The tables are the same but for one entry.
abbrev pub Agree : (t t' : Tables) (level : ℕ → ℕ) (table i : ℕ) → Type 0
Agree t t' level table i =
    (f j : ℕ) → level f ≢ 0 → ((f == table) && (j == i)) ≡ false → t' f j ≡ t f j

pub both : (f g i j : ℕ) → ((f == g) && (j == i)) ≡ true → (f ≡ g) × (j ≡ i)
both f g i j e = (ground (arith, e), ground (arith, e))

module _ (t t' : Tables) (level : ℕ → ℕ) (tree : Tree t level) (table i k : ℕ)
    (here : level table ≡ suc k) (agree : Agree t t' level table i) where
  hit_case :
      (l top virt : ℕ)
      → level top ≡ suc l
      → ((top == table) && (index l virt == i)) ≡ true
      → (Reaches t l top virt k table
          → index k virt ≡ i
          → lookup t' k table virt ≡ lookup t k table virt)
      → lookup t' l top virt ≡ lookup t l top virt
  hit_case l top virt at_level hit behind =
      let (same_table, same_i) = both top table i (index l virt) hit in
      let same_l : l ≡ k = omega (arith, at_level, here, ap level same_table) in
      let path : Reaches t l top virt k table =
        subst (λ m. Reaches t l top virt m table) same_l
          (subst (λ f. Reaches t l top virt l f) same_table (Reaches-here t l top virt)) in
      let on_path : index k virt ≡ i = ap (λ m. index m virt) (sym same_l) ∙ same_i in
      rw (same_table, same_l) (behind path on_path)

  -- A walk that does not change behind the entry gives the same translation.
  pub lookup-agree :
      (l top virt : ℕ)
      → level top ≡ suc l
      → (Reaches t l top virt k table
          → index k virt ≡ i
          → lookup t' k table virt ≡ lookup t k table virt)
      → lookup t' l top virt ≡ lookup t l top virt
  unfolding lookup
  lookup-agree zero top virt at_level behind =
      elim (Bool-cases ((top == table) && (index 0 virt == i))) [
        | inl hit ↦ hit_case 0 top virt at_level hit behind
        | inr miss ↦
            ap (λ e. if present e then entry_phys e + virt % 4096 else 0)
              (agree top (index 0 virt) (omega (arith, at_level)) miss)
      ]
  lookup-agree (suc l) top virt at_level behind =
      let j = index (suc l) virt in
      let e = t top j in
      elim (Bool-cases ((top == table) && (j == i))) [
        | inl hit ↦ hit_case (suc l) top virt at_level hit behind
        | inr miss ↦
            ap (λ e. through (suc l) e (lookup t' l (entry_phys e) virt) virt)
              (agree top j (omega (arith, at_level)) miss)
            ∙ through-rest (suc l) e (lookup t' l (entry_phys e) virt)
                (lookup t l (entry_phys e) virt) virt
                (λ there small.
                  lookup-agree l (entry_phys e) virt
                    (tree.child top j l (index-lt (suc l) virt) at_level there small)
                    (λ path on_path. behind (inr (there, small, path)) on_path))
      ]

pub lookup-Reaches :
    (t : Tables) (l top virt k table : ℕ)
    → Reaches t l top virt k table
    → lookup t l top virt ≡ lookup t k table virt
unfolding lookup
lookup-Reaches t zero top virt k table (same_k, same) = rw (same_k, same) refl
lookup-Reaches t (suc l) top virt k table (inl (same_k, same)) = rw (same_k, same) refl
lookup-Reaches t (suc l) top virt k table (inr (there, small, later)) =
    rw (there, small)
      (lookup-Reaches t l (entry_phys (t top (index (suc l) virt))) virt k table later)

Reaches-le : (t : Tables) (l top virt k table : ℕ) → Reaches t l top virt k table → k ≤ l
Reaches-le t zero top virt k table (z, _) = omega (arith, z)
Reaches-le t (suc l) top virt k table (inl (same, _)) = omega (arith, same)
Reaches-le t (suc l) top virt k table (inr (_, _, later)) =
    omega (arith, Reaches-le t l (entry_phys (t top (index (suc l) virt))) virt k table later)

-- A walk goes through one table of a level.
pub Reaches-unique :
    (t : Tables) (l top virt k a b : ℕ)
    → Reaches t l top virt k a
    → Reaches t l top virt k b
    → a ≡ b
Reaches-unique t zero top virt k a b (_, p) (_, q) = p ∙ sym q
Reaches-unique t (suc l) top virt k a b (inl (_, p)) (inl (_, q)) = p ∙ sym q
Reaches-unique t (suc l) top virt k a b (inl (z, _)) (inr (_, _, later)) =
    absurd
      (omega (arith, z, Reaches-le t l (entry_phys (t top (index (suc l) virt))) virt k b later))
Reaches-unique t (suc l) top virt k a b (inr (_, _, later)) (inl (z, _)) =
    absurd
      (omega (arith, z, Reaches-le t l (entry_phys (t top (index (suc l) virt))) virt k a later))
Reaches-unique t (suc l) top virt k a b (inr (_, _, p)) (inr (_, _, q)) =
    Reaches-unique t l (entry_phys (t top (index (suc l) virt))) virt k a b p q

-- A walk that gets to a leaf table goes through present entries.
pub Reaches-present :
    (t : Tables) (l top virt k a b : ℕ)
    → Reaches t l top virt (suc k) a
    → Reaches t l top virt 0 b
    → present (t a (index (suc k) virt)) ≡ true
Reaches-present t zero top virt k a b (z, _) leaf = absurd (omega (arith, z))
Reaches-present t (suc l) top virt k a b way (inl (z, _)) = absurd (omega (arith, z))
Reaches-present t (suc l) top virt k a b (inl (same_k, same)) (inr (there, _, _)) =
    let level : k ≡ l = omega (arith, same_k) in
    ap (λ f. present (t f (index (suc k) virt))) same
    ∙ ap (λ m. present (t top (index (suc m) virt))) level
    ∙ there
Reaches-present t (suc l) top virt k a b (inr (_, _, way)) (inr (_, _, leaf)) =
    Reaches-present t l (entry_phys (t top (index (suc l) virt))) virt k a b way leaf

-- Writes to tables at or below the one that is reached leave the walk as it is.
pub Reaches-agree :
    (t t' : Tables) (level : ℕ → ℕ) (l top virt k table : ℕ)
    → Tree t level
    → level top ≡ suc l
    → ((f j : ℕ) → suc k < level f → t' f j ≡ t f j)
    → Reaches t l top virt k table
    → Reaches t' l top virt k table
Reaches-agree t t' level zero top virt k table tree at_level agree path = path
Reaches-agree t t' level (suc l) top virt k table tree at_level agree (inl same) = inl same
Reaches-agree t t' level (suc l) top virt k table tree at_level agree (inr (there, small, later)) =
    let j = index (suc l) virt in
    let low = Reaches-le t l (entry_phys (t top j)) virt k table later in
    let child_level = tree.child top j l (index-lt (suc l) virt) at_level there small in
    let same : t' top j ≡ t top j = agree top j (omega (arith, at_level, low)) in
    inr (
      subst
        (λ e.
          (present e ≡ true)
          × (is_big (suc l) e ≡ false)
          × Reaches t' l (entry_phys e) virt k table)
        (sym same)
        (
          there,
          small,
          Reaches-agree t t' level l (entry_phys (t top j)) virt k table tree child_level agree
              later,
        ))

-- One step on.
pub Reaches-step :
    (t : Tables) (l top virt k table : ℕ)
    → Reaches t l top virt (suc k) table
    → present (t table (index (suc k) virt)) ≡ true
    → is_big (suc k) (t table (index (suc k) virt)) ≡ false
    → Reaches t l top virt k (entry_phys (t table (index (suc k) virt)))
Reaches-step t zero top virt k table (z, _) there small = absurd (omega (arith, z))
Reaches-step t (suc l) top virt k table (inl (same_k, same)) there small =
    let same_l : l ≡ k = omega (arith, same_k) in
    subst (λ n. Reaches t (suc n) top virt k (entry_phys (t table (index (suc k) virt))))
      (sym same_l)
      (subst (λ f. Reaches t (suc k) f virt k (entry_phys (t table (index (suc k) virt)))) same
        (inr (there, small, Reaches-here t k (entry_phys (t table (index (suc k) virt))) virt)))
Reaches-step t (suc l) top virt k table (inr (there', small', later)) there small = inr (
  there',
  small',
  Reaches-step t l (entry_phys (t top (index (suc l) virt))) virt k table later there small,
)

pub Reaches-level :
    (t : Tables) (level : ℕ → ℕ) (l top virt k table : ℕ)
    → Tree t level
    → level top ≡ suc l
    → Reaches t l top virt k table
    → level table ≡ suc k
Reaches-level t level zero top virt k table tree at_level (same_k, same) =
    rw (same_k, same) at_level
Reaches-level t level (suc l) top virt k table tree at_level (inl (same_k, same)) =
    rw (same_k, same) at_level
Reaches-level t level (suc l) top virt k table tree at_level (inr (there, small, later)) =
    let j = index (suc l) virt in
    Reaches-level t level l (entry_phys (t top j)) virt k table tree
      (tree.child top j l (index-lt (suc l) virt) at_level there small) later

-- Addresses of one page take the same way.
unit-page : (l u virt : ℕ) → u / 4096 ≡ virt / 4096 → u / unit l ≡ virt / unit l
unit-page zero u virt same = same
unit-page (suc l) u virt same =
    sym (div-div-eq-div-mul u (unit l) 512)
    ∙ ap (λ q. q / 512) (unit-page l u virt same)
    ∙ div-div-eq-div-mul virt (unit l) 512

pub index-page : (l u virt : ℕ) → u / 4096 ≡ virt / 4096 → index l u ≡ index l virt
index-page l u virt same = ap (λ q. q % 512) (unit-page l u virt same)

pub Reaches-page :
    (t : Tables) (l top u virt k table : ℕ)
    → u / 4096 ≡ virt / 4096
    → Reaches t l top virt k table
    → Reaches t l top u k table
Reaches-page t zero top u virt k table same path = path
Reaches-page t (suc l) top u virt k table same (inl here) = inl here
Reaches-page t (suc l) top u virt k table same (inr (there, small, later)) =
    let later' =
      Reaches-page t l (entry_phys (t top (index (suc l) virt))) u virt k table same later in
    inr (
      subst
        (λ i.
          (present (t top i) ≡ true)
          × (is_big (suc l) (t top i) ≡ false)
          × Reaches t l (entry_phys (t top i)) u k table)
        (sym (index-page (suc l) u virt same)) (there, small, later'))
