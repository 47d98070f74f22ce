-- ===== src/Vmm/At.antt =====
-- The way to an address in the tables of src/mem/vmm.cpp, while tables are added to it, and the
-- write at its end.
use retux.Prelude.{
  ℕ, suc, ◌+◌, ◌/◌, ◌%◌, if◌then◌else◌, true, false, some, ◌≡◌, ◌≢◌, ◌<◌, ◌≤◌, refl, sym, ap, ◌∙◌,
  arith, subst,
}
use retux.Vmm.{Vmm, present, entry_phys, write, get_pml4, ensure_table, intermediate, virt_to_phys}
use retux.Vmm.Walk.{
  Tables, lookup, is_big, index, index-lt, Reaches, Reaches-step, Reaches-agree, Reaches-level,
  Reaches-unique, virt_to_phys-lookup, lookup-Reaches, Reaches-page, index-page,
}
use retux.Vmm.Tables.{write-hit, write-Tree, write-lookup}
use retux.Vmm.Entries.{intermediate_lem}
use retux.Vmm.Hidden.{Valid, Hidden, Hidden-higher, Hidden-trans}
use retux.Vmm.Ensure.{ensure_table_lem}

pub get_pml4-cr3 : (s s' : Vmm) → s'.cr3 ≡ s.cr3 → get_pml4 s' ≡ get_pml4 s
unfolding get_pml4
get_pml4-cr3 s s' same = ap entry_phys same

-- From the state before to one in which the walk to an address gets to a table of a level.
pub record At (s s' : Vmm) (level : ℕ → ℕ) (virt k table : ℕ) : Type 0 where
  pub level' : ℕ → ℕ
  pub hidden : Hidden s s' level level' 4
  pub path : Reaches s'.tables 3 (get_pml4 s) virt k table

module _ (s s1 : Vmm) (level : ℕ → ℕ) (virt k table : ℕ) (v : Valid s level)
    (here : At s s1 level virt k table) where
  pub At-Valid : Valid s1 here.level'
  At-Valid = here.hidden.valid

  pub At-root : get_pml4 s1 ≡ get_pml4 s
  At-root = get_pml4-cr3 s s1 here.hidden.same_root

  pub At-level : here.level' table ≡ suc k
  At-level =
      let v1 = At-Valid in
      Reaches-level s1.tables here.level' 3 (get_pml4 s) virt k table v1.tree
        (ap here.level' (sym At-root) ∙ v1.root) here.path

  -- A hidden change at this level or below.
  pub At-hidden :
      (s2 : Vmm) (level2 : ℕ → ℕ) (at : ℕ)
      → Hidden s1 s2 here.level' level2 at
      → at ≤ suc k
      → at ≤ 4
      → At s s2 level virt k table
  At-hidden s2 level2 at h le le' =
      let v1 = At-Valid in
      record {
        level' = level2;
        hidden =
            Hidden-trans s s1 s2 level here.level' level2 4 4 here.hidden
              (Hidden-higher s1 s2 here.level' level2 at 4 h le') (omega arith);
        path =
            Reaches-agree s1.tables s2.tables here.level' 3 (get_pml4 s) virt k table v1.tree
              (ap here.level' (sym At-root) ∙ v1.root)
              (λ f j lt. h.above f j (omega (arith, lt, le))) here.path;
      }

-- A table is ensured on the way.
pub At-ensure :
    (s s1 s2 : Vmm) (level : ℕ → ℕ) (virt k table flags child : ℕ)
    → Valid s level
    → suc k ≤ 3
    → (here : At s s1 level virt (suc k) table)
    → (present (s1.tables table (index (suc k) virt)) ≡ true
        → is_big (suc k) (s1.tables table (index (suc k) virt)) ≡ false)
    → ensure_table s1 table (index (suc k) virt) (intermediate flags) ≡ some (child, s2)
    → At s s2 level virt k child
At-ensure s s1 s2 level virt k table flags child v le here small run =
    let (odd, few) = intermediate_lem flags in
    let at_level = At-level s s1 level virt (suc k) table v here in
    let (level2, hidden, linked) =
      ensure_table_lem s1 here.level' (At-Valid s s1 level virt (suc k) table v here) table
        (index (suc k) virt) k at_level (index-lt (suc k) virt) (intermediate flags) child s2 odd
        few small run in
    let still =
      At-hidden s s1 level virt (suc k) table v here s2 level2 (suc (suc k)) hidden (omega arith)
        (omega (arith, le)) in
    record {
      level' = still.level';
      hidden = still.hidden;
      path =
          subst (λ c. Reaches s2.tables 3 (get_pml4 s) virt k c) (sym linked.leads)
            (Reaches-step s2.tables 3 (get_pml4 s) virt k table still.path linked.there
              linked.small);
    }

pub last_lookup :
    (t : Tables) (table virt e : ℕ)
    → t table (index 0 virt) ≡ e
    → lookup t 0 table virt ≡ (if present e then entry_phys e + virt % 4096 else 0)
unfolding lookup
last_lookup t table virt e same = rw same refl

-- The walks to two addresses read the same entry of the lowest level.
abbrev pub SameLeaf : Vmm → (u virt : ℕ) → Type 0
SameLeaf s u virt =
    (table : ℕ) × Reaches s.tables 3 (get_pml4 s) u 0 table
    × Reaches s.tables 3 (get_pml4 s) virt 0 table
    × (index 0 u ≡ index 0 virt)

-- The state after a write of the entry of an address in a table.
abbrev pub with_entry : Vmm → (table virt e : ℕ) → Vmm
with_entry s table virt e = record s { tables = write s.tables table (index 0 virt) e }

-- What a write at the end of the walk does.
pub At-write :
    (s s1 : Vmm) (level : ℕ → ℕ) (virt table e : ℕ)
    → Valid s level
    → (here : At s s1 level virt 0 table)
    → Valid (with_entry s1 table virt e) here.level'
      × Reaches
          (with_entry s1 table virt e).tables
          3
          (get_pml4 (with_entry s1 table virt e))
          virt
          0
          table
      × ((u : ℕ)
          → SameLeaf (with_entry s1 table virt e) u virt
          → virt_to_phys (with_entry s1 table virt e) u
            ≡ (if present e then entry_phys e + u % 4096 else 0))
      × ((u : ℕ)
          → ¬ SameLeaf (with_entry s1 table virt e) u virt
          → virt_to_phys (with_entry s1 table virt e) u ≡ virt_to_phys s u)
unfolding get_pml4
At-write s s1 level virt table e v here =
    let v1 = At-Valid s s1 level virt 0 table v here in
    let at_level = At-level s s1 level virt 0 table v here in
    let same_root = At-root s s1 level virt 0 table v here in
    let j = index 0 virt in
    let s' = with_entry s1 table virt e in
    let t' = s'.tables in
    let root = get_pml4 s1 in
    let small = index-lt 0 virt in
    let lower : (f i : ℕ) → 1 < here.level' f → t' f i ≡ s1.tables f i = λ f i lt.
      let ne : f ≢ table = λ z. omega (arith, lt, at_level, ap here.level' z) in
      ground (arith, ne) in
    let path : Reaches s1.tables 3 root virt 0 table =
      subst (λ c. Reaches s1.tables 3 c virt 0 table) (sym same_root) here.path in
    let path' =
      Reaches-agree s1.tables t' here.level' 3 root virt 0 table v1.tree v1.root lower path in
    (
      record {
        tree =
            write-Tree s1.tables here.level' v1.tree table j e 0 at_level small
              (λ l z. absurd (omega (arith, z))) (λ z. absurd (omega (arith, z)));
        root = v1.root;
        bytes = v1.bytes;
        taken = v1.taken;
      },
      path',
      λ u (table', way, way', same).
          let is : table' ≡ table = Reaches-unique t' 3 root virt 0 table' table way' path' in
          virt_to_phys-lookup s' u
          ∙ lookup-Reaches t' 3 root u 0 table' way
          ∙ last_lookup t' table' u e
              (ap (λ f. t' f (index 0 u)) is ∙ ap (t' table) same ∙ write-hit s1.tables table j e),
      λ u other.
          virt_to_phys-lookup s' u
          ∙ write-lookup s1.tables here.level' v1.tree table j e 0 at_level small 3 root u v1.root
              (λ way same. absurd (
                other (
                  table,
                  Reaches-agree s1.tables t' here.level' 3 root u 0 table v1.tree v1.root lower way,
                  path',
                  same,
                )))
          ∙ ap (λ c. lookup s1.tables 3 c u) same_root
          ∙ here.hidden.keeps u
          ∙ sym (virt_to_phys-lookup s u),
    )

-- The addresses of a page have their entry in common.
pub SameLeaf-page :
    (s : Vmm) (u virt table : ℕ)
    → Reaches s.tables 3 (get_pml4 s) virt 0 table
    → u / 4096 ≡ virt / 4096
    → SameLeaf s u virt
SameLeaf-page s u virt table path same = (
  table,
  Reaches-page s.tables 3 (get_pml4 s) u virt 0 table same path,
  path,
  index-page 0 u virt same,
)
