-- ===== src/UserMem/Calls.antt =====
-- mmap of src/cpu/syscall.cpp.
use mathlib.Core.Bool.{true≢false}
use retux.Prelude.{
  ℕ, zero, suc, ◌+◌, ◌-◌, ◌*◌, ◌/◌, ◌%◌, ◌^◌, ◌==◌, ltb, true, false, none, some, Option, ◌≡◌, ◌≢◌,
  ◌⊎◌, ◌<◌, ◌≤◌, refl, sym, ap, ◌∙◌, arith, Bool-cases, Option-cases, inl, inr,
}
use retux.Prelude.Int.{pos}
use retux.Pmm.{alloc_frame, is_used}
use retux.Pmm.Alloc.{alloc_frame-Allocates}
use retux.Vfs.{◌>>=◌}
use retux.Vmm
use retux.Vmm.{Vmm, virt_to_phys}
use retux.Vmm.Hidden.{Valid, alloc_frame-Fresh, virt_to_phys-pmm, Valid-pmm}
use retux.Vmm.Map.{Present, map_lem}
use retux.UserMem.{
  Space, Task, page_up, pages_between, flags_of, put_page, map_page, map_range, sys_mmap,
}

-- The pages that a number of bytes needs.
abbrev pub pages : ℕ → ℕ
pages x = (x + 4095) / 4096

pub page_up_lem : (x : ℕ) → x + 4095 < 2 ^ 64 → page_up x ≡ pages x * 4096
unfolding page_up
page_up_lem x word =
    let no_wrap : (x + 4096 - 1) % 2 ^ 64 ≡ x + 4095 = omega (arith, word) in rw no_wrap refl

flags_of-Present : (prot : ℕ) → Present (flags_of prot)
unfolding flags_of
flags_of-Present prot = elim (Bool-cases (prot / 2 % 2 == 0)) [
  | inl read_only ↦ (elim (Bool-cases (prot / 4 % 2 == 0)) [
    | inl data_only ↦ rw (read_only, data_only) (refl, omega arith, omega arith)
    | inr code ↦ rw (read_only, code) (refl, omega arith, omega arith)
  ])
  | inr writable ↦ (elim (Bool-cases (prot / 4 % 2 == 0)) [
    | inl data_only ↦ rw (writable, data_only) (refl, omega arith, omega arith)
    | inr code ↦ rw (writable, code) (refl, omega arith, omega arith)
  ])
]

put_page-out :
    (memory bytes : ℕ → ℕ) (f g j : ℕ)
    → j < 4096
    → g ≢ f
    → put_page memory (f * 4096) bytes (g * 4096 + j) ≡ memory (g * 4096 + j)
unfolding put_page
put_page-out memory bytes f g j small ne = ground (arith, small, ne)

-- The pages from `a` are mapped, nothing is unmapped, and the frames in use keep their use and their
-- bytes.
pub record Grown (sp sp' : Space) (a n : ℕ) : Type 0 where
  pub level : ℕ → ℕ
  pub valid : Valid sp'.vm level
  pub mapped : (u : ℕ) → a ≤ u / 4096 → u / 4096 < a + n → virt_to_phys sp'.vm u ≢ 0
  pub stays : (u : ℕ) → virt_to_phys sp.vm u ≢ 0 → virt_to_phys sp'.vm u ≢ 0
  pub in_use : (g : ℕ) → is_used sp.vm.pmm.bitmap g ≡ true → is_used sp'.vm.pmm.bitmap g ≡ true
  pub held :
      (g j : ℕ)
      → is_used sp.vm.pmm.bitmap g ≡ true
      → j < 4096
      → sp'.memory (g * 4096 + j) ≡ sp.memory (g * 4096 + j)

-- A fresh frame with some bytes in it is mapped at an address.
abbrev pub new_page : (bytes : ℕ → ℕ) → (va flags : ℕ) → Space → Option Space
new_page bytes va flags sp = alloc_frame sp.vm.pmm >>= λ got.
    Vmm.map (record sp.vm { pmm = got.1 }) va got.0 flags >>= λ vm.
    some (record { vm = vm; memory = put_page sp.memory got.0 bytes })

pub new_page_lem :
    (bytes : ℕ → ℕ) (sp : Space) (level : ℕ → ℕ) (a flags : ℕ)
    → Valid sp.vm level
    → is_used sp.vm.pmm.bitmap 0 ≡ true
    → Present flags
    → (new_page bytes (a * 4096) flags sp ≡ none)
      ⊎ ((sp' : Space) × (new_page bytes (a * 4096) flags sp ≡ some sp') × Grown sp sp' a 1)
new_page_lem bytes sp level a flags v null flag = elim (Option-cases (alloc_frame sp.vm.pmm)) [
  | inl full ↦ inl (rw full refl)
  | inr ((n, q), got) ↦
      let allocated = alloc_frame-Allocates sp.vm.pmm v.bytes got in
      let new = alloc_frame-Fresh sp.vm level n q v got in
      let f = n / 4096 in
      let whole : n ≡ f * 4096 = omega (arith, new.aligned) in
      let other : (g : ℕ) → is_used sp.vm.pmm.bitmap g ≡ true → g ≢ f =
        λ g used z. true≢false (sym used ∙ ap (is_used sp.vm.pmm.bitmap) z ∙ allocated.was_free) in
      let real : f ≢ 0 = λ z. other 0 null (sym z) in
      let s1 : Vmm = record sp.vm { pmm = q } in
      (elim (map_lem s1 level (a * 4096) n flags (Valid-pmm sp.vm level n q v new)
        (omega (arith, new.low)) flag) [
          | inl full ↦ inl (rw (got, full) refl)
          | inr (s2, run, m) ↦ inr (
            record { vm = s2; memory = put_page sp.memory n bytes },
            rw (got, run) refl,
            record {
              level = m.level;
              valid = m.valid;
              mapped = λ u from to z.
                  let page : u / 4096 ≡ a * 4096 / 4096 = omega (arith, from, to) in
                  omega (arith, m.shown u (m.page u page), z, real);
              stays = λ u shown z. shown (
                  sym (virt_to_phys-pmm sp.vm q u)
                  ∙ sym (m.others u (λ leaf. omega (arith, m.shown u leaf, z, real)))
                  ∙ z);
              in_use = λ g used. m.in_use g (new.kept g used);
              held = λ g j used small.
                  ap (λ b. put_page sp.memory b bytes (g * 4096 + j)) whole
                  ∙ put_page-out sp.memory bytes f g j small (other g used);
            },
          )
        ])
]

pub Grown-both :
    (sp sp1 sp' : Space) (a n : ℕ)
    → Grown sp sp1 a 1
    → Grown sp1 sp' (a + 1) n
    → Grown sp sp' a (suc n)
Grown-both sp sp1 sp' a n g1 g2 = record {
  level = g2.level;
  valid = g2.valid;
  mapped = λ u from to. elim (Bool-cases (ltb a (u / 4096))) [
    | inl later ↦ g2.mapped u (ground (arith, later)) (omega (arith, to))
    | inr here ↦ g2.stays u (g1.mapped u from (ground (arith, here)))
  ];
  stays = λ u shown. g2.stays u (g1.stays u shown);
  in_use = λ g used. g2.in_use g (g1.in_use g used);
  held = λ g j used small. g2.held g j (g1.in_use g used) small ∙ g1.held g j used small;
}

pub Grown-refl : (sp : Space) (level : ℕ → ℕ) (a : ℕ) → Valid sp.vm level → Grown sp sp a 0
Grown-refl sp level a v = record {
  level = level;
  valid = v;
  mapped = λ u from to. absurd (omega (arith, from, to));
  stays = λ u shown. shown;
  in_use = λ g used. used;
  held = λ g j used small. refl;
}

map_range_lem :
    (rounds : ℕ) (sp : Space) (level : ℕ → ℕ) (a flags : ℕ)
    → Valid sp.vm level
    → is_used sp.vm.pmm.bitmap 0 ≡ true
    → Present flags
    → (map_range rounds (a * 4096) flags sp ≡ none)
      ⊎ ((sp' : Space) × (map_range rounds (a * 4096) flags sp ≡ some sp') × Grown sp sp' a rounds)
unfolding map_range map_page
map_range_lem zero sp level a flags v null flag = inr (sp, refl, Grown-refl sp level a v)
map_range_lem (suc rounds) sp level a flags v null flag =
    elim (new_page_lem (λ _. 0) sp level a flags v null flag) [
      | inl full ↦ inl (rw full refl)
      | inr (sp1, run, g1) ↦
          let next : a * 4096 + 4096 ≡ (a + 1) * 4096 = omega arith in
          (elim (map_range_lem rounds sp1 g1.level (a + 1) flags g1.valid (g1.in_use 0 null) flag) [
            | inl full ↦ inl (rw (run, next, full) refl)
            | inr (sp', rest, g2) ↦
                inr (sp', rw (run, next, rest) refl, Grown-both sp sp1 sp' a rounds g1 g2)
          ])
    ]

-- On tables that have their levels below the root, in frames that are not free, with no page of 1
-- GiB, and with frame 0 not free, from a page-aligned bump pointer, for an anonymous request of
-- some bytes that ends below 2^64, mmap halts or returns the pointer and advances it by the pages
-- of the request; then every address of these pages is mapped, every address that was mapped still
-- is, and the frames in use stay in use and keep their bytes.
pub sys_mmap_lem :
    (t : Task) (sp : Space) (level : ℕ → ℕ) (len prot flags i : ℕ)
    → Valid sp.vm level
    → is_used sp.vm.pmm.bitmap 0 ≡ true
    → t.mmap_next ≡ i * 4096
    → flags / 32 % 2 ≡ 1
    → 0 < len
    → i * 4096 + len + 4095 < 2 ^ 64
    → (sys_mmap t sp len prot flags ≡ none)
      ⊎ ((sp' : Space) × (sys_mmap t sp len prot flags
            ≡ some (pos (i * 4096), record t { mmap_next = (i + pages len) * 4096 }, sp'))
          × Grown sp sp' i (pages len))
unfolding sys_mmap
sys_mmap_lem t sp level len prot flags i v null aligned anonymous some_byte fits =
    let n = pages len in
    let up = page_up_lem len (omega (arith, fits)) in
    let anon : (flags / 32 % 2 == 0) ≡ false = ground (arith, anonymous) in
    let more : (len == 0) ≡ false = ground (arith, some_byte) in
    let end : (i * 4096 + n * 4096) % 2 ^ 64 ≡ (i + n) * 4096 = omega (arith, fits) in
    let count : pages_between (i * 4096) ((i + n) * 4096) ≡ n = omega arith in
    elim (map_range_lem n sp level i (flags_of prot) v null (flags_of-Present prot)) [
      | inl full ↦ inl (rw (anon, more, aligned, up, end, count, full) refl)
      | inr (sp', run, g) ↦ inr (sp', rw (anon, more, aligned, up, end, count, run) refl, g)
    ]
