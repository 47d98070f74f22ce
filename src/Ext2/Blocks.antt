-- ===== src/Ext2/Blocks.antt =====
-- The tree of block pointers of src/fs/ext2.cpp: the blocks of a file in order are the paths through
-- it, in order.
use native.Mathlib.Nat.{
  mul-add-div_right, mul-add-mod_self_right, div-eq_of_lt, div-lt_iff_lt-mul, div-add-mod', mod-lt,
  mod-eq_of_lt,
}
use retux.Prelude.{
  ℕ, zero, suc, ◌+◌, ◌-◌, ◌*◌, ◌/◌, ◌%◌, ◌^◌, ltb, ◌≤◌, ◌<◌, ◌≡◌, ◌⊎◌, inl, inr, refl, ap, ◌∙◌,
  arith, List, [], ◌∷◌, All, Bool-cases, length,
}
use retux.Ext2.{Ext2State, Ext2Inode, pointer_in, resolve_block}

-- The block at the end of a path of indices.
abbrev pub follow : Ext2State → (block : ℕ) → List ℕ → ℕ
follow st block [] = block
follow st block (i ∷ path) = follow st (pointer_in st block i) path

-- The number that indices below `p` spell.
abbrev pub value : (p acc : ℕ) → List ℕ → ℕ
value p acc [] = acc
value p acc (i ∷ path) = value p (acc * p + i) path

-- The blocks under a tree of pointers.
abbrev pub width : (p levels : ℕ) → ℕ
width p zero = 1
width p (suc levels) = width p levels * p

-- The blocks under the direct pointers and under the trees with fewer levels.
abbrev pub before : (p levels : ℕ) → ℕ
before p zero = 12
before p (suc levels) = before p levels + width p (suc levels)

-- Where a block of a file is found.
abbrev pub Resolved : Ext2State → Ext2Inode → (p logical : ℕ) → Type 0
Resolved st di p logical =
    ((logical < 12) × (resolve_block st di logical ≡ di.i_block logical))
    ⊎ (((path : List ℕ) × (levels : ℕ) × (length path ≡ suc levels)
          × (levels < 3)
          × All (λ i. i < p) path
          × (logical ≡ before p levels + value p 0 path)
          × (resolve_block st di logical ≡ follow st (di.i_block (12 + levels)) path))
        ⊎ ((before p 3 ≤ logical) × (resolve_block st di logical ≡ 0)))

-- A digit and what is below it.
pub div_digits : (i j p : ℕ) → j < p → (i * p + j) / p ≡ i
div_digits i j p low =
    mul-add-div_right (omega (arith, low)) i j ∙ ap (λ q. i + q) (div-eq_of_lt low) ∙ omega arith

pub mod_digits : (i j p : ℕ) → j < p → (i * p + j) % p ≡ j
mod_digits i j p low = mul-add-mod_self_right i p j ∙ mod-eq_of_lt low

positive : (t p : ℕ) → t < p * p → 0 < p
positive t zero h = absurd (omega (arith, h))
positive t (suc p) h = omega arith

two_digits : (t p : ℕ) → t < p * p → (t / p < p) × (t % p < p) × (t / p * p + t % p ≡ t)
two_digits t p h =
    let some_p = positive t p h in
    ((div-lt_iff_lt-mul some_p).1 h, mod-lt t some_p, div-add-mod' t p)

three_digits :
    (t p : ℕ)
    → t < p * p * p
    → (t / (p * p) < p) × (t % (p * p) < p * p) × (t / (p * p) * (p * p) + t % (p * p) ≡ t)
three_digits t zero h = absurd (omega (arith, h))
three_digits t (suc p) h =
    let some_p : 0 < suc p * suc p = grind arith in
    let h' : t < suc p * (suc p * suc p) = grind arith in
    ((div-lt_iff_lt-mul some_p).1 h', mod-lt t some_p, div-add-mod' t (suc p * suc p))

-- The product of a number and itself is below its cube.
square-word : (p : ℕ) → p * p * p < 2 ^ 32 → p * p < 2 ^ 32
square-word zero h = omega arith
square-word (suc p) h =
    let more : suc p * suc p ≤ suc p * suc p * suc p = grind arith in omega (arith, more, h)

horner : (t h l p : ℕ) → ((0 * p + t) * p + h) * p + l ≡ t * (p * p) + (h * p + l)
horner t h l p = grind arith

module _ (st : Ext2State) (di : Ext2Inode) (p : ℕ) (size : st.block_size / 4 ≡ p)
    (word : p * p * p < 2 ^ 32) where
  square : p * p % 2 ^ 32 ≡ p * p
  square = mod-eq_of_lt (square-word p word)

  -- With p pointers to a block and p^3 below 2^32, resolve_block gives a direct pointer for the
  -- first 12 blocks, then what the paths of one, two and three indices below p lead to, where the
  -- number of the block is the number that the path spells after those before it, and 0 behind the
  -- last path.
  pub resolve_block_lem : (logical : ℕ) → Resolved st di p logical
  unfolding resolve_block
  resolve_block_lem logical =
      let cube : p * p * p % 2 ^ 32 ≡ p * p * p = omega (arith, word) in
      let single = logical - 12 in
      let double = single - p in
      let triple = double - p * p in
      elim (Bool-cases (ltb logical 12)) [
        | inl direct ↦ inl (ground (arith, direct), rw direct refl)
        | inr l0 ↦
            let l0' : 12 ≤ logical = ground (arith, l0) in
            (elim (Bool-cases (ltb single p)) [
              | inl one ↦ inr (
                  inl (
                    single ∷ [],
                    0,
                    refl,
                    omega arith,
                    (ground (arith, one), tt),
                    ground (arith, l0),
                    rw (l0, size, one) refl,
                  ))
              | inr l1 ↦
                  let l1' : p ≤ single = ground (arith, l1) in
                  (elim (Bool-cases (ltb double (p * p))) [
                    | inl two ↦
                        let below : double < p * p = ground (arith, two) in
                        let (high, low, whole) = two_digits double p below in
                        inr (
                          inl (
                            double / p ∷ double % p ∷ [],
                            1,
                            refl,
                            omega arith,
                            (high, (low, tt)),
                            omega (arith, whole, l0', l1'),
                            rw (l0, size, l1, square, two) refl,
                          ))
                    | inr l2 ↦
                        let l2' : p * p ≤ double = ground (arith, l2) in
                        (elim (Bool-cases (ltb triple (p * p * p))) [
                          | inl three ↦
                              let below : triple < p * p * p = ground (arith, three) in
                              let (top, inner, whole) = three_digits triple p below in
                              let (high, low, parts) = two_digits (triple % (p * p)) p inner in
                              inr (
                                inl (
                                  triple / (p * p)
                                      ∷ triple % (p * p) / p
                                      ∷ triple % (p * p) % p
                                      ∷ [],
                                  2,
                                  refl,
                                  omega arith,
                                  (top, (high, (low, tt))),
                                  omega (
                                    arith,
                                    whole,
                                    parts,
                                    l0',
                                    l1',
                                    l2',
                                    horner (triple / (p * p)) (triple % (p * p) / p)
                                        (triple % (p * p) % p) p,
                                  ),
                                  rw (l0, size, l1, square, l2, cube, three) refl,
                                ))
                          | inr l3 ↦
                              let l3' : p * p * p ≤ triple = ground (arith, l3) in
                              inr (
                                inr (
                                  omega (arith, l0', l1', l2', l3'),
                                  rw (l0, size, l1, square, l2, cube, l3) refl,
                                ))
                        ])
                  ])
            ])
      ]
