-- ===== src/Heap/FreeList.antt =====
-- The list of the free blocks of src/mem/heap.cpp, and the loop that takes a block off it.
use retux.Prelude.{
  ℕ, zero, suc, ◌≤◌, ◌<◌, ◌≡◌, ◌≢◌, refl, sym, ◌∙◌, ◌==◌, if◌then◌else◌, List, [], ◌∷◌, ◌⊎◌, some,
  arith, length, update, All, Bool-cases, inl, inr, ==_iff,
}
use retux.Heap.{Heap, unlink, remove_block_from_free_list}

-- The pointers lead from `p` through the blocks of the list to null.
abbrev pub Links : (ℕ → ℕ) → ℕ → List ℕ → Type 0
Links next p [] = p ≡ 0
Links next p (x ∷ xs) = (p ≡ x) × (x ≢ 0) × Links next (next x) xs

abbrev pub NotIn : ℕ → List ℕ → Type 0
NotIn q = All (λ x. q ≢ x)

abbrev pub Distinct : List ℕ → Type 0
Distinct [] = Unit {0}
Distinct (x ∷ xs) = NotIn x xs × Distinct xs

abbrev pub without : ℕ → List ℕ → List ℕ
without t [] = []
without t (x ∷ xs) = if x == t then xs else x ∷ without t xs

pub Links-frame :
    (next next' : ℕ → ℕ) (b p : ℕ) (xs : List ℕ)
    → ((q : ℕ) → q ≢ b → next' q ≡ next q)
    → NotIn b xs
    → Links next p xs
    → Links next' p xs
Links-frame next next' b p [] same out l = l
Links-frame next next' b p (x ∷ xs) same out (e, real, l) =
    let here = same x (λ z. out.0 (sym z)) in
    (e, real, Links-frame next next' b (next' x) xs same out.1 (rw here l))

-- `x` is on the list.
abbrev pub On : ℕ → List ℕ → Type 0
On x [] = ⊥
On x (y ∷ ys) = (x ≡ y) ⊎ On x ys

pub NotIn-On : (q x : ℕ) (xs : List ℕ) → NotIn q xs → On x xs → q ≢ x
NotIn-On q x [] out m = absurd m
NotIn-On q x (y ∷ ys) out (inl e) = λ z. out.0 (z ∙ e)
NotIn-On q x (y ∷ ys) out (inr m) = NotIn-On q x ys out.1 m

pub On-NotIn : (q : ℕ) (xs : List ℕ) → ¬ On q xs → NotIn q xs
On-NotIn q [] off = tt
On-NotIn q (x ∷ xs) off = (λ e. off (inl e), On-NotIn q xs (λ m. off (inr m)))

-- What is on the list without `t` is what is on the list and is not `t`.
pub On-without :
    (x t : ℕ) (xs : List ℕ)
    → Distinct xs
    → (On x (without t xs) → On x xs × (x ≢ t)) × (On x xs → x ≢ t → On x (without t xs))
On-without x t [] d = (λ m. absurd m, λ m _. m)
On-without x t (y ∷ ys) d = elim (Bool-cases (y == t)) [
  | inl e ↦
      let same : y ≡ t = (==_iff y t).0 e in
      rw e (
        λ m. (inr m, λ z. NotIn-On y x ys d.0 m (same ∙ sym z)),
        λ m ne. (elim m [ inl z ↦ absurd (ne (z ∙ same)) | inr m' ↦ m' ]),
      )
  | inr ne ↦
      let there = On-without x t ys d.1 in
      let other : y ≢ t = λ z. ground (arith, ne, z) in
      rw ne (
        λ m. (elim m [
          | inl z ↦ (inl z, λ w. other (sym z ∙ w))
          | inr m' ↦ (inr ((there.0 m').0), (there.0 m').1)
        ]),
        λ m w. (elim m [ inl z ↦ inl z | inr m' ↦ inr (there.1 m' w) ]),
      )
]

pub length-without : (t : ℕ) (xs : List ℕ) → length (without t xs) ≤ length xs
length-without t [] = omega arith
length-without t (x ∷ xs) = elim (Bool-cases (x == t)) [
  | inl e ↦ rw e (omega arith)
  | inr ne ↦ let there = length-without t xs in rw ne (omega arith)
]

pub NotIn-without : (q t : ℕ) (xs : List ℕ) → NotIn q xs → NotIn q (without t xs)
NotIn-without q t [] out = tt
NotIn-without q t (x ∷ xs) out = elim (Bool-cases (x == t)) [
  | inl e ↦ rw e out.1
  | inr ne ↦ rw ne (out.0, NotIn-without q t xs out.1)
]

pub Distinct-without : (t : ℕ) (xs : List ℕ) → Distinct xs → Distinct (without t xs)
Distinct-without t [] d = tt
Distinct-without t (x ∷ xs) d = elim (Bool-cases (x == t)) [
  | inl e ↦ rw e d.1
  | inr ne ↦ rw ne (NotIn-without x t xs d.0, Distinct-without t xs d.1)
]

unlink_here :
    (h : Heap) (prev x : ℕ) (xs : List ℕ)
    → Links h.next (h.next x) xs
    → NotIn prev xs
    → Links (update h.next prev (h.next x)) (update h.next prev (h.next x) prev) xs
unlink_here h prev x xs l out =
    let at : update h.next prev (h.next x) prev ≡ h.next x = ground arith in
    rw at (
      Links-frame h.next (update h.next prev (h.next x)) prev (h.next x) xs
        (λ q ne. ground (arith, ne)) out l)

-- The loop from a block `prev` on.
unlink_after :
    (fuel : ℕ) (h : Heap) (prev curr t : ℕ) (xs : List ℕ)
    → prev ≢ 0
    → h.next prev ≡ curr
    → Links h.next curr xs
    → NotIn prev xs
    → Distinct xs
    → length xs < fuel
    → (next : ℕ → ℕ) × (unlink fuel h prev curr t ≡ some (record h { next = next }))
      × Links next (next prev) (without t xs)
      × ((q : ℕ) → q ≢ prev → NotIn q xs → next q ≡ h.next q)
unfolding unlink remove_block_from_free_list
unlink_after zero h prev curr t xs real at l out d enough = elim enough [ ]
unlink_after (suc fuel) h prev curr t [] real at l out d enough =
    (h.next, ground (arith, l), at ∙ l, λ q _ _. refl)
unlink_after (suc fuel) h prev curr t (x ∷ xs) real at (e, real_x, l) out d enough =
    elim (Bool-cases (x == t)) [
      | inl found ↦ (
        update h.next prev (h.next x),
        ground (arith, found, e, real, real_x),
        rw found (unlink_here h prev x xs l out.1),
        λ q ne _. ground (arith, ne),
      )
      | inr other ↦
          let (next, run, l', same) =
            unlink_after fuel h x (h.next x) t xs real_x refl l d.0 d.1 (omega arith) in
          let at' : next prev ≡ x = same prev out.0 out.1 ∙ at ∙ e in
          (
            next,
            ground (arith, other, e, real_x, run),
            rw other (at', real_x, l'),
            λ q ne o. same q o.0 o.1,
          )
    ]

-- The whole loop: the blocks of the list but `t` are left, in their order.
pub unlink_lem :
    (fuel : ℕ) (h : Heap) (t : ℕ) (xs : List ℕ)
    → Links h.next h.free_list xs
    → Distinct xs
    → length xs < fuel
    → (next : ℕ → ℕ) × (list : ℕ) × (unlink fuel h 0 h.free_list t
        ≡ some (record h { next = next; free_list = list }))
      × Links next list (without t xs)
unfolding unlink remove_block_from_free_list
unlink_lem zero h t xs l d enough = elim enough [ ]
unlink_lem (suc fuel) h t [] l d enough = (h.next, h.free_list, ground (arith, l), l)
unlink_lem (suc fuel) h t (x ∷ xs) (e, real, l) d enough = elim (Bool-cases (x == t)) [
  | inl found ↦ (h.next, h.next x, ground (arith, found, e, real), rw found l)
  | inr other ↦
      let (next, run, l', same) =
        unlink_after fuel h x (h.next x) t xs real refl l d.0 d.1 (omega arith) in
      (next, x, ground (arith, other, e, real, run), rw other (refl, real, l'))
]
