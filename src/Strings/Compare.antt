-- ===== src/Strings/Compare.antt =====
-- What the comparisons and the lengths of src/lib/string.cpp say of strings.
use mathlib.Core.List.{nil≢cons, head-eq_of_cons-eq, tail-eq_of_cons-eq}
use retux.Prelude.{sym, ℕ, zero, suc, ◌≡◌, ◌≢◌, ◌↔◌, refl, List, [], ◌∷◌, arith, length, All, min}
use retux.Prelude.Int.{pos, sub_ℕ}
use retux.Strings.{strcmp, strlen, strnlen}

abbrev pub NulFree : List ℕ → Type 0
NulFree = All (λ c. c ≢ 0)

sub_ℕ-zero : (a b : ℕ) → sub_ℕ a b ≡ pos 0 → a ≡ b
sub_ℕ-zero a b e = ground (arith, e)

-- strcmp is 0 exactly on equal strings; neither holds a NUL.
pub strcmp-zero_iff : (s t : List ℕ) → NulFree s → NulFree t → (strcmp s t ≡ pos 0) ↔ (s ≡ t)
unfolding strcmp
strcmp-zero_iff [] [] f g = (λ _. refl, λ _. refl)
strcmp-zero_iff [] (b ∷ t) f g =
    (λ e. absurd (g.0 (sym (sub_ℕ-zero 0 b e))), λ e. absurd (nil≢cons e))
strcmp-zero_iff (a ∷ s) [] f g =
    (λ e. absurd (f.0 (sub_ℕ-zero a 0 e)), λ e. absurd (nil≢cons (sym e)))
strcmp-zero_iff (a ∷ s) (b ∷ t) f g =
    let (to, from) = strcmp-zero_iff s t f.1 g.1 in
    (
      λ e.
          let heads : a ≡ b = ground (arith, f.0, g.0, e, sub_ℕ-zero a b) in
          let tails : s ≡ t = to (ground (arith, f.0, g.0, e, heads)) in rw (heads, tails) refl,
      λ e. ground (arith, f.0, g.0, head-eq_of_cons-eq e, from (tail-eq_of_cons-eq e)),
    )

-- Of a string without a NUL `strlen` is the length, and `strnlen` the lesser of it and the bound.
pub strnlen_lem : (max : ℕ) (s : List ℕ) → NulFree s → strnlen s max ≡ min (length s) max
unfolding strnlen
strnlen_lem zero s f = omega arith
strnlen_lem (suc max) [] f = omega arith
strnlen_lem (suc max) (c ∷ s) f = ground (arith, f.0, strnlen_lem max s f.1)

pub strlen_lem : (s : List ℕ) → NulFree s → strlen s ≡ length s
unfolding strlen
strlen_lem [] f = refl
strlen_lem (c ∷ s) f = ground (arith, f.0, strlen_lem s f.1)
