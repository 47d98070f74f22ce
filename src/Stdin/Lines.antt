-- ===== src/Stdin/Lines.antt =====
-- What the line editor of src/cpu/syscall.cpp makes of typed lines.
use mathlib.Core.List.{append_assoc}
use retux.Prelude.{
  ℕ, ◌+◌, ◌-◌, ◌<◌, ◌≡◌, ◌≢◌, refl, ap, ◌∙◌, true, false, some, List, [], ◌∷◌, ◌++◌, arith, length,
  length-append, All,
}
use retux.Stdin.{Stdin, line_cap, type_key, type_line}

-- A character that the editor only stores.
abbrev pub Plain : ℕ → Type 0
Plain c = (c ≢ 0) × (c ≢ 8) × (c ≢ 10)

type_key-Plain :
    (st : Stdin) (c : ℕ)
    → Plain c
    → length st.line < line_cap - 1
    → type_key st c ≡ record st { line = st.line ++ c ∷ []; echoed = st.echoed ++ c ∷ [] }
unfolding type_key
type_key-Plain st c (a, b, d) room = ground (arith, a, b, d, room)

type_key-newline :
    (st : Stdin)
    → length st.line < line_cap - 1
    → type_key st 10
      ≡ record st { line = st.line ++ 10 ∷ []; echoed = st.echoed ++ 10 ∷ []; ready = true }
unfolding type_key
type_key-newline st room = ground (arith, room)

pub type_line-ready :
    (st : Stdin) (keys : List ℕ) → st.ready ≡ true → type_line st keys ≡ some (st, keys)
unfolding type_line
type_line-ready st [] r = rw r refl
type_line-ready st (c ∷ keys) r = rw r refl

pub type_line-step :
    (st : Stdin) (c : ℕ) (keys : List ℕ)
    → st.ready ≡ false
    → type_line st (c ∷ keys) ≡ type_line (type_key st c) keys
unfolding type_line
type_line-step st c keys editing = rw editing refl

-- Plain text and then a new line.
pub type_line-text :
    (st : Stdin) (text keys : List ℕ)
    → st.ready ≡ false
    → All Plain text
    → length st.line + length text < line_cap - 1
    → type_line st (text ++ 10 ∷ keys)
      ≡ some (
        record st {
          line = st.line ++ (text ++ 10 ∷ []);
          echoed = st.echoed ++ (text ++ 10 ∷ []);
          ready = true;
        },
        keys,
      )
unfolding type_line
type_line-text st [] keys editing plain room =
    let st' : Stdin = record st {
      line = st.line ++ 10 ∷ [];
      echoed = st.echoed ++ 10 ∷ [];
      ready = true;
    } in
    type_line-step st 10 keys editing
    ∙ ap (λ s. type_line s keys) (type_key-newline st (omega (arith, room)))
    ∙ type_line-ready st' keys refl
type_line-text st (c ∷ text) keys editing plain room =
    let st' : Stdin = record st { line = st.line ++ c ∷ []; echoed = st.echoed ++ c ∷ [] } in
    let longer = length-append st.line (c ∷ []) in
    type_line-step st c (text ++ 10 ∷ keys) editing
    ∙ ap (λ s. type_line s (text ++ 10 ∷ keys)) (type_key-Plain st c plain.0 (omega (arith, room)))
    ∙ type_line-text st' text keys editing plain.1 (omega (arith, room, longer))
    ∙ rw
        (
          append_assoc st.line (c ∷ []) (text ++ 10 ∷ []),
          append_assoc st.echoed (c ∷ []) (text ++ 10 ∷ []),
        )
        refl
