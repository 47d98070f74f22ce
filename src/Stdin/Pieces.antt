-- ===== src/Stdin/Pieces.antt =====
-- Reads of a line from src/cpu/syscall.cpp, in one piece or in several.
use mathlib.Core.Bool.{true≢false}
use retux.Prelude.{
  ℕ, zero, suc, ◌+◌, ◌-◌, ◌≤◌, ◌<◌, ◌≡◌, refl, sym, ap, ◌∙◌, ltb, leb, if◌then◌else◌, true, false,
  Option, none, some, List, [], ◌∷◌, ◌++◌, arith, length, length-append, take, drop, take_all, All,
  Bool-cases, inl, inr, if-elim, length-take, length-drop,
}
use retux.Stdin.{Stdin, line_cap, type_key, type_line, hand_out, sys_read_stdin}
use retux.Stdin.Lines.{Plain, type_line-text}

-- The line fits in its buffer, and the place that reads have reached lies in it; a line that is still
-- typed has not been read from.
pub record IsValid (st : Stdin) : Type 0 where
  pub fits : length st.line < line_cap
  pub inside : st.pos ≤ length st.line
  pub unread : st.ready ≡ false → st.pos ≡ 0

type_key-pos : (st : Stdin) (c : ℕ) → (type_key st c).pos ≡ st.pos
unfolding type_key
type_key-pos st c = ground arith

type_key-fits :
    (st : Stdin) (c : ℕ) → length st.line < line_cap → length (type_key st c).line < line_cap
unfolding type_key
type_key-fits st c fits =
    ground (arith, fits, length-append st.line (c ∷ []), length-take (length st.line - 1) st.line)

type_key-IsValid : (st : Stdin) (c : ℕ) → st.ready ≡ false → IsValid st → IsValid (type_key st c)
type_key-IsValid st c editing v = record {
  fits = type_key-fits st c v.fits;
  inside = omega (arith, type_key-pos st c, v.unread editing);
  unread = λ _. type_key-pos st c ∙ v.unread editing;
}

-- What a finished line is left as, when the typing has gone so far.
abbrev Finished : Option (Stdin × List ℕ) → Type 0
Finished none = Unit {0}
Finished (some (st, left)) = IsValid st × (st.ready ≡ true)

type_line-Finished : (st : Stdin) (keys : List ℕ) → IsValid st → Finished (type_line st keys)
unfolding type_line
type_line-Finished st [] v = if-elim Finished st.ready (λ r. (v, r)) (λ _. tt)
type_line-Finished st (c ∷ keys) v =
    if-elim Finished st.ready (λ r. (v, r))
      (λ editing. type_line-Finished (type_key st c) keys (type_key-IsValid st c editing v))

-- What a read leaves behind is valid, when the read is over.
abbrev pub LeavesValid : Option (List ℕ × Stdin × List ℕ) → Type 0
LeavesValid none = Unit {0}
LeavesValid (some (bytes, st, left)) = IsValid st

take-nil : (n : ℕ) → take {A = ℕ} n [] ≡ []
take-nil zero = refl
take-nil (suc n) = refl

take-split : (a b : ℕ) (xs : List ℕ) → take (a + b) xs ≡ take a xs ++ take b (drop a xs)
take-split zero b xs = ap (λ (n : ℕ). take n xs) (let e : 0 + b ≡ b = omega arith in e)
take-split (suc a) b [] = take-nil (suc a + b) ∙ sym (take-nil b)
take-split (suc a) b (x ∷ xs) =
    ap (λ (n : ℕ). take n (x ∷ xs)) (let e : suc a + b ≡ suc (a + b) = omega arith in e)
    ∙ ap (◌∷◌ x) (take-split a b xs)

drop-nil : (n : ℕ) → drop {A = ℕ} n [] ≡ []
drop-nil zero = refl
drop-nil (suc n) = refl

drop-drop : (a b : ℕ) (xs : List ℕ) → drop (a + b) xs ≡ drop b (drop a xs)
drop-drop zero b xs = ap (λ (n : ℕ). drop n xs) (let e : 0 + b ≡ b = omega arith in e)
drop-drop (suc a) b [] = drop-nil (suc a + b) ∙ sym (drop-nil b)
drop-drop (suc a) b (x ∷ xs) =
    ap (λ (n : ℕ). drop n (x ∷ xs)) (let e : suc a + b ≡ suc (a + b) = omega arith in e)
    ∙ drop-drop a b xs

-- `hand_out` with the cut at the end of the line left to `take`.
hand_out_lem :
    (st : Stdin) (len : ℕ)
    → hand_out st len ≡ (
      take len (drop st.pos st.line),
      if leb (length st.line) (st.pos + len)
          then record st { line = []; pos = 0; ready = false }
          else record st { pos = st.pos + len },
    )
unfolding hand_out
hand_out_lem st len = elim (Bool-cases (ltb len (length st.line - st.pos))) [
  | inl short ↦ rw short refl
  | inr whole ↦
      let rest = length-drop st.pos st.line in
      let over : leb (length st.line) (st.pos + (length st.line - st.pos)) ≡ true = ground arith in
      let over' : leb (length st.line) (st.pos + len) ≡ true = ground (arith, whole) in
      let cut : take (length st.line - st.pos) (drop st.pos st.line)
          ≡ take len (drop st.pos st.line) =
        take_all (length st.line - st.pos) (drop st.pos st.line) (omega (arith, rest))
        ∙ sym (take_all len (drop st.pos st.line) (ground (arith, rest, whole))) in
      rw (whole, over, over', cut) refl
]

hand_out-IsValid :
    (st : Stdin) (len : ℕ) → st.ready ≡ true → IsValid st → IsValid (hand_out st len).1
hand_out-IsValid st len r v = rw (hand_out_lem st len) (
    if-elim IsValid (leb (length st.line) (st.pos + len))
      (λ _. record { fits = omega arith; inside = omega arith; unread = λ _. refl })
      (λ more. record {
        fits = v.fits;
        inside = ground (arith, more);
        unread = λ e. absurd (true≢false (sym r ∙ e));
      }))

-- A read keeps the line shorter than its buffer and the place that reads have reached within the
-- line, whatever is typed.
pub sys_read_stdin-LeavesValid :
    (st : Stdin) (keys : List ℕ) (len : ℕ) → IsValid st → LeavesValid (sys_read_stdin st keys len)
unfolding sys_read_stdin
sys_read_stdin-LeavesValid st keys len v = go (type_line st keys) (type_line-Finished st keys v)
  where
    go :
        (o : Option (Stdin × List ℕ))
        → Finished o
        → LeavesValid (elim o [
          | none ↦ none
          | some (st', left) ↦ some ((hand_out st' len).0, (hand_out st' len).1, left)
        ])
    go none f = tt
    go (some (st', left)) f = hand_out-IsValid st' len f.1 f.0

-- Reading a bytes of a line and then b returns and leaves what reading a + b does, when the first
-- read does not reach the end of the line.
pub hand_out-hand_out :
    (st : Stdin) (a b : ℕ)
    → a < length st.line - st.pos
    → ((hand_out st (a + b)).0 ≡ (hand_out st a).0 ++ (hand_out (hand_out st a).1 b).0)
      × ((hand_out st (a + b)).1 ≡ (hand_out (hand_out st a).1 b).1)
hand_out-hand_out st a b short =
    let st' : Stdin = record st { pos = st.pos + a } in
    let more : leb (length st.line) (st.pos + a) ≡ false = ground (arith, short) in
    let first : hand_out st a ≡ (take a (drop st.pos st.line), st') =
      hand_out_lem st a ∙ rw more refl in
    let sum : st.pos + a + b ≡ st.pos + (a + b) = omega arith in
    rw (hand_out_lem st (a + b), first, hand_out_lem st' b, sum)
      (
        take-split a b (drop st.pos st.line)
            ∙ ap (λ r. take a (drop st.pos st.line) ++ take b r) (sym (drop-drop st.pos a st.line)),
        refl,
      )

-- An editor with nothing typed.
abbrev pub idle : List ℕ → Stdin
idle echoed = record { line = []; pos = 0; ready = false; echoed = echoed }

sys_read_stdin-finished :
    (st : Stdin) (keys : List ℕ) (len : ℕ) (st' : Stdin) (left : List ℕ)
    → type_line st keys ≡ some (st', left)
    → sys_read_stdin st keys len ≡ some ((hand_out st' len).0, (hand_out st' len).1, left)
unfolding sys_read_stdin
sys_read_stdin-finished st keys len st' left run = rw (run, sys_read_stdin) refl

-- Plain text of less than 255 characters and a new line, typed from the start of a line, are what
-- reads return, as far as they ask; the rest waits, and a read to the end starts the next line.
pub sys_read_stdin-text :
    (echoed text keys : List ℕ) (len : ℕ)
    → All Plain text
    → length text < 255
    → sys_read_stdin (idle echoed) (text ++ 10 ∷ keys) len
      ≡ some (
        take len (text ++ 10 ∷ []),
        if leb (length text + 1) len then idle (echoed ++ (text ++ 10 ∷ [])) else record {
          line = text ++ 10 ∷ [];
          pos = len;
          ready = true;
          echoed = echoed ++ (text ++ 10 ∷ []);
        },
        keys,
      )
sys_read_stdin-text echoed text keys len plain room =
    let st : Stdin = record {
      line = text ++ 10 ∷ [];
      pos = 0;
      ready = true;
      echoed = echoed ++ (text ++ 10 ∷ []);
    } in
    let whole : length (text ++ 10 ∷ []) ≡ length text + 1 = length-append text (10 ∷ []) in
    let start : 0 + len ≡ len = omega arith in
    sys_read_stdin-finished (idle echoed) (text ++ 10 ∷ keys) len st keys
      (type_line-text (idle echoed) text keys refl plain (omega (arith, room)))
    ∙ rw (hand_out_lem st len, whole, start) refl
