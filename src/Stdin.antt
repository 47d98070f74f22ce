-- ===== src/Stdin.antt =====
-- The line editor behind reads of file 0 in src/cpu/syscall.cpp, `sys_read_stdin`. What
-- `keyboard::getchar` returns at each call is a list, 0 where nothing was typed and the caller yields;
-- `none` says that the list ends before the line does, so the call is still blocked. The bytes of
-- `stdin_line` up to `stdin_line_len` are a list, and what goes to `tty::print` is another.
pub mod Lines
pub mod Pieces
mod Examples
use retux.Prelude.{
  ℕ, ◌+◌, ◌-◌, ◌==◌, ltb, leb, if◌then◌else◌, Bool, true, false, Option, none, some, List, [], ◌∷◌,
  ◌++◌, length, take, drop,
}

abbrev pub line_cap : ℕ
line_cap = 256

pub record Stdin : Type 0 where
  pub line : List ℕ
  pub pos : ℕ
  pub ready : Bool
  pub echoed : List ℕ

-- One round of the loop, with the character that `getchar` returned.
pub type_key : Stdin → ℕ → Stdin
type_key st c =
    if c == 0
    then st
    else if c == 8
    then (if ltb 0 (length st.line)
        then record st { line = take (length st.line - 1) st.line; echoed = st.echoed ++ 8 ∷ [] }
        else st)
    else (let st' =
          if ltb (length st.line) (line_cap - 1)
          then record st { line = st.line ++ c ∷ []; echoed = st.echoed ++ c ∷ [] }
          else st in
        if c == 10 then record st' { ready = true } else st')

-- `while (!stdin_line_ready)`, with the characters that are left.
pub type_line : Stdin → List ℕ → Option (Stdin × List ℕ)
type_line st [] = if st.ready then some (st, []) else none
type_line st (c ∷ keys) =
    let rest = type_line (type_key st c) keys in if st.ready then some (st, c ∷ keys) else rest

-- The bytes that a read of a finished line returns, and what it leaves.
pub hand_out : Stdin → ℕ → List ℕ × Stdin
hand_out st len =
    let avail = length st.line - st.pos in
    let n = if ltb len avail then len else avail in
    (
      take n (drop st.pos st.line),
      if leb (length st.line) (st.pos + n)
          then record st { line = []; pos = 0; ready = false }
          else record st { pos = st.pos + n },
    )

pub sys_read_stdin : Stdin → List ℕ → ℕ → Option (List ℕ × Stdin × List ℕ)
sys_read_stdin st keys len = elim (type_line st keys) [
  | none ↦ none
  | some (st', left) ↦ some ((hand_out st' len).0, (hand_out st' len).1, left)
]
