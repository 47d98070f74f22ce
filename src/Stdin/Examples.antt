-- ===== src/Stdin/Examples.antt =====
-- Typed lines, and the theorems on the line editor there.
use retux.Prelude.{◌≡◌, refl, arith, true, some, [], ◌∷◌, ◌++◌}
use retux.Stdin.{Stdin, type_key, type_line, hand_out, sys_read_stdin}
use retux.Stdin.Pieces.{
  LeavesValid, sys_read_stdin-LeavesValid, hand_out-hand_out, idle, sys_read_stdin-text,
}

-- `lz`, a backspace, `s` and enter, read four bytes at a time.
typed_ls :
    sys_read_stdin (idle []) (b'l' ∷ b'z' ∷ 8 ∷ 0 ∷ b's' ∷ 10 ∷ b'x' ∷ []) 4
    ≡ some (b'l' ∷ b's' ∷ 10 ∷ [], idle (b'l' ∷ b'z' ∷ 8 ∷ b's' ∷ 10 ∷ []), b'x' ∷ [])
unfolding sys_read_stdin type_line type_key hand_out
typed_ls = refl

abbrev waiting : Stdin
waiting = record { line = b'l' ∷ b's' ∷ 10 ∷ []; pos = 0; ready = true; echoed = [] }

sys_read_stdin-LeavesValid_run : LeavesValid (sys_read_stdin (idle []) (b'l' ∷ 10 ∷ []) 1)
sys_read_stdin-LeavesValid_run =
    sys_read_stdin-LeavesValid (idle []) (b'l' ∷ 10 ∷ []) 1
      (record { fits = omega arith; inside = omega arith; unread = λ e. refl })

hand_out-hand_out_run :
    ((hand_out waiting 3).0 ≡ (hand_out waiting 1).0 ++ (hand_out (hand_out waiting 1).1 2).0)
    × ((hand_out waiting 3).1 ≡ (hand_out (hand_out waiting 1).1 2).1)
hand_out-hand_out_run = hand_out-hand_out waiting 1 2 (omega arith)

sys_read_stdin-text_example :
    sys_read_stdin (idle []) (b'l' ∷ b's' ∷ 10 ∷ []) 64
    ≡ some (b'l' ∷ b's' ∷ 10 ∷ [], idle (b'l' ∷ b's' ∷ 10 ∷ []), [])
sys_read_stdin-text_example =
    sys_read_stdin-text [] (b'l' ∷ b's' ∷ []) [] 64
      ((omega arith, omega arith, omega arith), ((omega arith, omega arith, omega arith), tt))
      (omega arith)
