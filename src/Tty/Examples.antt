-- ===== src/Tty/Examples.antt =====
-- Runs of the console, and its theorems at concrete inputs.
use retux.Prelude.{ℕ, ◌≡◌, refl, true, [], ◌∷◌, none, some, arith}
use retux.Tty.{
  Console, Tty, blank, active_con, set_active, print, print_string, backspace, newline, next_row,
  print_cell, put_cell, update_cursor, scroll, switch_to, init,
}
use mathlib.Core.Option
use retux.Tty.Loops.{scroll_lem}
use retux.Tty.Bounds.{IsValid, Within, print-Safe, backspace-AtHome, init-IsValid, switch_to_lem}

abbrev blank_console : Console
blank_console = record { buffer = λ i. blank; row = 0; col = 0 }

abbrev blank_tty : Tty
blank_tty = record {
  consoles = λ k. blank_console;
  active_console = 0;
  initialized = true;
  vga = λ i. blank;
  cursor = 0;
}

abbrev typed : Tty
typed = set_active blank_tty (record blank_console { row = 3; col = 79 })

typed-IsValid : IsValid typed
typed-IsValid = record { on_screen = λ k. ground arith; mirrors = λ i h. ground arith }

-- The cursor of a line that has just been filled goes to the next one.
wraps_line :
    Option.map {B = ℕ × ℕ × ℕ × ℕ}
      (λ t. ((active_con t).row, (active_con t).col, t.cursor, t.vga 319))
      (print typed b'x')
    ≡ some (4, 0, 320, 0x0f78)
unfolding print print_cell put_cell newline next_row update_cursor
wraps_line = refl

prints_text :
    Option.map {B = ℕ × ℕ × ℕ × ℕ}
      (λ t. (t.vga 0, t.vga 1, t.vga 80, t.cursor))
      (print_string blank_tty (b'o' ∷ b'k' ∷ 8 ∷ 10 ∷ b'!' ∷ []))
    ≡ some (0x0f6f, 0x0f20, 0x0f21, 81)
unfolding print_string print print_cell put_cell newline next_row update_cursor backspace
prints_text = refl

print-Safe_example : (t' : Tty) × (print typed b'x' ≡ some t') × IsValid t' × Within typed t'
print-Safe_example = print-Safe typed b'x' (λ h. ground arith) typed-IsValid

backspace-AtHome_example :
    (t' : Tty) × (print blank_tty 8 ≡ some t')
    × ((active_con t').row ≡ 255)
    × ((active_con t').col ≡ 79)
    × (print t' b'x' ≡ none)
backspace-AtHome_example =
    backspace-AtHome blank_tty b'x' refl (refl, refl) (omega arith) (omega arith)

init-IsValid_run : IsValid (init typed)
init-IsValid_run = init-IsValid typed

switch_to_lem_run :
    IsValid (switch_to typed 2)
    × ((switch_to typed 2).active_console ≡ 2)
    × ((k : ℕ) → (switch_to typed 2).consoles k ≡ typed.consoles k)
switch_to_lem_run = switch_to_lem typed 2 typed-IsValid

scroll_lem_run :
    ((scroll (active_con typed)).buffer 1950 ≡ blank)
    × ((scroll (active_con typed)).row ≡ 24)
    × ((scroll (active_con typed)).col ≡ 0)
scroll_lem_run = scroll_lem (active_con typed) 1950
