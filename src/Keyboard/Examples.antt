-- ===== src/Keyboard/Examples.antt =====
-- Runs of the keyboard driver, and its theorems at concrete inputs.
use retux.Prelude.{◌≡◌, ◌≢◌, refl, true, false, ◌↔◌, [], ◌∷◌, none, arith, update}
use retux.Keyboard.{
  Keyboard, push_char, key_pressed, keyboard_handler, apply_case, scancode_to_ascii, getchar,
  initial,
}
use retux.Keyboard.Buffer.{IsValid, contents, count, push_char_lem, getchar_lem}
use retux.Keyboard.Decode.{keyboard_handler-IsValid, released_lem, letter_key}

-- `a` typed and not yet read, shift held, alt held.
abbrev held : Keyboard
held = record {
  buffer = update (λ i. 0) 63 b'a';
  head = 0;
  tail = 63;
  alt_pressed = true;
  ctrl_pressed = false;
  shift_pressed = true;
  caps_lock = false;
}

held-IsValid : IsValid held
unfolding count
held-IsValid = omega arith

types_word :
    contents
      (keyboard_handler
        (keyboard_handler (keyboard_handler (keyboard_handler initial 0x2a).0 0x23).0 0xaa).0
        0x17).0
    ≡ b'H' ∷ b'i' ∷ []
unfolding count keyboard_handler initial key_pressed apply_case push_char scancode_to_ascii
    mathlib.Core.Bool.xor
types_word = refl

push_char_lem_example :
    IsValid (push_char held b'b') × (contents (push_char held b'b') ≡ b'a' ∷ b'b' ∷ [])
unfolding count
push_char_lem_example = push_char_lem held b'b' held-IsValid

getchar_lem_example :
    IsValid (getchar held).1
    × (((getchar held).0 ≡ 0) ↔ (contents held ≡ []))
    × ((getchar held).0 ≢ 0 → contents held ≡ (getchar held).0 ∷ contents (getchar held).1)
getchar_lem_example = getchar_lem held held-IsValid

keyboard_handler-IsValid_example : IsValid (keyboard_handler held 0x10).0
keyboard_handler-IsValid_example = keyboard_handler-IsValid held 0x10 held-IsValid

released_lem_run :
    (contents (keyboard_handler held 0xaa).0 ≡ contents held)
    × ((keyboard_handler held 0xaa).1 ≡ none)
    × ((keyboard_handler held 0xaa).0.shift_pressed ≡ false)
    × ((keyboard_handler held 0xaa).0.alt_pressed ≡ true)
    × ((keyboard_handler held 0xaa).0.ctrl_pressed ≡ false)
released_lem_run = released_lem held 0xaa refl

letter_key_run :
    ((keyboard_handler held 0x10).1 ≡ none)
    × (contents (keyboard_handler held 0x10).0 ≡ b'a' ∷ b'Q' ∷ [])
unfolding count scancode_to_ascii mathlib.Core.Bool.xor
letter_key_run = letter_key held 0x10 (omega arith) (omega arith) (omega arith) held-IsValid
