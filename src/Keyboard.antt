-- ===== src/Keyboard.antt =====
-- src/io/keyboard.cpp: scancodes to characters, and the ring buffer between the interrupt handler
-- and `getchar`. `head` and `tail` stay below 64. A handler run is given the byte read from port
-- 0x60; what it asks of the console is returned beside the new state.
pub mod Buffer
pub mod Decode
mod Examples
use retux.Prelude.{
  ℕ, ◌+◌, ◌-◌, ◌%◌, ◌==◌, ltb, leb, if◌then◌else◌, Bool, true, false, not, ◌&&◌, ◌||◌, Option, none,
  some, List, [], ◌∷◌, update, get_or,
}
use mathlib.Core.Bool.{xor}

abbrev pub buffer_size : ℕ
buffer_size = 64

pub record Keyboard : Type 0 where
  pub buffer : ℕ → ℕ
  pub head : ℕ
  pub tail : ℕ
  pub alt_pressed : Bool
  pub ctrl_pressed : Bool
  pub shift_pressed : Bool
  pub caps_lock : Bool

-- The entries after these are zero.
abbrev pub scancode_table : List ℕ
scancode_table =
    0 ∷ 0 ∷ b'1' ∷ b'2' ∷ b'3' ∷ b'4' ∷ b'5' ∷ b'6' ∷ b'7' ∷ b'8' ∷ b'9' ∷ b'0' ∷ b'-' ∷ b'=' ∷ 0
    ∷ 0 ∷ b'q' ∷ b'w' ∷ b'e' ∷ b'r' ∷ b't' ∷ b'y' ∷ b'u' ∷ b'i' ∷ b'o' ∷ b'p' ∷ b'[' ∷ b']' ∷ 0 ∷ 0
    ∷ b'a' ∷ b's' ∷ b'd' ∷ b'f' ∷ b'g' ∷ b'h' ∷ b'j' ∷ b'k' ∷ b'l' ∷ b';' ∷ 39 ∷ b'`' ∷ 0 ∷ 92
    ∷ b'z' ∷ b'x' ∷ b'c' ∷ b'v' ∷ b'b' ∷ b'n' ∷ b'm' ∷ b',' ∷ b'.' ∷ b'/' ∷ 0 ∷ b'*' ∷ 0 ∷ b' ' ∷ []

pub scancode_to_ascii : ℕ → ℕ
scancode_to_ascii key = get_or scancode_table key 0

pub push_char : Keyboard → ℕ → Keyboard
push_char k c =
    if c == 0
    then k
    else if (k.head + 1) % buffer_size == k.tail
    then k
    else record k { buffer = update k.buffer k.head c; head = (k.head + 1) % buffer_size }

-- `ascii - 'a' + 'A'` under shift or caps lock, not both.
pub apply_case : Keyboard → ℕ → ℕ
apply_case k ascii =
    if leb b'a' ascii && leb ascii b'z' && xor k.shift_pressed k.caps_lock
    then ascii - b'a' + b'A'
    else ascii

-- The part of the handler below the tracked modifiers, for a key that is pressed.
pub key_pressed : Keyboard → ℕ → Keyboard × Option ℕ
key_pressed k key =
    if key == 0x0e
    then (push_char k 8, none)
    else if key == 0x1c
    then (push_char k 10, none)
    else if k.alt_pressed && leb 0x3b key && leb key 0x3e
    then (k, some (key - 0x3b))
    else if scancode_to_ascii key == 0
    then (k, none)
    else (push_char k (apply_case k (scancode_to_ascii key)), none)

-- `some vt` is the call `tty::switch_to(vt)`.
pub keyboard_handler : Keyboard → ℕ → Keyboard × Option ℕ
keyboard_handler k scancode =
    let released = leb 0x80 scancode in
    let key = scancode % 0x80 in
    if key == 0x2a || key == 0x36
    then (record k { shift_pressed = not released }, none)
    else if key == 0x3a
    then (record k { caps_lock = not k.caps_lock }, none)
    else if key == 0x38
    then (record k { alt_pressed = not released }, none)
    else if key == 0x1d
    then (record k { ctrl_pressed = not released }, none)
    else if released
    then (k, none)
    else key_pressed k key

-- 0 when nothing has been typed.
pub getchar : Keyboard → ℕ × Keyboard
getchar k =
    if k.head == k.tail
    then (0, k)
    else (k.buffer k.tail, record k { tail = (k.tail + 1) % buffer_size })

-- The static state before the first interrupt.
pub initial : Keyboard
initial = record {
  buffer = λ i. 0;
  head = 0;
  tail = 0;
  alt_pressed = false;
  ctrl_pressed = false;
  shift_pressed = false;
  caps_lock = false;
}
