-- ===== src/Keyboard/Decode.antt =====
-- What one interrupt of src/io/keyboard.cpp does, by kind of scancode.
use retux.Prelude.{
  ℕ, ◌-◌, ◌%◌, ◌≤◌, ◌<◌, ◌≡◌, refl, ◌==◌, leb, if◌then◌else◌, Bool, true, false, not, ◌||◌, ◌&&◌,
  [], ◌∷◌, ◌++◌, Option, none, arith, if-elim,
}
use mathlib.Core.Bool.{xor}
use retux.Prelude.Bits.{passes, passes_at}
use retux.Keyboard.{
  Keyboard, buffer_size, push_char, key_pressed, keyboard_handler, apply_case, scancode_to_ascii,
}
use retux.Keyboard.Buffer.{IsValid, count, contents, push_char_lem}

-- The keys that only change a modifier.
abbrev pub is_modifier : ℕ → Bool
is_modifier key = key == 0x2a || key == 0x36 || key == 0x3a || key == 0x38 || key == 0x1d

push_char-modifiers :
    (k : Keyboard) (c : ℕ)
    → ((push_char k c).alt_pressed ≡ k.alt_pressed)
      × ((push_char k c).ctrl_pressed ≡ k.ctrl_pressed)
      × ((push_char k c).shift_pressed ≡ k.shift_pressed)
      × ((push_char k c).caps_lock ≡ k.caps_lock)
unfolding push_char
push_char-modifiers k c = ground arith

same_queue :
    {k : Keyboard} {alt ctrl shift caps : Bool}
    → IsValid k
    → IsValid (record k {
      alt_pressed = alt;
      ctrl_pressed = ctrl;
      shift_pressed = shift;
      caps_lock = caps;
    })
unfolding count
same_queue v = record { head_in = v.head_in; tail_in = v.tail_in; typed = v.typed }

key_pressed-IsValid : (k : Keyboard) (key : ℕ) → IsValid k → IsValid (key_pressed k key).0
unfolding key_pressed
key_pressed-IsValid k key v =
    let typed : (c : ℕ) → IsValid (push_char k c) = λ c. (push_char_lem k c v).0 in
    let P : Keyboard × Option ℕ → Type 0 = λ r. IsValid r.0 in
    if-elim P (key == 0x0e) (λ _. typed 8)
      (λ _.
        if-elim P (key == 0x1c) (λ _. typed 10)
          (λ _.
            if-elim P (k.alt_pressed && leb 0x3b key && leb key 0x3e) (λ _. v)
              (λ _. if-elim P (scancode_to_ascii key == 0) (λ _. v) (λ _. typed _))))

-- The interrupt handler keeps the ring valid for every scancode.
pub keyboard_handler-IsValid :
    (k : Keyboard) (scancode : ℕ) → IsValid k → IsValid (keyboard_handler k scancode).0
unfolding keyboard_handler
keyboard_handler-IsValid k scancode v =
    let key = scancode % 0x80 in
    let P : Keyboard × Option ℕ → Type 0 = λ r. IsValid r.0 in
    if-elim P (key == 0x2a || key == 0x36) (λ _. same_queue v)
      (λ _.
        if-elim P (key == 0x3a) (λ _. same_queue v)
          (λ _.
            if-elim P (key == 0x38) (λ _. same_queue v)
              (λ _.
                if-elim P (key == 0x1d) (λ _. same_queue v)
                  (λ _.
                    if-elim P (leb 0x80 scancode) (λ _. v) (λ _. key_pressed-IsValid k key v)))))

-- A release, and a press of a modifier, leave the typed characters alone, ask nothing of the
-- console, and set shift, alt and control by the last press or release of their keys.
pub released_lem :
    (k : Keyboard) (scancode : ℕ)
    → (leb 0x80 scancode || is_modifier (scancode % 0x80)) ≡ true
    → let r = keyboard_handler k scancode in
      (contents r.0 ≡ contents k)
      × (r.1 ≡ none)
      × (r.0.shift_pressed ≡ (
          if scancode % 0x80 == 0x2a || scancode % 0x80 == 0x36
          then not (leb 0x80 scancode)
          else k.shift_pressed))
      × (r.0.alt_pressed
          ≡ (if scancode % 0x80 == 0x38 then not (leb 0x80 scancode) else k.alt_pressed))
      × (r.0.ctrl_pressed
          ≡ (if scancode % 0x80 == 0x1d then not (leb 0x80 scancode) else k.ctrl_pressed))
unfolding keyboard_handler count
released_lem k scancode h = ground arith

abbrev is_letter : ℕ → Bool
is_letter c = leb b'a' c && leb c b'z'

abbrev is_special : ℕ → Bool
is_special key = is_modifier key || key == 0x0e || key == 0x1c || (leb 0x3b key && leb key 0x3e)

-- No key that the handler treats specially has a letter in the table.
letter_table :
    passes 0x80 (λ key. not (is_letter (scancode_to_ascii key)) || not (is_special key)) ≡ true
unfolding passes scancode_to_ascii
letter_table = refl

letter_is_plain :
    (key : ℕ)
    → key < 0x80
    → b'a' ≤ scancode_to_ascii key
    → scancode_to_ascii key ≤ b'z'
    → is_special key ≡ false
letter_is_plain key small lo hi = ground (arith, passes_at 0x80 _ letter_table key small)

letter_pushed :
    (k : Keyboard) (key : ℕ)
    → key < 0x80
    → b'a' ≤ scancode_to_ascii key
    → scancode_to_ascii key ≤ b'z'
    → keyboard_handler k key ≡ (
      push_char k (
          if xor k.shift_pressed k.caps_lock
          then scancode_to_ascii key - 32
          else scancode_to_ascii key),
      none,
    )
unfolding keyboard_handler key_pressed apply_case
letter_pushed k key small lo hi = ground (arith, letter_is_plain key small lo hi)

-- A letter key adds its letter to the queue, in capitals under exactly one of shift and caps lock,
-- unless 63 characters wait already, and asks nothing of the console.
pub letter_key :
    (k : Keyboard) (key : ℕ)
    → key < 0x80
    → b'a' ≤ scancode_to_ascii key
    → scancode_to_ascii key ≤ b'z'
    → IsValid k
    → let r = keyboard_handler k key in
      let letter = scancode_to_ascii key in
      (r.1 ≡ none)
      × (contents r.0 ≡ (
          if count k == buffer_size - 1
          then contents k
          else contents k
            ++ (if xor k.shift_pressed k.caps_lock then letter - 32 else letter) ∷ []))
letter_key k key small lo hi v =
    let c : ℕ =
      if xor k.shift_pressed k.caps_lock
      then scancode_to_ascii key - 32
      else scancode_to_ascii key in
    let char : (c == 0) ≡ false = ground arith in
    rw (letter_pushed k key small lo hi) (refl, simp ((push_char_lem k c v).1, char))
