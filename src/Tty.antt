-- ===== src/Tty.antt =====
-- src/tty/tty.cpp: four text consoles over the VGA text buffer.
-- Buffers are functions of the index. A character that print puts outside a console's buffer is
-- `none`, a fault; the loops write without a test, and what lies past a buffer keeps its values.
-- `row` and `col` are u8, so they wrap at 256. The screen is the array `vga`, and `cursor` is what
-- the two bytes written to the CRTC registers stand for.
pub mod Loops
pub mod Bounds
mod Examples
use retux.Prelude.{
  ℕ, zero, suc, ◌+◌, ◌-◌, ◌*◌, ◌%◌, ◌^◌, ◌==◌, ltb, leb, if◌then◌else◌, Bool, true, false, not,
  ◌||◌, Option, none, some, List, [], ◌∷◌, update,
}

abbrev pub vga_width : ℕ
vga_width = 80

abbrev pub vga_height : ℕ
vga_height = 25

abbrev pub num_consoles : ℕ
num_consoles = 4

abbrev pub cells : ℕ
cells = vga_width * vga_height

abbrev pub color : ℕ
color = 0x0f

-- `(COLOR << 8) | c`
abbrev pub cell_of : ℕ → ℕ
cell_of c = color * 256 + c % 256

abbrev pub blank : ℕ
blank = cell_of b' '

pub record Console : Type 0 where
  pub buffer : ℕ → ℕ
  pub row : ℕ
  pub col : ℕ

pub record Tty : Type 0 where
  pub consoles : ℕ → Console
  pub active_console : ℕ
  pub initialized : Bool
  pub vga : ℕ → ℕ
  pub cursor : ℕ

abbrev pub active_con : Tty → Console
active_con t = t.consoles t.active_console

abbrev pub set_active : Tty → Console → Tty
set_active t con = record t { consoles = update t.consoles t.active_console con }

pub update_cursor : Tty → Tty
update_cursor t = record t {
  cursor = ((active_con t).row * vga_width + (active_con t).col) % 2 ^ 16;
}

-- `for (i = …; i < n; ++i) dst[i] = src[i]`, by the rounds left.
pub copy_cells : ℕ → ℕ → (ℕ → ℕ) → (ℕ → ℕ) → ℕ → ℕ
copy_cells zero i src dst = dst
copy_cells (suc rounds) i src dst = copy_cells rounds (i + 1) src (update dst i (src i))

pub render_console : Tty → ℕ → Tty
render_console t idx =
    let drawn : Tty = record t { vga = copy_cells cells 0 (t.consoles idx).buffer t.vga } in
    if idx == t.active_console then update_cursor drawn else drawn

pub move_cols : ℕ → ℕ → ℕ → (ℕ → ℕ) → ℕ → ℕ
move_cols zero col row b = b
move_cols (suc rounds) col row b =
    move_cols rounds (col + 1) row
      (update b ((row - 1) * vga_width + col) (b (row * vga_width + col)))

pub move_rows : ℕ → ℕ → (ℕ → ℕ) → ℕ → ℕ
move_rows zero row b = b
move_rows (suc rounds) row b = move_rows rounds (row + 1) (move_cols vga_width 0 row b)

-- `for (i = …) b[from + i] = v`
pub fill_cells : ℕ → ℕ → ℕ → (ℕ → ℕ) → ℕ → ℕ
fill_cells zero i v b = b
fill_cells (suc rounds) i v b = fill_cells rounds (i + 1) v (update b i v)

pub scroll : Console → Console
scroll con = record {
  buffer =
      fill_cells vga_width ((vga_height - 1) * vga_width) blank
        (move_rows (vga_height - 1) 1 con.buffer);
  row = vga_height - 1;
  col = 0;
}

-- A console as `init` leaves it: blank, with its digit in the corner.
pub fresh_console : ℕ → Console
fresh_console k = record {
  buffer = update (fill_cells cells 0 blank (λ i. 0)) 0 (cell_of (b'1' + k));
  row = 0;
  col = 0;
}

-- The old contents of the buffers and of the screen are overwritten.
pub init : Tty → Tty
init t = record (render_console (record t { consoles = fresh_console; active_console = 0 }) 0) {
  initialized = true;
}

-- `con.buffer[pos] = cell; vga[pos] = cell`
pub put_cell : Tty → ℕ → ℕ → Option Tty
put_cell t pos cell =
    if ltb pos cells
    then some (record t {
      consoles =
          update t.consoles t.active_console
            (record (active_con t) { buffer = update (active_con t).buffer pos cell });
      vga = update t.vga pos cell;
    })
    else none

-- `con.row < 0` never holds, as `row` is unsigned.
pub backspace : Tty → Option Tty
backspace t =
    if (active_con t).col == 0
    then some (
        set_active t
          (record (active_con t) { row = ((active_con t).row + 255) % 256; col = vga_width - 1 }))
    else (let moved = set_active t (record (active_con t) { col = (active_con t).col - 1 }) in
        elim (put_cell moved ((active_con moved).row * vga_width + (active_con moved).col) blank) [
          | none ↦ none
          | some t' ↦ some (update_cursor t')
        ])

-- The row has just been advanced to a value at or past the end of the screen, or not.
pub next_row : Tty → Tty
next_row t =
    if leb vga_height (active_con t).row
    then update_cursor (render_console (set_active t (scroll (active_con t))) t.active_console)
    else update_cursor t

pub newline : Tty → Tty
newline t =
    next_row
      (set_active t (record (active_con t) { row = ((active_con t).row + 1) % 256; col = 0 }))

pub print_cell : Tty → ℕ → Option Tty
print_cell t c =
    elim (put_cell t ((active_con t).row * vga_width + (active_con t).col) (cell_of c)) [
      | none ↦ none
      | some t' ↦ some (
          if leb vga_width (((active_con t').col + 1) % 256)
          then newline t'
          else update_cursor
              (set_active t' (record (active_con t') { col = ((active_con t').col + 1) % 256 })))
    ]

pub print : Tty → ℕ → Option Tty
print t c =
    if not t.initialized
    then some t
    else if c == 8
    then backspace t
    else if c == 10
    then some (newline t)
    else print_cell t c

-- `print(const char*)`, on the bytes before the NUL.
pub print_string : Tty → List ℕ → Option Tty
print_string t [] = some t
print_string t (c ∷ s) = elim (print t c) [ none ↦ none | some t' ↦ print_string t' s ]

pub switch_to : Tty → ℕ → Tty
switch_to t n = if leb num_consoles n then t else render_console (record t { active_console = n }) n

pub active : Tty → ℕ
active t = t.active_console
