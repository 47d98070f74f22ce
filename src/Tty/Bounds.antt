-- ===== src/Tty/Bounds.antt =====
-- Where src/tty/tty.cpp writes, and where the cursor is.
use retux.Prelude.{
  ℕ, ◌+◌, ◌-◌, ◌*◌, ◌%◌, ◌≤◌, ◌<◌, ◌≡◌, ◌≢◌, refl, true, not, Option, none, some, arith, ◌==◌, ltb,
  leb, if◌then◌else◌, update, inl, inr, Bool-cases, Option-cases, subst, ◌∙◌, if-elim, ==_iff,
  lt→ltb, le→ltb_false,
}
use retux.Tty.{
  Console, Tty, cells, vga_width, vga_height, num_consoles, blank, cell_of, active_con, set_active,
  update_cursor, render_console, scroll, put_cell, backspace, newline, next_row, print_cell, print,
  switch_to, init, fresh_console,
}
use retux.Tty.Loops.{copy_cells_cell, scroll_lem}

-- The cursor of a console is on the screen.
abbrev pub OnScreen : Console → Type 0
OnScreen con = (con.row < vga_height) × (con.col < vga_width)

-- The screen shows the active console.
abbrev pub Mirrors : Tty → Type 0
Mirrors t = (i : ℕ) → i < cells → t.vga i ≡ (active_con t).buffer i

pub record IsValid (t : Tty) : Type 0 where
  pub on_screen : (k : ℕ) → OnScreen (t.consoles k)
  pub mirrors : Mirrors t

-- A console with its cursor in the top left corner.
abbrev pub AtHome : Console → Type 0
AtHome con = (con.row ≡ 0) × (con.col ≡ 0)

render_console-IsValid :
    (t : Tty) → ((k : ℕ) → OnScreen (t.consoles k)) → IsValid (render_console t t.active_console)
unfolding render_console update_cursor
render_console-IsValid t on = record {
  on_screen = λ k. ground (arith, on k);
  mirrors = λ i h. ground (arith, copy_cells_cell cells 0 i (active_con t).buffer t.vga);
}

update_cursor-IsValid : (t : Tty) → IsValid t → IsValid (update_cursor t)
unfolding update_cursor
update_cursor-IsValid t v = record { on_screen = v.on_screen; mirrors = v.mirrors }

-- Replacing the active console by one that is on the screen and shows the same text.
set_active-IsValid :
    (t : Tty) (con : Console)
    → OnScreen con
    → ((i : ℕ) → i < cells → con.buffer i ≡ (active_con t).buffer i)
    → IsValid t
    → IsValid (set_active t con)
set_active-IsValid t con on same v = record {
  on_screen = λ k. ground (arith, v.on_screen k);
  mirrors = λ i h. ground (arith, v.mirrors i h, same i h);
}

-- A new line is safe from any row that is on the screen.
newline-IsValid : (t : Tty) → IsValid t → IsValid (newline t)
unfolding newline next_row
newline-IsValid t v =
    let con = active_con t in
    let on = v.on_screen t.active_console in
    let moved = set_active t (record con { row = (con.row + 1) % 256; col = 0 }) in
    if-elim IsValid (leb vga_height (active_con moved).row)
      (λ past. update_cursor-IsValid _ (
        render_console-IsValid (set_active moved (scroll (active_con moved)))
          (λ k. ground (arith, v.on_screen k, scroll_lem (active_con moved) 0))))
      (λ inside.
        update_cursor-IsValid moved (set_active-IsValid t _ (ground arith) (λ i h. refl) v))

-- The state after a write of one cell of the active console, which is made on the screen too.
abbrev written : Tty → ℕ → ℕ → Tty
written t pos cell = record t {
  consoles =
      update t.consoles t.active_console
        (record (active_con t) { buffer = update (active_con t).buffer pos cell });
  vga = update t.vga pos cell;
}

put_cell-eq :
    (t : Tty) (pos cell : ℕ) → pos < cells → put_cell t pos cell ≡ some (written t pos cell)
unfolding put_cell
put_cell-eq t pos cell h = rw (lt→ltb pos cells h)

put_cell-none : (t : Tty) (pos cell : ℕ) → cells ≤ pos → put_cell t pos cell ≡ none
unfolding put_cell
put_cell-none t pos cell h = rw (le→ltb_false pos cells h)

written-IsValid : (t : Tty) (pos cell : ℕ) → IsValid t → IsValid (written t pos cell)
written-IsValid t pos cell v = record {
  on_screen = λ k. ground (arith, v.on_screen k);
  mirrors = λ i h. ground (arith, v.mirrors i h);
}

-- The call returns, with no write outside a buffer, and leaves a valid state.
abbrev Safe : Option Tty → Type 0
Safe none = ⊥
Safe (some t) = IsValid t

print_cell-Safe : (t : Tty) (c : ℕ) → IsValid t → Safe (print_cell t c)
unfolding print_cell
print_cell-Safe t c v =
    let on = v.on_screen t.active_console in
    let pos = (active_con t).row * vga_width + (active_con t).col in
    let w = written t pos (cell_of c) in
    let v' = written-IsValid t pos (cell_of c) v in
    rw (put_cell-eq t pos (cell_of c) (omega arith), print_cell)
      (if-elim IsValid (leb vga_width (((active_con w).col + 1) % 256)) (λ _. newline-IsValid w v')
        (λ inside. update_cursor-IsValid _ (
          set_active-IsValid w (record (active_con w) { col = ((active_con w).col + 1) % 256 })
            (ground (arith, v'.on_screen t.active_console)) (λ i h. refl) v')))

backspace-Safe : (t : Tty) → ¬ AtHome (active_con t) → IsValid t → Safe (backspace t)
unfolding backspace
backspace-Safe t away v = elim (Bool-cases ((active_con t).col == 0)) [
  | inl at_left ↦
      let con = active_con t in
      let row : con.row ≢ 0 = λ e. away (e, (==_iff _ _).0 at_left) in
      rw at_left (
        set_active-IsValid t (record con { row = (con.row + 255) % 256; col = vga_width - 1 })
          (ground (arith, v.on_screen t.active_console)) (λ i h. refl) v)
  | inr inside ↦
      let con = active_con t in
      let moved = set_active t (record con { col = con.col - 1 }) in
      let v' =
        set_active-IsValid t (record con { col = con.col - 1 })
          (ground (arith, v.on_screen t.active_console)) (λ i h. refl) v in
      let pos = (active_con moved).row * vga_width + (active_con moved).col in
      rw (inside, backspace)
        (rw (put_cell-eq moved pos blank (ground (arith, v'.on_screen t.active_console)), backspace)
          (update_cursor-IsValid _ (written-IsValid moved pos blank v')))
]

print-IsValid :
    (t : Tty) (c : ℕ) → ¬ ((c ≡ 8) × AtHome (active_con t)) → IsValid t → Safe (print t c)
unfolding print
print-IsValid t c ok v =
    if-elim Safe (not t.initialized) (λ _. v)
      (λ on.
        if-elim Safe (c == 8) (λ bs. backspace-Safe t (λ h. ok ((==_iff c 8).0 bs, h)) v)
          (λ other.
            if-elim Safe (c == 10) (λ nl. newline-IsValid t v) (λ plain. print_cell-Safe t c v)))

-- Nothing past the end of a buffer or of the screen has changed.
abbrev pub Within : Tty → Tty → Type 0
Within t t' =
    ((k i : ℕ) → cells ≤ i → (t'.consoles k).buffer i ≡ (t.consoles k).buffer i)
    × ((i : ℕ) → cells ≤ i → t'.vga i ≡ t.vga i)

newline-Within : (t : Tty) → Within t (newline t)
unfolding newline next_row render_console update_cursor
newline-Within t =
    let con = active_con t in
    let moved = set_active t (record con { row = (con.row + 1) % 256; col = 0 }) in
    let scrolled = active_con (set_active moved (scroll (active_con moved))) in
    (
      λ k i past. ground (arith, past, (scroll_lem (active_con moved) i).0),
      λ i past. ground (arith, past, copy_cells_cell cells 0 i scrolled.buffer t.vga),
    )

Within-trans : (t u w : Tty) → Within t u → Within u w → Within t w
Within-trans t u w a b =
    (λ k i past. b.0 k i past ∙ a.0 k i past, λ i past. b.1 i past ∙ a.1 i past)

written-Within : (t : Tty) (pos cell : ℕ) → pos < cells → Within t (written t pos cell)
written-Within t pos cell small =
    (λ k i past. ground (arith, small, past), λ i past. ground (arith, small, past))

-- What a call that returns has left alone.
abbrev Stays : Tty → Option Tty → Type 0
Stays t none = Unit {0}
Stays t (some t') = Within t t'

-- A step that moves the cursor only.
cursor-Within :
    (t : Tty) (con : Console)
    → ((i : ℕ) → con.buffer i ≡ (active_con t).buffer i)
    → Within t (update_cursor (set_active t con))
unfolding update_cursor
cursor-Within t con same = (λ k i past. ground (arith, same i), λ i past. refl)

update_cursor-Within : (t : Tty) → Within t (update_cursor t)
unfolding update_cursor
update_cursor-Within t = (λ k i past. refl, λ i past. refl)

print_cell-Stays : (t : Tty) (c : ℕ) → Stays t (print_cell t c)
unfolding print_cell
print_cell-Stays t c =
    let pos = (active_con t).row * vga_width + (active_con t).col in
    let cell = cell_of c in
    let w = written t pos cell in
    elim (Bool-cases (ltb pos cells)) [
      | inr out ↦ rw (put_cell-none t pos cell (ground (arith, out)), print_cell) tt
      | inl inside ↦
          let small : pos < cells = ground (arith, inside) in
          let first = written-Within t pos cell small in
          rw (put_cell-eq t pos cell small, print_cell)
            (if-elim (Within t) (leb vga_width (((active_con w).col + 1) % 256))
              (λ _. Within-trans t w (newline w) first (newline-Within w))
              (λ _.
                Within-trans t w
                  (update_cursor
                    (set_active w (record (active_con w) { col = ((active_con w).col + 1) % 256 })))
                  first
                  (cursor-Within w (record (active_con w) { col = ((active_con w).col + 1) % 256 })
                    (λ i. refl))))
    ]

backspace-Stays : (t : Tty) → Stays t (backspace t)
unfolding backspace
backspace-Stays t =
    let con = active_con t in
    let moved = set_active t (record con { col = con.col - 1 }) in
    let pos = (active_con moved).row * vga_width + (active_con moved).col in
    let back : Within t moved = (λ k i past. ground arith, λ i past. refl) in
    elim (Bool-cases (con.col == 0)) [
      | inl left ↦ rw left (λ k i past. ground arith, λ i past. refl)
      | inr inside ↦ (elim (Bool-cases (ltb pos cells)) [
        | inr out ↦
            rw (inside, backspace)
              (rw (put_cell-none moved pos blank (ground (arith, out)), backspace) tt)
        | inl fits ↦
            let small : pos < cells = ground (arith, fits) in
            let w = written moved pos blank in
            rw (inside, backspace)
              (rw (put_cell-eq moved pos blank small, backspace)
                (Within-trans t moved (update_cursor w) back (
                  Within-trans moved w (update_cursor w) (written-Within moved pos blank small)
                    (update_cursor-Within w))))
      ])
    ]

print-Stays : (t : Tty) (c : ℕ) → Stays t (print t c)
unfolding print
print-Stays t c =
    if-elim (Stays t) (not t.initialized) (λ _. (λ k i past. refl, λ i past. refl))
      (λ _.
        if-elim (Stays t) (c == 8) (λ _. backspace-Stays t)
          (λ _. if-elim (Stays t) (c == 10) (λ _. newline-Within t) (λ _. print_cell-Stays t c)))

-- From a valid state print returns a valid state (each cursor on the screen, the screen showing
-- the active console), with every character written inside the buffer and nothing behind the 2000
-- cells of a console or of the screen changed, for every character but a backspace in the top left
-- corner.
pub print-Safe :
    (t : Tty) (c : ℕ)
    → ¬ ((c ≡ 8) × AtHome (active_con t))
    → IsValid t
    → (t' : Tty) × (print t c ≡ some t') × IsValid t' × Within t t'
print-Safe t c ok v = elim (Option-cases (print t c)) [
  | inl fault ↦ absurd (subst Safe fault (print-IsValid t c ok v))
  | inr (t', run) ↦
      (t', run, subst Safe run (print-IsValid t c ok v), subst (Stays t) run (print-Stays t c))
]

-- Off the screen, a plain character is written outside the buffer.
print_outside :
    (t : Tty) (c : ℕ)
    → t.initialized ≡ true
    → c ≢ 8
    → c ≢ 10
    → cells ≤ (active_con t).row * vga_width + (active_con t).col
    → print t c ≡ none
unfolding print print_cell
print_outside t c on not_bs not_nl out =
    if-elim (λ r. r ≡ none) (not t.initialized) (λ off. absurd (ground arith))
      (λ _.
        if-elim (λ r. r ≡ none) (c == 8) (λ bs. absurd (ground arith))
          (λ _.
            if-elim (λ r. r ≡ none) (c == 10) (λ nl. absurd (ground arith))
              (λ _. rw (put_cell-none t _ (cell_of c) out, print_cell))))

-- A backspace with the cursor in the top left corner takes the row to 255, and the next character
-- that is neither a backspace nor a new line is written outside the buffer.
pub backspace-AtHome :
    (t : Tty) (c : ℕ)
    → t.initialized ≡ true
    → AtHome (active_con t)
    → c ≢ 8
    → c ≢ 10
    → (t' : Tty) × (print t 8 ≡ some t')
      × ((active_con t').row ≡ 255)
      × ((active_con t').col ≡ 79)
      × (print t' c ≡ none)
unfolding print backspace
backspace-AtHome t c on home not_bs not_nl = (
  set_active t (record (active_con t) { row = 255; col = 79 }),
  ground arith,
  ground arith,
  ground arith,
  print_outside _ c on not_bs not_nl (ground arith),
)

-- After `init` the state is valid, whatever the memory held.
pub init-IsValid : (t : Tty) → IsValid (init t)
unfolding init fresh_console render_console update_cursor
init-IsValid t =
    let v =
      render_console-IsValid (record t { consoles = fresh_console; active_console = 0 })
        (λ k. omega arith) in
    record { on_screen = v.on_screen; mirrors = v.mirrors }

-- From a valid state switch_to leaves a valid one in which the asked console is active if its
-- number is in range, and no console is changed.
pub switch_to_lem :
    (t : Tty) (n : ℕ)
    → IsValid t
    → IsValid (switch_to t n)
      × ((switch_to t n).active_console ≡ (if ltb n num_consoles then n else t.active_console))
      × ((k : ℕ) → (switch_to t n).consoles k ≡ t.consoles k)
unfolding switch_to render_console update_cursor
switch_to_lem t n v = elim (Bool-cases (leb num_consoles n)) [
  | inl out ↦ rw out (v, ground arith, λ k. refl)
  | inr inside ↦
      let shown = record t { active_console = n } in
      rw inside (render_console-IsValid shown v.on_screen, ground arith, λ k. ground arith)
]
