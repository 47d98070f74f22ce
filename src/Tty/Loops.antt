-- ===== src/Tty/Loops.antt =====
-- What the copying loops of src/tty/tty.cpp leave in each cell.
use retux.Prelude.{
  ℕ, zero, suc, ◌+◌, ◌-◌, ◌*◌, ◌≤◌, ◌≡◌, refl, ◌&&◌, arith, ltb, leb, if◌then◌else◌, update,
}
use retux.Tty.{
  Console, cells, vga_width, vga_height, blank, copy_cells, move_cols, move_rows, fill_cells,
  scroll,
}

pub copy_cells_cell :
    (n i j : ℕ) (src dst : ℕ → ℕ)
    → copy_cells n i src dst j ≡ (if leb i j && ltb j (i + n) then src j else dst j)
unfolding copy_cells
copy_cells_cell zero i j src dst = ground arith
copy_cells_cell (suc n) i j src dst =
    ground (arith, copy_cells_cell n (i + 1) j src (update dst i (src i)))

pub fill_cells_cell :
    (n i v j : ℕ) (b : ℕ → ℕ) → fill_cells n i v b j ≡ (if leb i j && ltb j (i + n) then v else b j)
unfolding fill_cells
fill_cells_cell zero i v j b = ground arith
fill_cells_cell (suc n) i v j b = ground (arith, fill_cells_cell n (i + 1) v j (update b i v))

-- A row is copied up from cells that the same pass has not yet written.
move_cols_cell :
    (n col row j : ℕ) (b : ℕ → ℕ)
    → 1 ≤ row
    → col + n ≤ vga_width
    → move_cols n col row b j ≡ (
        if leb ((row - 1) * vga_width + col) j && ltb j ((row - 1) * vga_width + col + n)
        then b (j + vga_width)
        else b j)
unfolding move_cols
move_cols_cell zero col row j b p q = ground arith
move_cols_cell (suc n) col row j b p q = ground (
  arith,
  move_cols_cell n (col + 1) row j
      (update b ((row - 1) * vga_width + col) (b (row * vga_width + col))),
)

move_rows_cell :
    (n row j : ℕ) (b : ℕ → ℕ)
    → 1 ≤ row
    → move_rows n row b j ≡ (
        if leb ((row - 1) * vga_width) j && ltb j ((row - 1 + n) * vga_width)
        then b (j + vga_width)
        else b j)
unfolding move_rows
move_rows_cell zero row j b p = ground arith
move_rows_cell (suc n) row j b p = ground (
  arith,
  move_rows_cell n (row + 1) j (move_cols vga_width 0 row b),
  move_cols_cell vga_width 0 row j b,
  move_cols_cell vga_width 0 row (j + vga_width) b,
)

-- Scroll moves every line up by one, blanks the last, leaves what lies past the buffer alone and
-- puts the cursor at the start of the last line.
pub scroll_lem :
    (con : Console) (j : ℕ)
    → ((scroll con).buffer j ≡ (
        if ltb j ((vga_height - 1) * vga_width)
        then con.buffer (j + vga_width)
        else if ltb j cells
        then blank
        else con.buffer j))
      × ((scroll con).row ≡ vga_height - 1)
      × ((scroll con).col ≡ 0)
unfolding scroll
scroll_lem con j = (
  ground (
    arith,
    fill_cells_cell vga_width ((vga_height - 1) * vga_width) blank j
        (move_rows (vga_height - 1) 1 con.buffer),
    move_rows_cell (vga_height - 1) 1 j con.buffer,
  ),
  refl,
  refl,
)
