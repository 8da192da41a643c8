-- ===== src/Terminal/Scroll.antt =====
-- What the loops of terminal.c leave in each cell.
use aimini_os.Base.{ℕ, zero, suc, ◌+◌, ◌*◌, ◌≡◌, refl, ap, ltb, leb, ◌&&◌, if◌then◌else◌, arith}
use aimini_os.Terminal.{Vga, poke, copy_row, copy_rows, blank_row, blank_rows, scroll}

-- The rest of row `y`, from column `x` on, is taken from the row below.
copy_row_lem :
    (left x y : ℕ) (v : Vga) (i : ℕ)
    → x + left ≡ 80
    → copy_row left x y v i
      ≡ (if leb (y * 80 + x) i && ltb i (y * 80 + 80) then v (i + 80) else v i)
unfolding copy_row
copy_row_lem zero x y v i h = ground arith
copy_row_lem (suc left) x y v i h = ground (
  arith,
  copy_row_lem left (x + 1) y (poke v (y * 80 + x) (v ((y + 1) * 80 + x))) i,
  ap v {x = (y + 1) * 80 + x} {y = i + 80},
)

copy_rows_lem :
    (left y : ℕ) (v : Vga) (i : ℕ)
    → copy_rows left y v i ≡ (if leb (y * 80) i && ltb i ((y + left) * 80) then v (i + 80) else v i)
unfolding copy_rows
copy_rows_lem zero y v i = ground arith
copy_rows_lem (suc left) y v i = ground (
  arith,
  copy_rows_lem left (y + 1) (copy_row 80 0 y v) i,
  copy_row_lem 80 0 y v i refl,
  copy_row_lem 80 0 y v (i + 80) refl,
)

blank_row_lem :
    (blank left x y : ℕ) (v : Vga) (i : ℕ)
    → x + left ≡ 80
    → blank_row blank left x y v i
      ≡ (if leb (y * 80 + x) i && ltb i (y * 80 + 80) then blank else v i)
unfolding blank_row
blank_row_lem blank zero x y v i h = ground arith
blank_row_lem blank (suc left) x y v i h =
    ground (arith, blank_row_lem blank left (x + 1) y (poke v (y * 80 + x) blank) i)

pub blank_rows_lem :
    (blank left y : ℕ) (v : Vga) (i : ℕ)
    → blank_rows blank left y v i
      ≡ (if leb (y * 80) i && ltb i ((y + left) * 80) then blank else v i)
unfolding blank_rows
blank_rows_lem blank zero y v i = ground arith
blank_rows_lem blank (suc left) y v i = ground (
  arith,
  blank_rows_lem blank left (y + 1) (blank_row blank 80 0 y v) i,
  blank_row_lem blank 80 0 y v i refl,
)

-- Scrolling moves each of the last 24 rows up by one, blanks the last row, and writes no memory
-- outside the 2000 cells of the screen.
pub scroll_lem :
    (blank : ℕ) (v : Vga) (i : ℕ)
    → scroll blank v i ≡ (if ltb i 1920 then v (i + 80) else if ltb i 2000 then blank else v i)
unfolding scroll
scroll_lem blank v i =
    ground (arith, blank_row_lem blank 80 0 24 (copy_rows 24 0 v) i refl, copy_rows_lem 24 0 v i)
