-- ===== src/Terminal.antt =====
-- terminal.c: the VGA text screen. The 16-bit cells from 0xB8000 on are a function of the index.
pub mod Scroll
pub mod Bounds
pub mod Text
mod Tests
use aimini_os.Base.{
  ℕ, zero, suc, ◌+◌, ◌*◌, ◌^◌, List, [], ◌∷◌, ◌==◌, ltb, leb, if◌then◌else◌, bit_or, u8, u16, shl,
}

abbrev pub vga_width : ℕ
vga_width = 80

abbrev pub vga_height : ℕ
vga_height = 25

abbrev pub Vga : Type 0
Vga = ℕ → ℕ

-- The static cursor and the display memory.
pub record Terminal : Type 0 where
  pub cursor_x : ℕ
  pub cursor_y : ℕ
  pub vga : Vga

unfoldable pub make_color : ℕ → ℕ → ℕ
make_color fg bg = u8 (bit_or fg (shl bg 4))

-- `uint16_t c16 = c;` of a signed char: a byte from 0x80 on is extended by ones.
abbrev pub char16 : ℕ → ℕ
char16 c = if ltb c 0x80 then c else c + 0xff00

unfoldable pub make_vgaentry : ℕ → ℕ → ℕ
make_vgaentry c color = u16 (bit_or (char16 c) (shl color 8))

-- `vga[index] = entry;`
abbrev pub poke : Vga → ℕ → ℕ → Vga
poke v index entry i = if i == index then entry else v i

-- `for (x = …; x < VGA_WIDTH; x++)` over a row that is moved up, with `left` rounds to go.
unfoldable pub copy_row : ℕ → ℕ → ℕ → Vga → Vga
copy_row zero x y v = v
copy_row (suc left) x y v =
    copy_row left (x + 1) y (poke v (y * vga_width + x) (v ((y + 1) * vga_width + x)))

unfoldable pub copy_rows : ℕ → ℕ → Vga → Vga
copy_rows zero y v = v
copy_rows (suc left) y v = copy_rows left (y + 1) (copy_row vga_width 0 y v)

-- The loop that fills row `y` with blanks.
unfoldable pub blank_row : ℕ → ℕ → ℕ → ℕ → Vga → Vga
blank_row blank zero x y v = v
blank_row blank (suc left) x y v = blank_row blank left (x + 1) y (poke v (y * vga_width + x) blank)

unfoldable pub blank_rows : ℕ → ℕ → ℕ → Vga → Vga
blank_rows blank zero y v = v
blank_rows blank (suc left) y v = blank_rows blank left (y + 1) (blank_row blank vga_width 0 y v)

-- The scrolling that both ends of `terminal_putchar` hold.
unfoldable pub scroll : ℕ → Vga → Vga
scroll blank v = blank_row blank vga_width 0 24 (copy_rows 24 0 v)

-- `cursor_y++`, and the scrolling when it leaves the screen.
unfoldable pub next_row : ℕ → Terminal → Terminal
next_row blank t =
    let y = u16 (t.cursor_y + 1) in
    if leb vga_height y
    then record { cursor_x = 0; cursor_y = 24; vga = scroll blank t.vga }
    else record { cursor_x = 0; cursor_y = y; vga = t.vga }

abbrev pub newline : ℕ
newline = 10

unfoldable pub terminal_putchar : ℕ → Terminal → Terminal
terminal_putchar c t =
    let color = make_color 15 0 in
    let blank = make_vgaentry b' ' color in
    let v = poke t.vga (t.cursor_y * vga_width + t.cursor_x) (make_vgaentry c color) in
    let x = u16 (t.cursor_x + 1) in
    if c == newline
    then next_row blank t
    else if leb vga_width x
    then next_row blank (record t { vga = v })
    else record t { cursor_x = x; vga = v }

-- A C string is the list of its bytes before the NUL.
unfoldable pub terminal_writestring : List ℕ → Terminal → Terminal
terminal_writestring [] t = t
terminal_writestring (c ∷ s) t = terminal_writestring s (terminal_putchar c t)

-- `terminal_initialize` has the same body.
unfoldable pub terminal_clear : Terminal → Terminal
terminal_clear t = record {
  cursor_x = 0;
  cursor_y = 0;
  vga = blank_rows (make_vgaentry b' ' (make_color 15 0)) vga_height 0 t.vga;
}
