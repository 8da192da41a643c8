-- ===== src/Terminal/Text.antt =====
-- What a printed text looks like on the screen.
use aimini_os.Base.{
  ℕ, zero, suc, ◌+◌, ◌-◌, ◌*◌, ◌<◌, ◌≡◌, ◌≢◌, refl, ap, ltb, if◌then◌else◌, arith, List, [], ◌∷◌,
  ◌++◌, length, u16, ne→eqb, lt→leb, eqb→eq, true, ◌==◌,
}
use aimini_os.Base.Table.{at_all, at_all→test}
use aimini_os.Terminal.{
  Terminal, poke, make_color, make_vgaentry, newline, terminal_putchar, terminal_writestring,
}

pub terminal_writestring-append :
    (s r : List ℕ) (t : Terminal)
    → terminal_writestring (s ++ r) t ≡ terminal_writestring r (terminal_writestring s t)
unfolding terminal_writestring
terminal_writestring-append [] r t = refl
terminal_writestring-append (c ∷ s) r t = terminal_writestring-append s r (terminal_putchar c t)

-- The text is of bytes, without a newline.
abbrev pub IsLine : List ℕ → Type 0
IsLine [] = Unit
IsLine (c ∷ s) = (c ≢ newline) × (c < 256) × IsLine s

-- The cell that a character gets: the character in the low byte, and in the high byte the attribute
-- of bright white on black, or all ones for a character from 0x80 on, which is negative as a char.
abbrev pub cell : ℕ → ℕ
cell c = c + 256 * (if ltb c 128 then 0x0f else 0xff)

every_cell : at_all 256 (λ c. make_vgaentry c (make_color 15 0) == cell c) ≡ true
unfolding at_all make_vgaentry make_color
every_cell = refl

make_vgaentry_lem : (c : ℕ) → c < 256 → make_vgaentry c (make_color 15 0) ≡ cell c
make_vgaentry_lem c h =
    eqb→eq (make_vgaentry c (make_color 15 0)) (cell c)
      (at_all→test 256 (λ d. make_vgaentry d (make_color 15 0) == cell d) c h every_cell)

putchar_within :
    (c : ℕ) (t : Terminal)
    → c ≢ newline
    → c < 256
    → t.cursor_x + 1 < 80
    → terminal_putchar c t ≡ record {
      cursor_x = t.cursor_x + 1;
      cursor_y = t.cursor_y;
      vga = poke t.vga (t.cursor_y * 80 + t.cursor_x) (cell c);
    }
unfolding terminal_putchar
putchar_within c t ne byte h =
    let e : u16 (t.cursor_x + 1) ≡ t.cursor_x + 1 = omega arith in
    rw (e, ne→eqb c newline ne, lt→leb 80 (t.cursor_x + 1) h, make_vgaentry_lem c byte) refl

-- The cell at place `k` of a printed text, or what was there.
abbrev pub shown : List ℕ → ℕ → ℕ → ℕ
shown [] k old = old
shown (c ∷ s) zero old = cell c
shown (c ∷ s) (suc k) old = shown s k old

shown-cons : (c : ℕ) (s : List ℕ) (k old : ℕ) → k ≢ 0 → shown (c ∷ s) k old ≡ shown s (k - 1) old
shown-cons c s zero old h = absurd (h refl)
shown-cons c s (suc k) old h = ap (λ n. shown s n old) (omega arith)

pub record IsPrinted (s : List ℕ) (t t' : Terminal) : Type 0 where
  pub column : t'.cursor_x ≡ t.cursor_x + length s
  pub row : t'.cursor_y ≡ t.cursor_y
  pub cells :
      (i : ℕ)
      → let start = t.cursor_y * 80 + t.cursor_x in
        t'.vga i ≡ (if ltb i start then t.vga i else shown s (i - start) (t.vga i))

after_char : ℕ → Terminal → Terminal
after_char c t = record {
  cursor_x = t.cursor_x + 1;
  cursor_y = t.cursor_y;
  vga = poke t.vga (t.cursor_y * 80 + t.cursor_x) (cell c);
}

IsPrinted-cons :
    (c : ℕ) (s : List ℕ) (t : Terminal) {t' : Terminal}
    → IsPrinted s (after_char c t) t'
    → IsPrinted (c ∷ s) t t'
unfolding after_char
IsPrinted-cons c s t rest =
    let start : ℕ = t.cursor_y * 80 + t.cursor_x in
    record {
      column = omega (arith, rest.column);
      row = rest.row;
      cells = λ i. ground (
        arith,
        rest.cells i,
        shown-cons c s (i - start) (t.vga i),
        ap (λ (n : ℕ). shown s n (t.vga i)) {x = i - start - 1} {y = i - (start + 1)},
      );
    }

-- A text of bytes without a newline, printed where it ends before the last column of its row, stands
-- in the cells from the cursor on in its order: each byte in the low half of its cell, with the
-- attribute 0x0f in the high half, or 0xff for a byte from 0x80 on. The other cells stay as they are,
-- and the cursor stands behind the text in its row.
pub terminal_writestring-IsPrinted :
    (s : List ℕ) (t : Terminal)
    → IsLine s
    → t.cursor_x + length s < 80
    → IsPrinted s t (terminal_writestring s t)
unfolding terminal_writestring after_char
terminal_writestring-IsPrinted [] t line fits = record {
  column = omega arith;
  row = refl;
  cells = λ i. ground arith;
}
terminal_writestring-IsPrinted (c ∷ s) t line fits =
    rw (putchar_within c t line.0 line.1 (omega arith)) (
      IsPrinted-cons c s t (terminal_writestring-IsPrinted s (after_char c t) line.2 (omega arith)))
