-- ===== src/Terminal/Bounds.antt =====
-- The cursor stays on the screen, and no call writes display memory outside the screen.
use aimini_os.Base.{
  ℕ, ◌+◌, ◌*◌, ◌<◌, ◌≡◌, refl, ◌==◌, ltb, leb, if◌then◌else◌, arith, List, [], ◌∷◌, ◌∙◌, u16,
  if_intro,
}
use aimini_os.Terminal.{
  Terminal, vga_width, poke, make_color, make_vgaentry, next_row, newline, terminal_putchar,
  terminal_writestring, terminal_clear,
}
use aimini_os.Terminal.Scroll.{scroll_lem, blank_rows_lem}

pub record IsOnScreen (t : Terminal) : Type 0 where
  pub column : t.cursor_x < 80
  pub row : t.cursor_y < 25

-- From a screen with the cursor on it to another, with no write past the 2000 cells.
pub record IsSafe (t t' : Terminal) : Type 0 where
  pub on_screen : IsOnScreen t'
  pub outside : (i : ℕ) → t'.vga (2000 + i) ≡ t.vga (2000 + i)

IsSafe-next_row : (blank : ℕ) (t : Terminal) → t.cursor_y < 25 → IsSafe t (next_row blank t)
unfolding next_row
IsSafe-next_row blank t h = record {
  on_screen = ground arith;
  outside = λ i. ground (arith, scroll_lem blank t.vga (2000 + i));
}

IsSafe-trans : (t u w : Terminal) → IsSafe t u → IsSafe u w → IsSafe t w
IsSafe-trans t u w a b = record {
  on_screen = b.on_screen;
  outside = λ i. b.outside i ∙ a.outside i;
}

pub IsSafe-terminal_putchar :
    (c : ℕ) (t : Terminal) → IsOnScreen t → IsSafe t (terminal_putchar c t)
unfolding terminal_putchar
IsSafe-terminal_putchar c t v =
    if_intro (IsSafe t) (c == newline) (λ _. IsSafe-next_row blank t v.row)
      (λ _.
        if_intro (IsSafe t) (leb vga_width (u16 (t.cursor_x + 1)))
          (λ _. IsSafe-trans t written _ safe (IsSafe-next_row blank written v.row))
          (λ h. record {
            on_screen = record { column = ground arith; row = v.row };
            outside = safe.outside;
          }))
  where
    blank : ℕ
    blank = make_vgaentry b' ' (make_color 15 0)

    written : Terminal
    written = record t {
      vga = poke t.vga (t.cursor_y * vga_width + t.cursor_x) (make_vgaentry c (make_color 15 0));
    }

    safe : IsSafe t written
    safe = record {
      on_screen = record { column = v.column; row = v.row };
      outside = λ i. ground arith;
    }

-- With the cursor on the screen, printing a string keeps it there and writes no memory but the
-- screen's cells, whatever bytes the string has.
pub IsSafe-terminal_writestring :
    (s : List ℕ) (t : Terminal) → IsOnScreen t → IsSafe t (terminal_writestring s t)
unfolding terminal_writestring
IsSafe-terminal_writestring [] t v = record { on_screen = v; outside = λ i. refl }
IsSafe-terminal_writestring (c ∷ s) t v =
    let first = IsSafe-terminal_putchar c t v in
    IsSafe-trans t (terminal_putchar c t) _ first
      (IsSafe-terminal_writestring s (terminal_putchar c t) first.on_screen)

-- Clearing fills the 2000 cells with blanks, writes no other memory, and puts the cursor at the
-- upper left corner.
pub terminal_clear_lem :
    (t : Terminal) (i : ℕ)
    → ((terminal_clear t).vga i
        ≡ (if ltb i 2000 then make_vgaentry b' ' (make_color 15 0) else t.vga i))
      × ((terminal_clear t).cursor_x ≡ 0)
      × ((terminal_clear t).cursor_y ≡ 0)
unfolding terminal_clear
terminal_clear_lem t i =
    (ground (arith, blank_rows_lem (make_vgaentry b' ' (make_color 15 0)) 25 0 t.vga i), refl, refl)
