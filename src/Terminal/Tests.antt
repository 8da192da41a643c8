-- ===== src/Terminal/Tests.antt =====
-- Tests of the terminal.
use aimini_os.Base.{◌+◌, ◌≡◌, [], ◌∷◌, ltb, arith, if◌then◌else◌}
use aimini_os.Samples.{empty_screen, last_cell}
use aimini_os.Terminal.{terminal_writestring, terminal_clear, scroll, make_vgaentry, make_color}
use aimini_os.Terminal.Scroll.{scroll_lem}
use aimini_os.Terminal.Bounds.{IsSafe, IsSafe-terminal_writestring, terminal_clear_lem}
use aimini_os.Terminal.Text.{IsPrinted, terminal_writestring-IsPrinted}

-- A character in the last cell scrolls.
IsSafe-terminal_writestring_example :
    IsSafe last_cell (terminal_writestring (b'a' ∷ 10 ∷ 200 ∷ []) last_cell)
IsSafe-terminal_writestring_example =
    IsSafe-terminal_writestring (b'a' ∷ 10 ∷ 200 ∷ []) last_cell
      (record { column = omega arith; row = omega arith })

terminal_writestring-IsPrinted_example :
    IsPrinted (b'O' ∷ b'K' ∷ []) empty_screen (terminal_writestring (b'O' ∷ b'K' ∷ []) empty_screen)
terminal_writestring-IsPrinted_example =
    terminal_writestring-IsPrinted (b'O' ∷ b'K' ∷ []) empty_screen (omega arith) (omega arith)

scroll_lem_example :
    scroll 0x0f20 (λ i. i) 5 ≡ (if ltb 5 1920 then 5 + 80 else if ltb 5 2000 then 0x0f20 else 5)
scroll_lem_example = scroll_lem 0x0f20 (λ i. i) 5

terminal_clear_lem_example :
    ((terminal_clear last_cell).vga 7
      ≡ (if ltb 7 2000 then make_vgaentry b' ' (make_color 15 0) else 7))
    × ((terminal_clear last_cell).cursor_x ≡ 0)
    × ((terminal_clear last_cell).cursor_y ≡ 0)
terminal_clear_lem_example = terminal_clear_lem last_cell 7
