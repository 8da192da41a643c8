-- ===== src/Console.antt =====
-- The two outputs of the kernel: the screen, and the serial port as the bytes that were handed to
-- it, the latest first.
use aimini_os.Base.{ℕ, List, [], ◌∷◌, ◌==◌, if◌then◌else◌}
use aimini_os.Terminal.{Terminal, terminal_writestring, terminal_clear}
use aimini_os.Terminal

pub record Console : Type 0 where
  pub screen : Terminal
  pub uart : List ℕ

unfoldable pub print : List ℕ → Console → Console
print s c = record c { screen = terminal_writestring s c.screen }

unfoldable pub clear : Console → Console
clear c = record c { screen = terminal_clear c.screen }

-- `serial_putc` sends a carriage return behind each newline.
unfoldable pub serial_bytes : List ℕ → List ℕ → List ℕ
serial_bytes [] sent = sent
serial_bytes (c ∷ s) sent =
    serial_bytes s (if c == Terminal.newline then b'\r' ∷ c ∷ sent else c ∷ sent)

unfoldable pub serial : List ℕ → Console → Console
serial s c = record c { uart = serial_bytes s c.uart }
