-- ===== src/Serial.antt =====
-- serial.c at the level of the port: the initialisation, and sending with its wait for the line.
-- The other modules take the port as the bytes that are handed to it (`Console.serial`).
pub mod Laws
mod Tests
use aimini_os.Base.{
  ℕ, zero, suc, ◌+◌, List, [], ◌∷◌, ◌==◌, if◌then◌else◌, M, skip, ◌>>=◌, ◌>>◌, fault,
}
use aimini_os.Machine.{Machine, Act, has, inb, outb}
use aimini_os.Terminal

abbrev pub com1 : ℕ
com1 = 0x3f8

-- Speed, format and buffers; then a byte is sent through the loop of the chip.
unfoldable pub set_line : Act
set_line = do
  outb (com1 + 1) 0x00
  outb (com1 + 3) 0x80
  outb (com1 + 0) 0x03
  outb (com1 + 1) 0x00
  outb (com1 + 3) 0x03
  outb (com1 + 2) 0xc7
  outb (com1 + 4) 0x0b
  outb (com1 + 4) 0x1e
  outb (com1 + 0) 0xae

-- Only where the byte comes back is the loop left.
unfoldable pub leave_loop : ℕ → Act
leave_loop echo = if echo == 0xae then outb (com1 + 4) 0x0f else skip

unfoldable pub serial_init : Act
serial_init = do set_line; echo ← inb (com1 + 0); leave_loop echo

-- `while (!(inb(COM1 + 5) & 0x20));` with at most `fuel` turns: `none` if the line is still busy.
unfoldable pub wait_line : ℕ → Act
wait_line zero = fault
wait_line (suc fuel) = do status ← inb (com1 + 5); if has status 0x20 then skip else wait_line fuel

unfoldable pub put_byte : ℕ → ℕ → Act
put_byte fuel c = do wait_line fuel; outb com1 c

-- `serial_putc`, which calls itself for the carriage return.
unfoldable pub serial_putc : ℕ → ℕ → Act
serial_putc fuel c = do put_byte fuel c; if c == Terminal.newline then put_byte fuel b'\r' else skip

unfoldable pub serial_write_string : ℕ → List ℕ → Act
serial_write_string fuel [] = skip
serial_write_string fuel (c ∷ str) = do serial_putc fuel c; serial_write_string fuel str
