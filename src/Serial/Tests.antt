-- ===== src/Serial/Tests.antt =====
-- Sending on a line that is free at every second read.
use aimini_os.Base.{ℕ, ◌≡◌, refl, List, [], ◌∷◌, ◌++◌, map, inl, inr}
use aimini_os.Console.{serial_bytes}
use aimini_os.Machine.{PortEvent, port_in, port_out, Machine}
use aimini_os.Samples.{guest}
use aimini_os.Serial.{serial_write_string}
use aimini_os.Serial.Laws.{Frees, IsLine, Puts, out_byte, serial_write_string-Puts}

abbrev line : List PortEvent → ℕ
line (port_in v q ∷ port_in w p ∷ h) = 0x60
line h = 0

line-Frees : (h : List PortEvent) → Frees 2 line h
line-Frees [] = inr (inl refl)
line-Frees (port_in w p ∷ h) = inl refl
line-Frees (port_out w p v ∷ h) = inr (inl refl)

line-IsLine : IsLine 2 line
line-IsLine = record { frees = line-Frees }

abbrev with_line : Machine
with_line = record guest { device = line }

abbrev ok_text : List ℕ
ok_text = b'o' ∷ b'k' ∷ b'\n' ∷ []

serial_write_string-Puts_example :
    Puts with_line
      (map out_byte (serial_bytes ok_text []) ++ [])
      (serial_write_string 2 ok_text with_line)
serial_write_string-Puts_example = serial_write_string-Puts 2 ok_text with_line line-IsLine

bytes_test : serial_bytes ok_text [] ≡ b'\r' ∷ b'\n' ∷ b'k' ∷ b'o' ∷ []
unfolding serial_bytes
bytes_test = refl
