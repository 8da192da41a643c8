-- ===== src/Format/Tests.antt =====
-- Tests of the number formats.
use aimini_os.Base.{
  ℕ, ◌%◌, get_elem?, replicate, ◌≡◌, refl, some, none, List, [], ◌∷◌, ◌==◌, arith, if◌then◌else◌,
}
use aimini_os.Format.{
  terminal_dec, serial_dec, terminal_ip, serial_ip, terminal_hex8, terminal_hex16, terminal_hex32,
  serial_hex8, serial_hex16, serial_hex32, terminal_hex, skip_zeros, print_hex_buffer,
  print_hex_head, hex_digit, c_string,
}
use aimini_os.Format.Decimal.{IsDecimal, terminal_dec-IsDecimal, serial_dec-eq-terminal_dec}
use aimini_os.Format.Reverse.{swap, swap_ends, reverse_in_place}
use aimini_os.Format.Signed.{
  pos, negsuc, push_back, digits_of, unsigned_text, with_sign, terminal_writeint, serial_write_int,
}
use aimini_os.Format.Octets.{serial_ip-eq-terminal_ip}
use aimini_os.Format.Hex.{
  read_hex, read_hex-terminal_hex, serial_hex-eq-terminal_hex, print_hex_buffer_lem,
}

terminal_hex_test : terminal_hex 0xbeef ≡ b'0' ∷ b'x' ∷ b'b' ∷ b'e' ∷ b'e' ∷ b'f' ∷ []
unfolding terminal_hex skip_zeros
terminal_hex_test = refl

terminal_dec-IsDecimal_example : IsDecimal 4294967295 (terminal_dec 4294967295)
terminal_dec-IsDecimal_example = terminal_dec-IsDecimal 4294967295 (omega arith)

serial_dec-eq-terminal_dec_test : serial_dec 10 ≡ terminal_dec 10
serial_dec-eq-terminal_dec_test = serial_dec-eq-terminal_dec 10 (omega arith)

serial_ip-eq-terminal_ip_test : serial_ip 0x0a00020f ≡ terminal_ip 0x0a00020f
serial_ip-eq-terminal_ip_test = serial_ip-eq-terminal_ip 0x0a00020f

read_hex-terminal_hex_example :
    ((s : List ℕ) × (terminal_hex8 0xfe ≡ b'0' ∷ b'x' ∷ s) × (read_hex 0 s ≡ 0xfe))
    × ((s : List ℕ) × (terminal_hex16 0x10ec ≡ b'0' ∷ b'x' ∷ s) × (read_hex 0 s ≡ 0x10ec))
    × ((s : List ℕ) × (terminal_hex32 0xb8000 ≡ b'0' ∷ b'x' ∷ s) × (read_hex 0 s ≡ 0xb8000))
read_hex-terminal_hex_example =
    read_hex-terminal_hex 0xfe 0x10ec 0xb8000 (omega arith) (omega arith) (omega arith)

serial_hex-eq-terminal_hex_test :
    (serial_hex8 0xb8 ≡ terminal_hex8 0xb8)
    × (serial_hex16 0xb8 ≡ terminal_hex16 0xb8)
    × (serial_hex32 0xb8 ≡ terminal_hex32 0xb8)
serial_hex-eq-terminal_hex_test = serial_hex-eq-terminal_hex 0xb8

-- A stack byte that is not zero: the string does not end in the buffer.
abbrev zeros : List ℕ
zeros = replicate 11 0

print_hex_buffer_lem_example :
    (get_elem? (print_hex_head zeros) 9 ≡ some 0)
    × (get_elem? (print_hex_buffer zeros 0x10ec) 9 ≡ some (hex_digit (0x10ec % 16)))
    × (c_string (print_hex_buffer zeros 0x10ec)
        ≡ (if 0 == 0 then some (terminal_hex32 0x10ec) else none))
print_hex_buffer_lem_example = print_hex_buffer_lem 0 0 0 0 0 0 0 0 0 0 0 0x10ec

serial_write_int_test : serial_write_int (negsuc 41) 16 ≡ some (b'-' ∷ b'2' ∷ b'A' ∷ [])
unfolding serial_write_int with_sign unsigned_text digits_of push_back reverse_in_place swap_ends
    swap
serial_write_int_test = refl

-- The least `int` has no negation.
terminal_writeint_test : terminal_writeint (negsuc 2147483647) 10 ≡ none
unfolding terminal_writeint with_sign
terminal_writeint_test = refl

-- Behind base 16 a digit is the array's NUL, and there is none behind that.
serial_write_int_base_test : serial_write_int (pos 17) 18 ≡ none
unfolding serial_write_int with_sign unsigned_text digits_of push_back
serial_write_int_base_test = refl
