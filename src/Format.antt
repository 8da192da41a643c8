-- ===== src/Format.antt =====
-- The texts that the number printers of terminal.c and serial.c send, character by character. A
-- local buffer that is filled from its end is a list that grows at the front.
pub mod Decimal
pub mod Octets
pub mod Hex
pub mod Reverse
pub mod Signed
mod Tests
use aimini_os.Base.{
  ℕ, zero, suc, ◌+◌, ◌-◌, ◌*◌, ◌/◌, ◌%◌, ◌^◌, Bool, true, false, ◌&&◌, not, Option, none, some,
  List, [], ◌∷◌, ◌++◌, ◌==◌, ltb, if◌then◌else◌, bit_and, shr, u8, u32, get_elem?, set,
}
use Prim.Native.Char.{code}
use Prim.Native.String
use Prim.Native.String.{String}

-- The bytes of a literal of ASCII characters.
unfoldable pub ascii : String → List ℕ
ascii String.[] = []
ascii (String.◌∷◌ c s) = code c ∷ ascii s

-- `while (n > 0) { buf[i++] = '0' + (n % 10); n = n / 10; }`, the buffer's last byte first.
unfoldable pub push_digits : ℕ → ℕ → List ℕ → List ℕ
push_digits zero n buf = buf
push_digits (suc f) n buf = elim (ltb 0 n) [
  | true ↦ push_digits f (n / 10) ((b'0' + n % 10) ∷ buf)
  | false ↦ buf
]

-- A 32-bit number has at most ten digits: `Decimal.read_dec-terminal_dec`.
abbrev pub max_digits : ℕ
max_digits = 10

-- `terminal_writedec`
unfoldable pub terminal_dec : ℕ → List ℕ
terminal_dec n = if n == 0 then b'0' ∷ [] else push_digits max_digits n []

-- `do { *--p = '0' + (value % 10); value /= 10; } while (value);`
unfoldable pub push_digits_do : ℕ → ℕ → List ℕ → List ℕ
push_digits_do zero value p = p
push_digits_do (suc f) value p =
    let p' = (b'0' + value % 10) ∷ p in
    elim (value / 10 == 0) [ true ↦ p' | false ↦ push_digits_do f (value / 10) p' ]

-- `serial_write_dec`
unfoldable pub serial_dec : ℕ → List ℕ
serial_dec value = push_digits_do max_digits value []

-- `(ip >> k) & 0xFF`
abbrev pub octet : ℕ → ℕ → ℕ
octet ip k = bit_and (shr ip k) 0xff

-- The block of `serial_print_ip` that stands there once for each octet `o`.
unfoldable pub serial_octet : ℕ → List ℕ
serial_octet o =
    let b0 = u8 (b'0' + o / 100) in
    let b1 = u8 (b'0' + o / 10 % 10) in
    let b2 = u8 (b'0' + o % 10) in
    if b0 == b'0' then if b1 == b'0' then b2 ∷ [] else b1 ∷ b2 ∷ [] else b0 ∷ b1 ∷ b2 ∷ []

abbrev pub dotted : List ℕ → List ℕ → List ℕ → List ℕ → List ℕ
dotted a b c d = a ++ (b'.' ∷ b ++ (b'.' ∷ c ++ (b'.' ∷ d)))

unfoldable pub serial_ip : ℕ → List ℕ
serial_ip ip =
    dotted (serial_octet (octet ip 24)) (serial_octet (octet ip 16)) (serial_octet (octet ip 8))
      (serial_octet (bit_and ip 0xff))

-- `print_ip` of network.c, on the terminal.
unfoldable pub terminal_ip : ℕ → List ℕ
terminal_ip ip =
    dotted (terminal_dec (octet ip 24)) (terminal_dec (octet ip 16)) (terminal_dec (octet ip 8))
      (terminal_dec (octet ip 0))

-- `digit < 10 ? '0' + digit : 'A' + digit - 10`
unfoldable pub hex_digit : ℕ → ℕ
hex_digit d = if ltb d 10 then b'0' + d else b'A' + d - 10

abbrev pub nibble : ℕ → ℕ → ℕ
nibble n k = bit_and (shr n k) 0xf

-- The loop over `i = 4 * left - 4, …, 4, 0`.
unfoldable pub hex_digits_from : ℕ → ℕ → List ℕ
hex_digits_from zero n = []
hex_digits_from (suc left) n = hex_digit (nibble n (4 * left)) ∷ hex_digits_from left n

unfoldable pub terminal_hex8 : ℕ → List ℕ
terminal_hex8 n = b'0' ∷ b'x' ∷ hex_digits_from 2 n

unfoldable pub terminal_hex16 : ℕ → List ℕ
terminal_hex16 n = b'0' ∷ b'x' ∷ hex_digits_from 4 n

unfoldable pub terminal_hex32 : ℕ → List ℕ
terminal_hex32 n = b'0' ∷ b'x' ∷ hex_digits_from 8 n

-- `hex_digits[d]` of serial.c and `hex_chars[d]` of `print_hex`.
abbrev pub hex_table : List ℕ
hex_table =
    b'0' ∷ b'1' ∷ b'2' ∷ b'3' ∷ b'4' ∷ b'5' ∷ b'6' ∷ b'7' ∷ b'8' ∷ b'9' ∷ b'A' ∷ b'B' ∷ b'C' ∷ b'D'
    ∷ b'E' ∷ b'F' ∷ []

-- An index is below 16 at every use.
unfoldable pub table_digit : ℕ → ℕ
table_digit d = elim (get_elem? hex_table d) [ some c ↦ c | none ↦ 0 ]

unfoldable pub serial_hex8 : ℕ → List ℕ
serial_hex8 v = b'0' ∷ b'x' ∷ table_digit (nibble v 4) ∷ table_digit (bit_and v 0xf) ∷ []

unfoldable pub serial_hex16 : ℕ → List ℕ
serial_hex16 v =
    b'0'
    ∷ b'x'
    ∷ table_digit (nibble v 12)
    ∷ table_digit (nibble v 8)
    ∷ table_digit (nibble v 4)
    ∷ table_digit (bit_and v 0xf)
    ∷ []

unfoldable pub serial_hex32 : ℕ → List ℕ
serial_hex32 v =
    b'0'
    ∷ b'x'
    ∷ table_digit (nibble v 28)
    ∷ table_digit (nibble v 24)
    ∷ table_digit (nibble v 20)
    ∷ table_digit (nibble v 16)
    ∷ table_digit (nibble v 12)
    ∷ table_digit (nibble v 8)
    ∷ table_digit (nibble v 4)
    ∷ table_digit (bit_and v 0xf)
    ∷ []

-- `terminal_writehex`: lower case, without leading zeros; the loop at `i = 4 * left - 4`.
unfoldable pub skip_zeros : ℕ → Bool → ℕ → List ℕ
skip_zeros zero leading n = if leading then b'0' ∷ [] else []
skip_zeros (suc left) leading n =
    let digit = nibble n (4 * left) in
    let c = if ltb digit 10 then b'0' + digit else b'a' + (digit - 10) in
    let skipped = skip_zeros left leading n in
    let printed = c ∷ skip_zeros left false n in
    if digit == 0 && (leading && not (4 * left == 0)) then skipped else printed

unfoldable pub terminal_hex : ℕ → List ℕ
terminal_hex n = b'0' ∷ b'x' ∷ skip_zeros 8 true n

-- The stores of `print_hex` in front of its loop, into its buffer of eleven bytes, with what the
-- stack holds there.
unfoldable pub print_hex_head : List ℕ → List ℕ
print_hex_head buffer = set (set (set buffer 0 b'0') 1 b'x') 9 0

-- `for (int i = 7; i >= 0; i--) { buffer[i + 2] = hex_chars[num & 0xF]; num >>= 4; }`
unfoldable pub print_hex_loop : ℕ → ℕ → List ℕ → List ℕ
print_hex_loop zero num buffer = buffer
print_hex_loop (suc i) num buffer =
    print_hex_loop i (shr num 4) (set buffer (i + 2) (table_digit (bit_and num 0xf)))

-- The buffer that `print_hex` prints as a string.
unfoldable pub print_hex_buffer : List ℕ → ℕ → List ℕ
print_hex_buffer buffer num = print_hex_loop 8 num (print_hex_head buffer)

-- Reading a C string in a buffer: `none` if it runs past the end of the buffer.
unfoldable pub c_string : List ℕ → Option (List ℕ)
c_string [] = none
c_string (c ∷ rest) =
    let later = c_string rest in
    if c == 0 then some [] else elim later [ none ↦ none | some s ↦ some (c ∷ s) ]

-- `debug_log`
unfoldable pub debug_log : List ℕ → List ℕ
debug_log message = ascii "[DEBUG] " ++ message

-- `debug_log_hex`, with what the stack holds in the buffer of `print_hex`.
unfoldable pub debug_log_hex : List ℕ → List ℕ → ℕ → Option (List ℕ)
debug_log_hex buffer prefix value = elim (c_string (print_hex_buffer buffer value)) [
  | none ↦ none
  | some text ↦ some (ascii "[DEBUG] " ++ (prefix ++ (ascii ": " ++ (text ++ ascii "\n"))))
]
