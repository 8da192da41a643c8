-- ===== src/Format/Hex.antt =====
-- Hexadecimal texts: what they read back as, and the buffer of `print_hex`, which lacks its NUL.
use aimini_os.Base.{
  ℕ, zero, suc, ◌+◌, ◌-◌, ◌*◌, ◌/◌, ◌%◌, ◌^◌, ◌<◌, ◌≡◌, refl, ◌∙◌, ap, List, [], ◌∷◌, ◌==◌, ltb,
  none, some, get_elem?, if◌then◌else◌, arith, bit_and, shr, eqb→eq, Bool-cases, inl, inr,
}
use native.Mathlib.Nat.{pow-suc, div-div-eq-div-mul}
use aimini_os.Base.Bits.{bit_and-low}
use mathlib.Core.Bool.{true, false}
use aimini_os.Base.Table.{at_all, at_all→test}
use aimini_os.Format.{
  hex_digit, hex_digits_from, nibble, table_digit, terminal_hex8, terminal_hex16, terminal_hex32,
  serial_hex8, serial_hex16, serial_hex32, print_hex_buffer, print_hex_head, print_hex_loop,
  c_string,
}

abbrev pub hex_value : ℕ → ℕ
hex_value c = if ltb c b'A' then c - b'0' else c - b'A' + 10

-- The number that a text of upper case digits stands for, read behind the number `acc`.
abbrev pub read_hex : ℕ → List ℕ → ℕ
read_hex acc [] = acc
read_hex acc (c ∷ s) = read_hex (acc * 16 + hex_value c) s

hex_value-hex_digit : (d : ℕ) → d < 16 → hex_value (hex_digit d) ≡ d
unfolding hex_digit
hex_value-hex_digit d h = ground arith

nibble-lt : (n k : ℕ) → nibble n k < 16
nibble-lt n k = omega (arith, bit_and-low 4 (shr n k))

power_of_sixteen : (k : ℕ) → 2 ^ (4 * k) ≡ 16 ^ k
power_of_sixteen zero = refl
power_of_sixteen (suc k) =
    let e : 4 * suc k ≡ suc (suc (suc (suc (4 * k)))) = omega arith in
    rw e (
      omega (
        arith,
        pow-suc 2 (suc (suc (suc (4 * k)))),
        pow-suc 2 (suc (suc (4 * k))),
        pow-suc 2 (suc (4 * k)),
        pow-suc 2 (4 * k),
        pow-suc 16 k,
        power_of_sixteen k,
      ))

nibble_lem : (n k : ℕ) → nibble n (4 * k) ≡ n / 16 ^ k % 16
nibble_lem n k = rw (← power_of_sixteen k) (bit_and-low 4 (shr n (4 * k)))

read_hex-hex_digits_from : (left n : ℕ) → read_hex (n / 16 ^ left) (hex_digits_from left n) ≡ n
unfolding hex_digits_from
read_hex-hex_digits_from zero n = omega arith
read_hex-hex_digits_from (suc left) n =
    ap (λ a. read_hex a (hex_digits_from left n)) next ∙ read_hex-hex_digits_from left n
  where
    next : n / 16 ^ suc left * 16 + hex_value (hex_digit (nibble n (4 * left))) ≡ n / 16 ^ left
    next = omega (
      arith,
      hex_value-hex_digit (nibble n (4 * left)) (nibble-lt n (4 * left)),
      nibble_lem n left,
      div-div-eq-div-mul n (16 ^ left) 16,
      ap (λ (d : ℕ). n / d) (pow-suc 16 left),
    )

-- Behind its "0x", a hexadecimal text of the terminal reads back as the number that was printed, for
-- a number that fits the width, at each of the three widths.
pub read_hex-terminal_hex :
    (a b n : ℕ)
    → a < 2 ^ 8
    → b < 2 ^ 16
    → n < 2 ^ 32
    → ((s : List ℕ) × (terminal_hex8 a ≡ b'0' ∷ b'x' ∷ s) × (read_hex 0 s ≡ a))
      × ((s : List ℕ) × (terminal_hex16 b ≡ b'0' ∷ b'x' ∷ s) × (read_hex 0 s ≡ b))
      × ((s : List ℕ) × (terminal_hex32 n ≡ b'0' ∷ b'x' ∷ s) × (read_hex 0 s ≡ n))
unfolding terminal_hex8 terminal_hex16 terminal_hex32
read_hex-terminal_hex a b n ha hb hn = (
  (hex_digits_from 2 a, refl, at_width 2 a (omega arith)),
  (hex_digits_from 4 b, refl, at_width 4 b (omega arith)),
  (hex_digits_from 8 n, refl, at_width 8 n (omega arith)),
)
  where
    at_width : (k x : ℕ) → 0 ≡ x / 16 ^ k → read_hex 0 (hex_digits_from k x) ≡ x
    at_width k x e = ap (λ acc. read_hex acc (hex_digits_from k x)) e ∙ read_hex-hex_digits_from k x

digit_table : at_all 16 (λ d. table_digit d == hex_digit d) ≡ true
unfolding at_all table_digit hex_digit
digit_table = refl

table_digit-eq : (n k : ℕ) → table_digit (nibble n k) ≡ hex_digit (nibble n k)
table_digit-eq n k = eqb→eq _ _ (at_all→test 16 _ (nibble n k) (nibble-lt n k) digit_table)

last_nibble : (n : ℕ) → bit_and n 0xf ≡ nibble n 0
last_nibble n = ap (λ k. bit_and k 0xf) (omega arith)

-- The serial port gets the same hexadecimal texts as the terminal, at each of the three widths.
pub serial_hex-eq-terminal_hex :
    (n : ℕ)
    → (serial_hex8 n ≡ terminal_hex8 n)
      × (serial_hex16 n ≡ terminal_hex16 n)
      × (serial_hex32 n ≡ terminal_hex32 n)
unfolding serial_hex8 serial_hex16 serial_hex32 terminal_hex8 terminal_hex16 terminal_hex32
    hex_digits_from
serial_hex-eq-terminal_hex n =
    rw (last_nibble n) (simp table_digit-eq, simp table_digit-eq, simp table_digit-eq)

hex_digit-ne-zero : (n k : ℕ) → (hex_digit (nibble n k) == 0) ≡ false
unfolding hex_digit
hex_digit-ne-zero n k = ground (arith, nibble-lt n k)

-- The text of ten characters, and the byte behind it.
abbrev pub digits_and : ℕ → ℕ → List ℕ
digits_and left num =
    b'0'
    ∷ b'x'
    ∷ table_digit (nibble num 28)
    ∷ table_digit (nibble num 24)
    ∷ table_digit (nibble num 20)
    ∷ table_digit (nibble num 16)
    ∷ table_digit (nibble num 12)
    ∷ table_digit (nibble num 8)
    ∷ table_digit (nibble num 4)
    ∷ table_digit (nibble num 0)
    ∷ left
    ∷ []

c_string-digits_and :
    (left num : ℕ)
    → c_string (digits_and left num) ≡ (if left == 0 then some (terminal_hex32 num) else none)
unfolding c_string terminal_hex32 hex_digits_from
c_string-digits_and left num = elim (Bool-cases (left == 0)) [
  | inl e ↦ simp (e, table_digit-eq, hex_digit-ne-zero)
  | inr e ↦ simp (e, table_digit-eq, hex_digit-ne-zero)
]

print_hex_buffer-eq :
    (b0 b1 b2 b3 b4 b5 b6 b7 b8 b9 b10 num : ℕ)
    → print_hex_buffer (b0 ∷ b1 ∷ b2 ∷ b3 ∷ b4 ∷ b5 ∷ b6 ∷ b7 ∷ b8 ∷ b9 ∷ b10 ∷ []) num
      ≡ digits_and b10 num
unfolding print_hex_buffer print_hex_loop print_hex_head
print_hex_buffer-eq b0 b1 b2 b3 b4 b5 b6 b7 b8 b9 b10 num =
    let e0 : shr num 0 ≡ num = omega arith in
    let e8 : shr (shr num 4) 4 ≡ shr num 8 = omega arith in
    let e12 : shr (shr num 8) 4 ≡ shr num 12 = omega arith in
    let e16 : shr (shr num 12) 4 ≡ shr num 16 = omega arith in
    let e20 : shr (shr num 16) 4 ≡ shr num 20 = omega arith in
    let e24 : shr (shr num 20) 4 ≡ shr num 24 = omega arith in
    let e28 : shr (shr num 24) 4 ≡ shr num 28 = omega arith in cc

-- In the buffer of `print_hex`, with whatever the stack holds there before, the NUL stands at index 9
-- when the loop starts. When the loop ends, the last digit stands there. The string that is printed
-- ends only if the byte at index 10, which nothing stores, happens to be zero, and then it is the text
-- of `terminal_writehex32`; with any other byte there the read runs past the end of the buffer.
pub print_hex_buffer_lem :
    (b0 b1 b2 b3 b4 b5 b6 b7 b8 b9 b10 num : ℕ)
    → let stack = b0 ∷ b1 ∷ b2 ∷ b3 ∷ b4 ∷ b5 ∷ b6 ∷ b7 ∷ b8 ∷ b9 ∷ b10 ∷ [] in
      (get_elem? (print_hex_head stack) 9 ≡ some 0)
      × (get_elem? (print_hex_buffer stack num) 9 ≡ some (hex_digit (num % 16)))
      × (c_string (print_hex_buffer stack num)
          ≡ (if b10 == 0 then some (terminal_hex32 num) else none))
unfolding print_hex_head
print_hex_buffer_lem b0 b1 b2 b3 b4 b5 b6 b7 b8 b9 b10 num =
    let e = print_hex_buffer-eq b0 b1 b2 b3 b4 b5 b6 b7 b8 b9 b10 num in
    let last : nibble num 0 ≡ num % 16 = omega (arith, bit_and-low 4 (shr num 0)) in
    (
      refl,
      ap (λ s. get_elem? s 9) e ∙ ap some (table_digit-eq num 0 ∙ ap hex_digit last),
      ap c_string e ∙ c_string-digits_and b10 num,
    )
