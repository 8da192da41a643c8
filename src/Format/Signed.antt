-- ===== src/Format/Signed.antt =====
-- `terminal_writeint` and `serial_write_int`, which print a signed number. `none` stands for a
-- negation that overflows, a division by zero, and a read or write behind an array.
pub mod Laws
use aimini_os.Base.{
  ℕ, zero, suc, ◌+◌, ◌-◌, ◌/◌, ◌%◌, ◌^◌, Bool, true, false, Option, none, some, List, [], ◌∷◌, ◌++◌,
  ◌==◌, ltb, leb, if◌then◌else◌, get_elem?,
}
use aimini_os.Format.{hex_table, terminal_hex32}
use aimini_os.Format.Reverse.{reverse_in_place}

-- The integers; `negsuc n` is -(n + 1).
pub data ℤ : Type 0 where
  pos : ℕ → ℤ
  negsuc : ℕ → ℤ

-- `(value % 10) + '0'`
abbrev pub decimal_digit : ℕ → Option ℕ
decimal_digit d = some (d + b'0')

-- `hex_digits[d]`, an array of sixteen digits and a NUL.
abbrev pub hex_digit_of : ℕ → Option ℕ
hex_digit_of d = get_elem? (hex_table ++ (0 ∷ [])) d

-- `buf` has 32 bytes, of which the last is left for the NUL.
abbrev pub room : ℕ
room = 31

-- The loop over the digits, from the last, with `left` bytes free.
unfoldable pub push_back : (ℕ → Option ℕ) → ℕ → ℕ → ℕ → List ℕ → Option (List ℕ)
push_back digit zero base value buf = if ltb 0 value then none else some buf
push_back digit (suc left) base value buf = elim (ltb 0 value) [
  | false ↦ some buf
  | true ↦ elim (digit (value % base)) [
    | none ↦ none
    | some c ↦ push_back digit left base (value / base) (buf ++ (c ∷ []))
  ]
]

unfoldable pub digits_of : (ℕ → Option ℕ) → ℕ → ℕ → Option (List ℕ)
digits_of digit base value =
    if value == 0
    then some (b'0' ∷ [])
    else if base == 0
    then none
    else push_back digit room base value []

-- The text of a number from 0 to 2147483647.
unfoldable pub unsigned_text : (ℕ → Option ℕ) → ℕ → ℕ → Option (List ℕ)
unsigned_text digit base value = elim (digits_of digit base value) [
  | none ↦ none
  | some buf ↦ some (reverse_in_place buf)
]

-- `if (value < 0) { …("-"); value = -value; }`
unfoldable pub with_sign : (ℕ → Option (List ℕ)) → ℤ → Option (List ℕ)
with_sign text (pos n) = text n
with_sign text (negsuc n) =
    if leb (2 ^ 31) (suc n)
    then none
    else elim (text (suc n)) [ none ↦ none | some s ↦ some (b'-' ∷ s) ]

-- The argument `base` is not negative at any use.
unfoldable pub terminal_writeint : ℤ → ℕ → Option (List ℕ)
terminal_writeint value base =
    with_sign
      (λ n. if base == 10 then unsigned_text decimal_digit 10 n else some (terminal_hex32 n)) value

unfoldable pub serial_write_int : ℤ → ℕ → Option (List ℕ)
serial_write_int value base =
    with_sign
      (λ n.
        if base == 10 then unsigned_text decimal_digit 10 n else unsigned_text hex_digit_of base n)
      value
