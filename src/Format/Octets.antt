-- ===== src/Format/Octets.antt =====
-- Dotted addresses: the three-digit blocks of `serial_print_ip` against the terminal's decimal texts.
use aimini_os.Base.{
  ℕ, ◌<◌, ◌≡◌, refl, List, [], ◌∷◌, ◌==◌, ◌&&◌, Bool, true, false, arith, bit_and, shr,
}
use aimini_os.Base.Bits.{bit_and-low}
use aimini_os.Base.Table.{at_all, at_all→test}
use aimini_os.Format.{serial_octet, terminal_dec, serial_ip, terminal_ip, octet, push_digits}

abbrev same : List ℕ → List ℕ → Bool
same [] [] = true
same [] (y ∷ ys) = false
same (x ∷ xs) [] = false
same (x ∷ xs) (y ∷ ys) = x == y && same xs ys

same→eq : (xs ys : List ℕ) → same xs ys ≡ true → xs ≡ ys
same→eq [] [] h = refl
same→eq [] (y ∷ ys) h = cc
same→eq (x ∷ xs) [] h = cc
same→eq (x ∷ xs) (y ∷ ys) h = ground (arith, same→eq xs ys)

octet_table : at_all 256 (λ o. same (serial_octet o) (terminal_dec o)) ≡ true
unfolding at_all serial_octet terminal_dec push_digits
octet_table = refl

serial_octet-eq : (o : ℕ) → o < 256 → serial_octet o ≡ terminal_dec o
serial_octet-eq o h = same→eq _ _ (at_all→test 256 _ o h octet_table)

octet-lt : (ip k : ℕ) → octet ip k < 256
octet-lt ip k = omega (arith, bit_and-low 8 (shr ip k))

-- `serial_print_ip` and `print_ip` send the same text for every address.
pub serial_ip-eq-terminal_ip : (ip : ℕ) → serial_ip ip ≡ terminal_ip ip
unfolding serial_ip terminal_ip
serial_ip-eq-terminal_ip ip = rw (
  serial_octet-eq (octet ip 24) (octet-lt ip 24),
  serial_octet-eq (octet ip 16) (octet-lt ip 16),
  serial_octet-eq (octet ip 8) (octet-lt ip 8),
  last,
)
  where
    last : serial_octet (bit_and ip 0xff) ≡ terminal_dec (octet ip 0)
    last = ground (arith, serial_octet-eq (bit_and ip 0xff), bit_and-low 8 ip)
