-- ===== src/Format/Decimal.antt =====
-- Decimal texts: both printers send the canonical decimal numeral of their argument.
use aimini_os.Base.{
  ℕ, zero, suc, ◌+◌, ◌-◌, ◌*◌, ◌/◌, ◌%◌, ◌^◌, ◌≤◌, ◌<◌, ◌≡◌, ◌≢◌, refl, List, [], ◌∷◌, ltb, ap,
  arith, length, ne→eqb, elim_intro, ltb→lt, ltb→le,
}
use native.Mathlib.Decide.{ℕ_discrete}
use native.Mathlib.Nat.{pow-suc}
use aimini_os.Format.{push_digits, push_digits_do, terminal_dec, serial_dec, max_digits}

-- The number that a decimal text stands for, read behind the number `acc`.
abbrev pub read_dec : ℕ → List ℕ → ℕ
read_dec acc [] = acc
read_dec acc (c ∷ s) = read_dec (acc * 10 + (c - b'0')) s

abbrev pub AllDigits : List ℕ → Type 0
AllDigits [] = Unit
AllDigits (c ∷ s) = ((b'0' ≤ c) × (c ≤ b'9')) × AllDigits s

read_dec-push_digits :
    (f n : ℕ) (buf : List ℕ) → n < 10 ^ f → read_dec 0 (push_digits f n buf) ≡ read_dec n buf
unfolding push_digits
read_dec-push_digits zero n buf h = ap (λ k. read_dec k buf) (omega arith)
read_dec-push_digits (suc f) n buf h = ground (
  arith,
  read_dec-push_digits f (n / 10) ((b'0' + n % 10) ∷ buf) (omega (arith, pow-suc 10 f)),
  ap (λ (k : ℕ). read_dec k buf) {x = n / 10 * 10 + (b'0' + n % 10 - b'0')} {y = n},
  ap (λ (k : ℕ). read_dec k buf) {x = n} {y = 0},
)

AllDigits-push_digits : (f n : ℕ) (buf : List ℕ) → AllDigits buf → AllDigits (push_digits f n buf)
unfolding push_digits
AllDigits-push_digits zero n buf h = h
AllDigits-push_digits (suc f) n buf h =
    elim_intro AllDigits (ltb 0 n)
      (λ _. AllDigits-push_digits f (n / 10) ((b'0' + n % 10) ∷ buf) (omega arith, h)) (λ _. h)

-- The two loops agree but at zero, where the second sends a digit and the first none.
push_digits_do-eq :
    (f n : ℕ) (buf : List ℕ) → n ≢ 0 → push_digits_do (suc f) n buf ≡ push_digits (suc f) n buf
unfolding push_digits push_digits_do
push_digits_do-eq zero n buf h = ground arith
push_digits_do-eq (suc f) n buf h =
    ground (arith, push_digits_do-eq f (n / 10) ((b'0' + n % 10) ∷ buf))

-- `terminal_writedec` and `serial_write_dec` send the same text for every 32-bit number.
pub serial_dec-eq-terminal_dec : (n : ℕ) → n < 2 ^ 32 → serial_dec n ≡ terminal_dec n
unfolding serial_dec terminal_dec
serial_dec-eq-terminal_dec n h = elim (ℕ_discrete n 0) [
  | yes p ↦ rw p zero_text
  | no p ↦ rw (ne→eqb n 0 p) (push_digits_do-eq 9 n [] p)
]
  where
    zero_text : push_digits_do max_digits 0 [] ≡ b'0' ∷ []
    zero_text = unfold push_digits_do in refl

-- A text starts with '0' only if it is "0".
abbrev pub IsCanonical : List ℕ → Type 0
IsCanonical [] = ⊥
IsCanonical (c ∷ []) = Unit
IsCanonical (c ∷ d ∷ s) = c ≢ b'0'

IsCanonical-push_digits :
    (f n c : ℕ) (s : List ℕ)
    → n < 10 ^ f
    → (n ≡ 0 → IsCanonical (c ∷ s))
    → IsCanonical (push_digits f n (c ∷ s))
unfolding push_digits
IsCanonical-push_digits zero n c s h k = k (omega arith)
IsCanonical-push_digits (suc f) n c s h k =
    elim_intro IsCanonical (ltb 0 n)
      (λ p.
        IsCanonical-push_digits f (n / 10) (b'0' + n % 10) (c ∷ s) (omega (arith, pow-suc 10 f))
          (λ e. omega (arith, ltb→lt 0 n p)))
      (λ p. k (omega (arith, ltb→le 0 n p)))

length-push_digits : (f n : ℕ) (buf : List ℕ) → length (push_digits f n buf) ≤ f + length buf
unfolding push_digits
length-push_digits zero n buf = omega arith
length-push_digits (suc f) n buf =
    ground (arith, length-push_digits f (n / 10) ((b'0' + n % 10) ∷ buf))

IsCanonical-terminal : (n : ℕ) → n ≢ 0 → n < 10 ^ 10 → IsCanonical (push_digits 10 n [])
unfolding push_digits
IsCanonical-terminal n ne h =
    elim_intro IsCanonical (ltb 0 n)
      (λ _. IsCanonical-push_digits 9 (n / 10) (b'0' + n % 10) [] (omega arith) (λ _. tt))
      (λ q. absurd (ne (omega (arith, ltb→le 0 n q))))

-- What a decimal text promises of the number `n`.
pub record IsDecimal (n : ℕ) (s : List ℕ) : Type 0 where
  pub value : read_dec 0 s ≡ n
  pub digits : AllDigits s
  pub canonical : IsCanonical s
  pub fits : length s ≤ 10

-- `terminal_writedec` sends the decimal numeral of its 32-bit argument: digits only, no leading
-- zero, and at most ten of them, which its buffer of 32 bytes holds.
pub terminal_dec-IsDecimal : (n : ℕ) → n < 2 ^ 32 → IsDecimal n (terminal_dec n)
unfolding terminal_dec
terminal_dec-IsDecimal n h = elim (ℕ_discrete n 0) [
  | yes p ↦ rw p (record { value = refl; digits = omega arith; canonical = tt; fits = omega arith })
  | no p ↦ rw (ne→eqb n 0 p) (record {
    value = read_dec-push_digits 10 n [] (omega arith);
    digits = AllDigits-push_digits 10 n [] tt;
    canonical = IsCanonical-terminal n p (omega arith);
    fits = length-push_digits 10 n [];
  })
]
