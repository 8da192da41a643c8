-- ===== src/Format/Signed/Laws.antt =====
-- A signed number reads back from its text.
use aimini_os.Base.{
  ℕ, suc, ◌+◌, ◌*◌, ◌^◌, ◌<◌, ◌≡◌, Bool, false, Option, none, some, List, [], ◌∷◌, ◌==◌,
}
use aimini_os.Format.Hex.{hex_value}
use aimini_os.Format.Reverse.{reversed}
use aimini_os.Format.Signed.{ℤ, pos, negsuc}

-- The number that a text stands for at a base, read behind the number `acc`.
abbrev pub read_at : ℕ → ℕ → List ℕ → ℕ
read_at base acc [] = acc
read_at base acc (c ∷ s) = read_at base (acc * base + hex_value c) s

-- The digits below `base` are characters that read back.
abbrev HasDigits : (ℕ → Option ℕ) → ℕ → Type 0
HasDigits digit base = (d : ℕ) → d < base → (c : ℕ) × (digit d ≡ some c) × (hex_value c ≡ d)

-- A text that reads back as `n`.
pub record IsText (base n : ℕ) (result : Option (List ℕ)) : Type 0 where
  text : List ℕ
  returns : result ≡ some text
  reads : read_at base 0 text ≡ n

-- The loop that puts the digits of `n` behind `buf`.
record IsPushed (base n : ℕ) (buf : List ℕ) (result : Option (List ℕ)) : Type 0 where
  text : List ℕ
  returns : result ≡ some text
  reads : read_at base 0 (reversed text []) ≡ read_at base n (reversed buf [])

abbrev reads_back : Option ℕ → ℕ → Bool
reads_back none d = false
reads_back (some c) d = hex_value c == d

-- Greater than the least `int` and at most the greatest.
abbrev pub InInt : ℤ → Type 0
InInt (pos n) = n < 2 ^ 31
InInt (negsuc n) = suc n < 2 ^ 31

-- What the printers promise of `value`: the text of a number that is not negative, and that of the
-- other numbers but the least `int` behind a sign.
abbrev pub Prints : ℕ → ℤ → Option (List ℕ) → Type 0
Prints base (pos n) result = IsText base n result
Prints base (negsuc n) result =
    (s : List ℕ) × (result ≡ some (b'-' ∷ s)) × (read_at base 0 s ≡ suc n)
