-- ===== src/Network/Payload.antt =====
-- How `handle_icmp_packet` prints the bytes of a payload: the text of each loop, `none` where it reads
-- behind the memory.
pub mod Laws
use aimini_os.Base.{
  ℕ, zero, suc, ◌+◌, ◌%◌, Bool, ◌&&◌, Option, none, some, List, [], ◌∷◌, ◌++◌, ◌==◌, ltb, leb,
  if◌then◌else◌,
}
use aimini_os.Format.{ascii}

abbrev pub with_front : List ℕ → Option (List ℕ) → Option (List ℕ)
with_front text none = none
with_front text (some rest) = some (text ++ rest)

-- `data[i] >= 32 && data[i] <= 126`
abbrev pub printable : ℕ → Bool
printable x = leb 32 x && leb x 126

-- The first `k` bytes in hexadecimal, each by `write` and with a space behind; behind every eighth
-- stands `break`. `i` counts the turns.
unfoldable pub hex_text : (ℕ → List ℕ) → List ℕ → ℕ → ℕ → List ℕ → Option (List ℕ)
hex_text write break i zero bytes = some []
hex_text write break i (suc k) [] = none
hex_text write break i (suc k) (x ∷ bytes) =
    with_front (write x ++ (b' ' ∷ (if i % 8 == 7 then break else [])))
      (hex_text write break (i + 1) k bytes)

-- The first `k` bytes as characters, by `write` if they are printable, or else as a dot.
unfoldable pub dump_text : (ℕ → ℕ → List ℕ) → ℕ → ℕ → List ℕ → Option (List ℕ)
dump_text write i zero bytes = some []
dump_text write i (suc k) [] = none
dump_text write i (suc k) (x ∷ bytes) =
    with_front (if printable x then write i x else ascii ".") (dump_text write (i + 1) k bytes)

-- The same up to a zero byte.
unfoldable pub message_text : (ℕ → ℕ → List ℕ) → ℕ → ℕ → List ℕ → Option (List ℕ)
message_text write i zero bytes = some []
message_text write i (suc k) [] = none
message_text write i (suc k) (x ∷ bytes) =
    let rest = message_text write (i + 1) k bytes in
    if x == 0 then some [] else with_front (if printable x then write i x else ascii ".") rest

abbrev pub on_screen : ℕ → ℕ → List ℕ
on_screen i x = x ∷ []

abbrev pub on_serial : (ℕ → List ℕ) → ℕ → ℕ → List ℕ
on_serial beyond i x = x ∷ beyond i

abbrev pub at_most : ℕ → ℕ → ℕ
at_most bound n = if ltb n bound then n else bound
