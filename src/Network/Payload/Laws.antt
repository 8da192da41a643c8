-- ===== src/Network/Payload/Laws.antt =====
-- The loops over a payload that read no byte that is not there.
use aimini_os.Base.{
  ℕ, zero, suc, ◌+◌, ◌≡◌, ◌≤◌, refl, ap, some, List, [], ◌∷◌, length, arith, tests,
}
use aimini_os.Network.Payload.{with_front, hex_text, dump_text, at_most}

-- The loops that dump bytes read no byte that is not there.
pub hex_text-some :
    (write : ℕ → List ℕ) (break : List ℕ) (i k : ℕ) (bytes : List ℕ)
    → k ≤ length bytes
    → (text : List ℕ) × (hex_text write break i k bytes ≡ some text)
unfolding hex_text
hex_text-some write break i zero bytes h = ([], refl)
hex_text-some write break i (suc k) [] h = absurd (omega arith)
hex_text-some write break i (suc k) (x ∷ bytes) h =
    let r = hex_text-some write break (i + 1) k bytes (omega arith) in (_, ap (with_front _) r.1)

pub dump_text-some :
    (write : ℕ → ℕ → List ℕ) (i k : ℕ) (bytes : List ℕ)
    → k ≤ length bytes
    → (text : List ℕ) × (dump_text write i k bytes ≡ some text)
unfolding dump_text
dump_text-some write i zero bytes h = ([], refl)
dump_text-some write i (suc k) [] h = absurd (omega arith)
dump_text-some write i (suc k) (x ∷ bytes) h =
    let r = dump_text-some write (i + 1) k bytes (omega arith) in (_, ap (with_front _) r.1)

pub at_most-le : (bound n : ℕ) → at_most bound n ≤ n
at_most-le bound n = grind tests
