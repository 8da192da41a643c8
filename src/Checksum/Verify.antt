-- ===== src/Checksum/Verify.antt =====
-- A receiver's test of a block that carries its own checksum.
use aimini_os.Base.{
  ℕ, zero, suc, ◌+◌, ◌-◌, ◌*◌, ◌/◌, ◌%◌, ◌^◌, ◌≤◌, ◌<◌, ◌≡◌, ◌⊎◌, arith, ◌∙◌, List, [], ◌∷◌, ◌++◌,
  length, IsBytes, IsBytes-append, length-append,
}
use aimini_os.Checksum.{sum_words, fold_carries, fold_rounds, network_checksum}
use aimini_os.Checksum.Fold.{IsFolded, fold_carries-IsFolded}

-- The sum of the 16-bit words of a block, without the limit of 32 bits.
abbrev pub total : List ℕ → ℕ
total [] = 0
total (b ∷ []) = b
total (lo ∷ hi ∷ rest) = lo + 256 * hi + total rest

pub total-le : (xs : List ℕ) → IsBytes xs → total xs ≤ length xs * 32768
total-le [] h = omega arith
total-le (b ∷ []) h = omega arith
total-le (lo ∷ hi ∷ rest) h = omega (arith, total-le rest h.1.1)

pub sum_words-eq : (s : ℕ) (xs : List ℕ) → s + total xs < 2 ^ 32 → sum_words s xs ≡ s + total xs
unfolding sum_words
sum_words-eq s [] h = omega arith
sum_words-eq s (b ∷ []) h = omega arith
sum_words-eq s (lo ∷ hi ∷ rest) h =
    ground (arith, sum_words-eq ((s + (lo + 256 * hi)) % 2 ^ 32) rest)

-- The two bytes at an even place count as a word of their own.
pub total-word :
    (k : ℕ) (pre post : List ℕ) (lo hi : ℕ)
    → length pre ≡ k * 2
    → total (pre ++ (lo ∷ hi ∷ post)) ≡ total (pre ++ (0 ∷ 0 ∷ post)) + (lo + 256 * hi)
total-word k [] post lo hi e = omega arith
total-word k (b ∷ []) post lo hi e = absurd (omega arith)
total-word zero (a ∷ b ∷ rest) post lo hi e = absurd (omega arith)
total-word (suc k) (a ∷ b ∷ rest) post lo hi e =
    omega (arith, total-word k rest post lo hi (omega arith))

-- The checksum is the complement of the folded sum.
pub network_checksum_lem :
    (xs : List ℕ)
    → total xs < 2 ^ 32
    → (v : ℕ) × IsFolded (total xs) v × (network_checksum xs ≡ 65535 - v)
unfolding network_checksum
network_checksum_lem xs h =
    let v = fold_carries fold_rounds (sum_words 0 xs) in
    let e : sum_words 0 xs ≡ total xs = sum_words-eq 0 xs (omega arith) ∙ omega arith in
    let f : IsFolded (total xs) v = rw e (fold_carries-IsFolded (total xs) h) in
    (v, f, omega (arith, f.fits))

-- A block of bytes whose two checksum bytes, at an even place, hold the checksum of the block with
-- those bytes zero has checksum zero, with up to 131000 other bytes.
pub network_checksum_verifies :
    (k : ℕ) (pre post : List ℕ)
    → length pre ≡ k * 2
    → IsBytes pre
    → IsBytes post
    → length pre + length post ≤ 131000
    → let c = network_checksum (pre ++ (0 ∷ 0 ∷ post)) in
      network_checksum (pre ++ (c % 256 ∷ c / 256 ∷ post)) ≡ 0
network_checksum_verifies k pre post even hp hq short =
    let zeroed : List ℕ = pre ++ (0 ∷ 0 ∷ post) in
    let small : total zeroed ≤ 131002 * 32768 = omega (
      arith,
      total-le zeroed (IsBytes-append pre (0 ∷ 0 ∷ post) hp (omega arith, (omega arith, hq))),
      length-append pre (0 ∷ 0 ∷ post),
    ) in
    let a = network_checksum_lem zeroed (omega arith) in
    let c : ℕ = network_checksum zeroed in
    let same = total-word k pre post (c % 256) (c / 256) even in
    let b = network_checksum_lem (pre ++ (c % 256 ∷ c / 256 ∷ post)) (omega arith) in
    ground (arith, a.1.congruent, a.1.fits, a.2, b.1.congruent, b.1.fits, b.1.zero_only, b.2, same)

word-lt :
    (pre post : List ℕ) (lo hi : ℕ) → IsBytes (pre ++ (lo ∷ hi ∷ post)) → (lo < 256) × (hi < 256)
word-lt [] post lo hi h = (h.0, h.1.0)
word-lt (x ∷ pre) post lo hi h = word-lt pre post lo hi h.1

-- Two blocks of up to 131002 bytes that differ in one 16-bit word at an even place have different
-- checksums, unless one word is 0 and the other 0xffff.
pub network_checksum_detects :
    (k : ℕ) (pre post : List ℕ) (lo hi lo' hi' : ℕ)
    → length pre ≡ k * 2
    → IsBytes (pre ++ (lo ∷ hi ∷ post))
    → lo' < 256
    → hi' < 256
    → length pre + length post ≤ 131000
    → network_checksum (pre ++ (lo ∷ hi ∷ post)) ≡ network_checksum (pre ++ (lo' ∷ hi' ∷ post))
    → (lo + 256 * hi ≡ lo' + 256 * hi')
      ⊎ (lo + 256 * hi + 65535 ≡ lo' + 256 * hi')
      ⊎ (lo + 256 * hi ≡ lo' + 256 * hi' + 65535)
network_checksum_detects k pre post lo hi lo' hi' even bytes hlo hhi short e =
    let small = total-le (pre ++ (lo ∷ hi ∷ post)) bytes in
    let len = length-append pre (lo ∷ hi ∷ post) in
    let first = total-word k pre post lo hi even in
    let second = total-word k pre post lo' hi' even in
    let a = network_checksum_lem (pre ++ (lo ∷ hi ∷ post)) (omega (arith, small, len)) in
    let b =
      network_checksum_lem (pre ++ (lo' ∷ hi' ∷ post)) (omega (arith, small, len, first, second)) in
    let w = word-lt (pre) post lo hi bytes in
    ground (
      arith, a.1.congruent, a.1.fits, a.1.zero_only, a.2, b.1.congruent, b.1.fits, b.1.zero_only,
      b.2, first, second, w,
    )
