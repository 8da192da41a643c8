-- ===== src/Checksum/Fold.antt =====
-- The loop of `network_checksum` that adds the carries back in.
use aimini_os.Base.{ℕ, zero, suc, ◌+◌, ◌*◌, ◌/◌, ◌%◌, ◌^◌, ◌≤◌, ◌<◌, ◌≡◌, arith, refl}
use native.Mathlib.Decide.{dec_lt}
use aimini_os.Base.Bits.{bit_and-low}
use aimini_os.Checksum.{fold_carries, fold_rounds}

-- One turn: the value loses a multiple of 65535.
fold_turn :
    (n s : ℕ)
    → s < 2 ^ 32
    → 2 ^ 16 ≤ s
    → fold_carries (suc n) s ≡ fold_carries n (s % 65536 + s / 65536)
unfolding fold_carries
fold_turn n s h big = ground (arith, bit_and-low 16 s)

fold_stop : (n s : ℕ) → s < 2 ^ 16 → fold_carries n s ≡ s
unfolding fold_carries
fold_stop zero s h = refl
fold_stop (suc n) s h = ground arith

-- What folding leaves of a sum: a 16-bit value that differs from the sum by a multiple of 65535,
-- and is zero only if the sum is.
pub record IsFolded (s v : ℕ) : Type 0 where
  pub fits : v < 2 ^ 16
  pub turns : ℕ
  pub congruent : s ≡ v + turns * 65535
  pub zero_only : v ≡ 0 → s ≡ 0

-- Within two turns the loop has ended by its own test, for every 32-bit sum.
pub fold_carries-IsFolded : (s : ℕ) → s < 2 ^ 32 → IsFolded s (fold_carries fold_rounds s)
fold_carries-IsFolded s h = elim (dec_lt s 65536) [
  | yes small ↦
      rw (fold_stop 2 s small)
        (record { fits = small; turns = 0; congruent = omega arith; zero_only = λ e. e })
  | no big ↦
      let t : ℕ = s % 65536 + s / 65536 in
      rw (fold_turn 1 s h (omega arith)) (elim (dec_lt t 65536) [
        | yes small ↦ rw (fold_stop 1 t small) (record {
          fits = small;
          turns = s / 65536;
          congruent = omega arith;
          zero_only = λ e. omega arith;
        })
        | no big' ↦
            rw
              (
                fold_turn 0 t (omega arith) (omega arith),
                fold_stop 0 (t % 65536 + t / 65536) (omega arith),
              )
              (record {
                fits = omega arith;
                turns = s / 65536 + t / 65536;
                congruent = omega arith;
                zero_only = λ e. omega arith;
              })
      ])
]
