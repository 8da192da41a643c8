-- ===== src/Format/Reverse.antt =====
-- The loop of `terminal_writeint` and `serial_write_int` that reverses a buffer in place.
use mathlib.Core.Path.{subst}
use native.Mathlib.Decide.{ℕ_discrete}
use aimini_os.Base.{
  Bool-cases, inl, inr, ltb→lt, ltb→le, ℕ, zero, suc, ◌+◌, ◌-◌, ◌/◌, ◌≤◌, ◌<◌, ◌≡◌, ◌≢◌, refl, ◌∙◌,
  sym, none, some, List, [], ◌∷◌, ◌==◌, ltb, leb, ◌&&◌, ◌||◌, length, get_elem?, set, length-set,
  get_elem?-set_self, get_elem?-set_ne, ap, arith, if◌then◌else◌,
}

-- `temp = buf[j]; buf[j] = buf[k]; buf[k] = temp`; both indices are in the buffer at every use.
unfoldable pub swap : ℕ → ℕ → List ℕ → List ℕ
swap j k buf = elim (get_elem? buf j) [
  | none ↦ buf
  | some temp ↦ elim (get_elem? buf k) [ none ↦ buf | some c ↦ set (set buf j c) k temp ]
]

-- `for (int j = 0; j < i / 2; j++)` with `left` turns to go.
unfoldable pub swap_ends : ℕ → ℕ → ℕ → List ℕ → List ℕ
swap_ends zero j i buf = buf
swap_ends (suc left) j i buf = swap_ends left (j + 1) i (swap j (i - j - 1) buf)

unfoldable pub reverse_in_place : List ℕ → List ℕ
reverse_in_place buf = swap_ends (length buf / 2) 0 (length buf) buf

length-swap : (j k : ℕ) (buf : List ℕ) → length (swap j k buf) ≡ length buf
unfolding swap
length-swap j k buf =
    elim (get_elem? buf j)
      as (λ o.
        length (elim o as (λ _. List ℕ) [
          | none ↦ buf
          | some temp ↦ elim (get_elem? buf k) as (λ _. List ℕ) [
            | none ↦ buf
            | some c ↦ set (set buf j c) k temp
          ]
        ])
        ≡ length buf) [
          | none ↦ refl
          | some temp ↦
              elim (get_elem? buf k)
                as (λ o.
                  length
                    (elim o as (λ _. List ℕ) [ none ↦ buf | some c ↦ set (set buf j c) k temp ])
                  ≡ length buf) [
                    | none ↦ refl
                    | some c ↦ length-set (set buf j c) k temp ∙ length-set buf j c
                  ]
        ]

get_elem?-some : (xs : List ℕ) (i : ℕ) → i < length xs → (x : ℕ) × (get_elem? xs i ≡ some x)
get_elem?-some [] i h = elim h [ ]
get_elem?-some (x ∷ xs) zero h = (x, refl)
get_elem?-some (x ∷ xs) (suc i) h = get_elem?-some xs i (omega arith)

-- Where the byte at `x` comes from.
abbrev from : ℕ → ℕ → ℕ → ℕ
from j k x = if x == j then k else if x == k then j else x

swap_lem :
    (j k temp c : ℕ) (buf : List ℕ)
    → get_elem? buf j ≡ some temp
    → get_elem? buf k ≡ some c
    → swap j k buf ≡ set (set buf j c) k temp
unfolding swap
swap_lem j k temp c buf e f = rw (e, swap) (rw (f, swap) refl)

from_upper : (j k : ℕ) → j < k → from j k k ≡ j
from_upper j k h = ground arith

from_lower : (j k : ℕ) → from j k j ≡ k
from_lower j k = ground arith

from_other : (j k x : ℕ) → x ≢ j → x ≢ k → from j k x ≡ x
from_other j k x p q = ground arith

get_elem?-swap :
    (j k x : ℕ) (buf : List ℕ)
    → j < k
    → k < length buf
    → get_elem? (swap j k buf) x ≡ get_elem? buf (from j k x)
get_elem?-swap j k x buf h l =
    let (temp, e) = get_elem?-some buf j (omega arith) in
    let (c, f) = get_elem?-some buf k l in
    ap (λ b. get_elem? b x) (swap_lem j k temp c buf e f) ∙ elim (ℕ_discrete x k) [
      | yes p ↦
          subst (λ y. get_elem? (set (set buf j c) k temp) y ≡ get_elem? buf (from j k y)) (sym p)
            (get_elem?-set_self (set buf j c) k temp (omega (arith, length-set buf j c, l))
              ∙ (sym e ∙ ap (get_elem? buf) (sym (from_upper j k h))))
      | no p ↦ get_elem?-set_ne (set buf j c) k x temp (omega arith) ∙ elim (ℕ_discrete x j) [
        | yes q ↦
            subst (λ y. get_elem? (set buf j c) y ≡ get_elem? buf (from j k y)) (sym q)
              (get_elem?-set_self buf j c (omega arith)
                ∙ (sym f ∙ ap (get_elem? buf) (sym (from_lower j k))))
        | no q ↦
            get_elem?-set_ne buf j x c (omega arith)
            ∙ ap (get_elem? buf) (sym (from_other j k x q p))
      ]
    ]

-- Where the byte at `x` comes from after `left` turns from `j`.
abbrev mirror : ℕ → ℕ → ℕ → ℕ → ℕ
mirror left j i x =
    if (leb j x && ltb x (j + left)) || (leb (i - j - left) x && ltb x (i - j))
    then i - 1 - x
    else x

get_elem?-swap_ends :
    (left j i x : ℕ) (buf : List ℕ)
    → left + j ≤ i / 2
    → length buf ≡ i
    → get_elem? (swap_ends left j i buf) x ≡ get_elem? buf (mirror left j i x)
unfolding swap_ends
get_elem?-swap_ends zero j i x buf h l = let m : mirror 0 j i x ≡ x = ground arith in rw m refl
get_elem?-swap_ends (suc left) j i x buf h l =
    let s : length (swap j (i - j - 1) buf) ≡ i = length-swap j (i - j - 1) buf ∙ l in
    let m : from j (i - j - 1) (mirror left (j + 1) i x) ≡ mirror (suc left) j i x = ground arith in
    get_elem?-swap_ends left (j + 1) i x (swap j (i - j - 1) buf) (omega arith) s
    ∙ (get_elem?-swap j (i - j - 1) (mirror left (j + 1) i x) buf (omega arith) (omega arith)
        ∙ ap (get_elem? buf) m)

-- The first list in reverse order in front of the second.
abbrev pub reversed : List ℕ → List ℕ → List ℕ
reversed [] acc = acc
reversed (x ∷ xs) acc = reversed xs (x ∷ acc)

-- Behind the reversed list.
get_elem?-reversed_high :
    (xs acc : List ℕ) (k : ℕ) → get_elem? (reversed xs acc) (length xs + k) ≡ get_elem? acc k
get_elem?-reversed_high [] acc k = ap (get_elem? acc) {x = 0 + k} {y = k} (omega arith)
get_elem?-reversed_high (x ∷ xs) acc k =
    ap (get_elem? (reversed xs (x ∷ acc))) {x = suc (length xs) + k} {y = length xs + suc k}
      (omega arith)
    ∙ get_elem?-reversed_high xs (x ∷ acc) (suc k)

get_elem?-reversed :
    (xs acc : List ℕ) (k : ℕ)
    → k < length xs
    → get_elem? (reversed xs acc) k ≡ get_elem? xs (length xs - 1 - k)
get_elem?-reversed [] acc k h = elim h [ ]
get_elem?-reversed (x ∷ xs) acc k h = elim (ℕ_discrete k (length xs)) [
  | yes p ↦
      ap (get_elem? (reversed xs (x ∷ acc))) {x = k} {y = length xs + 0} (omega (arith, p))
      ∙ (get_elem?-reversed_high xs (x ∷ acc) 0
          ∙ ap (get_elem? (x ∷ xs)) {x = 0} {y = suc (length xs) - 1 - k} (omega (arith, p)))
  | no p ↦
      get_elem?-reversed xs (x ∷ acc) k (omega arith)
      ∙ ap (get_elem? (x ∷ xs)) {x = suc (length xs - 1 - k)} {y = suc (length xs) - 1 - k}
          (omega arith)
]

get_elem?-none : (xs : List ℕ) (k : ℕ) → length xs ≤ k → get_elem? xs k ≡ none
get_elem?-none [] k h = refl
get_elem?-none (x ∷ xs) zero h = absurd (omega arith)
get_elem?-none (x ∷ xs) (suc k) h = get_elem?-none xs k (omega arith)

-- Lists with the same elements at every place are the same.
get_elem?-ext : (xs ys : List ℕ) → ((k : ℕ) → get_elem? xs k ≡ get_elem? ys k) → xs ≡ ys
get_elem?-ext [] [] h = refl
get_elem?-ext [] (y ∷ ys) h = let e : none ≡ some y = h 0 in cc
get_elem?-ext (x ∷ xs) [] h = let e : some x ≡ none = h 0 in cc
get_elem?-ext (x ∷ xs) (y ∷ ys) h =
    let e : some x ≡ some y = h 0 in let t : xs ≡ ys = get_elem?-ext xs ys (λ k. h (suc k)) in cc

mirror_inside : (i x : ℕ) → x < i → mirror (i / 2) 0 i x ≡ i - 1 - x
mirror_inside i x h = ground arith

mirror_outside : (i x : ℕ) → i ≤ x → mirror (i / 2) 0 i x ≡ x
mirror_outside i x h = ground arith

-- Swapping the ends of a buffer up to its middle reverses it.
pub reverse_in_place_lem : (buf : List ℕ) → reverse_in_place buf ≡ reversed buf []
unfolding reverse_in_place
reverse_in_place_lem buf =
    let i : ℕ = length buf in
    let swapped = λ (k : ℕ). get_elem?-swap_ends (i / 2) 0 i k buf (omega arith) refl in
    get_elem?-ext (reverse_in_place buf) (reversed buf []) (λ k. elim (Bool-cases (ltb k i)) [
      | inl e ↦
          swapped k
          ∙ (ap (get_elem? buf) (mirror_inside i k (ltb→lt k i e))
              ∙ sym (get_elem?-reversed buf [] k (ltb→lt k i e)))
      | inr e ↦
          let past : i ≤ k = ltb→le k i e in
          swapped k
          ∙ (ap (get_elem? buf) (mirror_outside i k past)
              ∙ (get_elem?-none buf k past
                  ∙ sym (
                      ap (get_elem? (reversed buf [])) {x = k} {y = i + (k - i)} (omega arith)
                      ∙ get_elem?-reversed_high buf [] (k - i))))
    ])
