-- ===== src/Ring/Frame.antt =====
-- A frame in the receive ring, as `check_rx_buffer` reads it.
use mathlib.Core.List.{append_assoc}
use aimini_os.Base.{
  length-append, ℕ, zero, suc, ◌+◌, ◌*◌, ◌≡◌, ◌<◌, refl, sym, ◌∙◌, ap, some, List, [], ◌∷◌, ◌++◌,
  lt→ltb, eq→eqb, arith, take, drop, length, get_elem?, bit_and, then_lem,
}
use aimini_os.Format.{ascii}
use aimini_os.Console
use aimini_os.Console.{Console}
use aimini_os.Machine.{Machine}
use aimini_os.Rtl8139.Registers.{reg_capr, reg_cbr}
use aimini_os.Ring.{bytes_avail, rx_offset_of, rx_word, take_frame, check_silently}
use aimini_os.Ring.Empty.{asked_for, answer_capr, answer_cbr}

get_elem?-behind :
    (pre post : List ℕ) (off k : ℕ)
    → length pre ≡ off
    → get_elem? (pre ++ post) (off + k) ≡ get_elem? post k
get_elem?-behind [] post off k e = ap (λ i. get_elem? post i) (omega (arith, e))
get_elem?-behind (x ∷ pre) post zero k e = absurd (omega (arith, e))
get_elem?-behind (x ∷ pre) post (suc off) k e =
    ap (λ i. get_elem? (x ∷ pre ++ post) i) {x = suc off + k} {y = suc (off + k)} (omega arith)
    ∙ get_elem?-behind pre post off k (omega (arith, e))

pub take-drop_behind :
    (pre post : List ℕ) (off : ℕ)
    → length pre ≡ off
    → (drop off (pre ++ post) ≡ post) × (take off (pre ++ post) ≡ pre)
take-drop_behind [] post zero e = (refl, refl)
take-drop_behind [] post (suc off) e = absurd (omega (arith, e))
take-drop_behind (x ∷ pre) post zero e = absurd (omega (arith, e))
take-drop_behind (x ∷ pre) post (suc off) e =
    let r = take-drop_behind pre post off (omega (arith, e)) in (r.0, ap (λ xs. x ∷ xs) r.1)

-- What stands in the ring at `offset`: a good status, a size, and the frame.
pub record IsFrame (rx_memory : List ℕ) (offset size : ℕ) (packet : List ℕ) : Type 0 where
  pub before : List ℕ
  pub status_low : ℕ
  pub status_high : ℕ
  pub size_low : ℕ
  pub size_high : ℕ
  pub memory : rx_memory ≡ before ++ (status_low ∷ status_high ∷ size_low ∷ size_high ∷ packet)
  pub place : length before ≡ offset
  pub status : bit_and (status_low + 256 * status_high) 1 ≡ 1
  pub sized : size_low + 256 * size_high ≡ size

-- The frame starts four bytes behind the offset.
pub Frame-split :
    (rx_memory : List ℕ) (offset size : ℕ) (packet : List ℕ)
    → IsFrame rx_memory offset size packet
    → (drop (offset + 4) rx_memory ≡ packet) × (take (offset + 4) rx_memory ++ packet ≡ rx_memory)
Frame-split rx_memory offset size packet p =
    let first : List ℕ = p.status_low ∷ p.status_high ∷ p.size_low ∷ p.size_high ∷ [] in
    let split : rx_memory ≡ (p.before ++ first) ++ packet =
      p.memory ∙ sym (append_assoc p.before first packet) in
    let parts =
      take-drop_behind (p.before ++ first) packet (offset + 4)
        (length-append p.before first ∙ ap (λ k. k + 4) p.place) in
    (
      ap (λ xs. drop (offset + 4) xs) split ∙ parts.0,
      ap (λ xs. take (offset + 4) xs ++ packet) split
          ∙ (ap (λ xs. xs ++ packet) parts.1 ∙ sym split),
    )

-- A word of the ring, at place `k` behind the first bytes.
pub rx_word_lem :
    (m : Machine) (before post : List ℕ) (offset k low high : ℕ)
    → m.rx_memory ≡ before ++ post
    → length before ≡ offset
    → get_elem? post k ≡ some low
    → get_elem? post (k + 1) ≡ some high
    → rx_word (offset + k) m ≡ some (low + 256 * high, m)
rx_word_lem m before post offset k low high e place el eh =
    let first : get_elem? m.rx_memory (offset + k) ≡ some low =
      ap (λ xs. get_elem? xs (offset + k)) e ∙ (get_elem?-behind before post offset k place ∙ el) in
    let second : get_elem? m.rx_memory (offset + k + 1) ≡ some high =
      ap (λ xs. get_elem? xs (offset + k + 1)) e
      ∙ (ap (λ i. get_elem? (before ++ post) i) {x = offset + k + 1} {y = offset + (k + 1)}
            (omega arith)
          ∙ (get_elem?-behind before post offset (k + 1) place ∙ eh)) in
    rw (first, second) refl

-- The two words in front of the frame.
pub frame_words :
    (m : Machine) (offset size : ℕ) (packet : List ℕ) (f : IsFrame m.rx_memory offset size packet)
    → (rx_word offset m ≡ some (f.status_low + 256 * f.status_high, m))
      × (rx_word (offset + 2) m ≡ some (size, m))
frame_words m offset size packet f =
    let post : List ℕ = f.status_low ∷ f.status_high ∷ f.size_low ∷ f.size_high ∷ packet in
    let here : offset + 0 ≡ offset = omega arith in
    let status =
      rx_word_lem m f.before post offset 0 f.status_low f.status_high f.memory f.place refl refl in
    let sizes =
      rx_word_lem m f.before post offset 2 f.size_low f.size_high f.memory f.place refl refl in
    (rw here at status, sizes ∙ ap (λ n. some (n, m)) f.sized)

-- The machine when the frame is taken.
abbrev pub taking : Machine → Machine
taking m = record m {
  ports = asked_for reg_cbr m (asked_for reg_capr m m.ports);
  console = Console.serial (ascii "RX packet detected, processing...\r\n") m.console;
}

-- With such a frame at the driver's read offset, in a ring that does not count as empty, the call
-- without debug output takes it, behind two reads and a print.
pub check_silently_lem :
    (beyond : ℕ → List ℕ) (buffer : List ℕ) (size : ℕ) (packet : List ℕ) (m : Machine)
    → 0 < bytes_avail (answer_capr m) (answer_cbr m)
    → IsFrame m.rx_memory (rx_offset_of (answer_capr m)) size packet
    → check_silently beyond buffer m
      ≡ take_frame beyond buffer (rx_offset_of (answer_capr m)) size (taking m)
unfolding check_silently
check_silently_lem beyond buffer size packet m some_bytes f =
    let offset : ℕ = rx_offset_of (answer_capr m) in
    let m2 : Machine = record m { ports = asked_for reg_cbr m (asked_for reg_capr m m.ports) } in
    let (status, sizes) = frame_words m2 offset size packet f in
    rw (lt→ltb 0 _ some_bytes) (
      then_lem (rx_word offset) _ status
      ∙ (then_lem (rx_word (offset + 2)) _ sizes ∙ rw (eq→eqb _ 1 f.status) refl))
