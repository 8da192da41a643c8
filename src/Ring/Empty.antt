-- ===== src/Ring/Empty.antt =====
-- When `check_rx_buffer` has nothing to do.
use mathlib.Core.Logic.{◌↔◌}
use aimini_os.Base.{ℕ, ◌+◌, ◌%◌, ◌^◌, ◌<◌, ◌≡◌, refl, List, ◌∷◌, arith, u16}
use aimini_os.Machine.{PortEvent, port_in, Machine}
use aimini_os.Machine.Quiet.{
  IsQuiet, Quiet-say, Quiet-bind, Quiet-after, Quiet-if, one_more, none_more, Reads,
}
use aimini_os.Rtl8139.Registers.{reg_capr, reg_cbr}
use aimini_os.Ring.{bytes_avail, check_silently, loud_frame, check_loudly, check_rx_buffer}

-- The read of a register of two bytes, and what the card answers.
abbrev pub asked_for : ℕ → Machine → List PortEvent → List PortEvent
asked_for register m before = port_in 2 (u16 (m.nic.iobase + register)) ∷ before

abbrev pub answer_capr : Machine → ℕ
answer_capr m = m.device (asked_for reg_capr m m.ports) % 2 ^ 16

abbrev pub answer_cbr : Machine → ℕ
answer_cbr m = m.device (asked_for reg_cbr m (asked_for reg_capr m m.ports)) % 2 ^ 16

-- For register values in the ring, the driver takes the ring for empty exactly when the two
-- registers are equal.
pub bytes_avail_lem :
    (capr cbr : ℕ) → capr < 32768 → cbr < 32768 → (bytes_avail capr cbr ≡ 0) ↔ (capr ≡ cbr)
unfolding bytes_avail
bytes_avail_lem capr cbr p q = (λ e. ground arith, λ e. ground arith)

module _ (beyond : ℕ → List ℕ) (buffer : List ℕ) (m : Machine)
    (empty : bytes_avail (answer_capr m) (answer_cbr m) ≡ 0) where
  card-Reads : Reads m.ports (asked_for reg_cbr m (asked_for reg_capr m m.ports))
  card-Reads = one_more 2 _ (one_more 2 _ none_more)

  check_silently-IsQuiet : IsQuiet m (check_silently beyond buffer m)
  unfolding check_silently
  check_silently-IsQuiet = record {
    value = tt;
    console = m.console;
    ports = asked_for reg_cbr m (asked_for reg_capr m m.ports);
    returns = rw empty refl;
    reads = card-Reads;
  }

  loud_frame-IsQuiet :
      (k : Machine) → IsQuiet k (loud_frame beyond buffer (answer_capr m) (answer_cbr m) k)
  unfolding loud_frame
  loud_frame-IsQuiet k = rw empty (Quiet-say k _)

  check_loudly-IsQuiet : IsQuiet m (check_loudly beyond buffer m)
  unfolding check_loudly
  check_loudly-IsQuiet =
      Quiet-after m _ (asked_for reg_cbr m (asked_for reg_capr m m.ports)) card-Reads (
        Quiet-bind
          (record m { console = _; ports = asked_for reg_cbr m (asked_for reg_capr m m.ports) })
          (loud_frame beyond buffer (answer_capr m) (answer_cbr m)) _ (loud_frame-IsQuiet _)
          (λ _ k. Quiet-say k _))

-- If the card answers with equal read and write pointers, no frame is handled: the call prints and
-- reads the registers, with and without debug output.
pub check_rx_buffer-IsQuiet :
    (beyond : ℕ → List ℕ) (buffer : List ℕ) (m : Machine)
    → bytes_avail (answer_capr m) (answer_cbr m) ≡ 0
    → IsQuiet m (check_rx_buffer beyond buffer m)
unfolding check_rx_buffer
check_rx_buffer-IsQuiet beyond buffer m empty =
    Quiet-if m m.disable_rtl_debug (check_silently beyond buffer) (check_loudly beyond buffer)
      (λ _. check_silently-IsQuiet beyond buffer m empty)
      (λ _. check_loudly-IsQuiet beyond buffer m empty)
