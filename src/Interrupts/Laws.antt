-- ===== src/Interrupts/Laws.antt =====
-- The handler of interrupt 43 keeps the machine safe, as a turn of the main loop does.
use aimini_os.Base.{ℕ, ◌^◌, ◌<◌, List, skip, sym, ◌>>◌}
use mathlib.Core.Path.{subst}
use aimini_os.Format.{ascii}
use aimini_os.Machine.{Machine, say, has}
use aimini_os.Rtl8139.Registers.{isr_rok, isr_tok}
use aimini_os.Rtl8139.Dump.Laws.{Quiet-rtl8139_dump_registers}
use aimini_os.Rtl8139.Init.Whole.{pci_get_iobase-IsOpen}
use aimini_os.Ring.{check_rx_buffer}
use aimini_os.Interrupts.{
  card_iobase, show_pointers, on_receive, on_status, handle_rtl8139_interrupt,
}
use aimini_os.Kernel.Safe.{
  Fixed, IsSafe, Ends, Safe-seen, Safe-printed, Ends-seen, Ends-bind, Ends-if, Ends-say, Ends-skip,
  Ends-Quiet,
}
use aimini_os.Kernel.Safe.Turns.{Ends-check_rx_buffer}

-- The card's place as the driver noted it.
module _ (fixed : Fixed) (b : fixed.bus < 2 ^ 8) (d : fixed.slot < 2 ^ 5) where
  Ends-card_iobase :
      (beyond : Machine → List ℕ) (m : Machine) → IsSafe fixed m → Ends fixed (card_iobase beyond m)
  unfolding card_iobase
  Ends-card_iobase beyond m s =
      let bus : m.nic.bus < 2 ^ 8 = subst (λ f. f.bus < 2 ^ 8) (sym s.same) b in
      let slot : m.nic.slot < 2 ^ 5 = subst (λ f. f.slot < 2 ^ 5) (sym s.same) d in
      let r = pci_get_iobase-IsOpen beyond m.nic.bus m.nic.slot bus slot m in
      subst (Ends fixed) (sym r.returns) (Ends-seen fixed _ m _ _ s)

  Ends-show_pointers :
      (beyond : Machine → List ℕ) (m : Machine)
      → IsSafe fixed m
      → Ends fixed (show_pointers beyond m)
  unfolding show_pointers
  Ends-show_pointers beyond m s =
      Ends-bind fixed _ (card_iobase beyond) _
        (Ends-card_iobase beyond _ (Safe-printed fixed m _ s))
        (λ base m1 s1.
          Ends-bind fixed _ (card_iobase beyond) _
            (Ends-card_iobase beyond _ (Safe-seen fixed m1 _ _ m1.rx_memory s1))
            (λ base2 m2 s2. Ends-seen fixed tt m2 _ _ s2))

  module _ (beyond : Machine → List ℕ) (behind : ℕ → List ℕ) (buffer : List ℕ) where
    Ends-on_receive :
        (isr : ℕ) (m : Machine)
        → IsSafe fixed m
        → Ends fixed (on_receive beyond behind buffer isr m)
    unfolding on_receive
    Ends-on_receive isr m s =
        Ends-if fixed m (has isr isr_rok) (show_pointers beyond >> check_rx_buffer behind buffer)
          skip
          (Ends-bind fixed m (show_pointers beyond) _ (Ends-show_pointers beyond m s)
            (λ _ n r. Ends-check_rx_buffer fixed behind buffer n r))
          (Ends-skip fixed m s)

    Ends-on_status :
        (isr : ℕ) (m : Machine) → IsSafe fixed m → Ends fixed (on_status beyond behind buffer isr m)
    unfolding on_status
    Ends-on_status isr m s =
        Ends-bind fixed _ (on_receive beyond behind buffer isr) _
          (Ends-on_receive isr _ (Safe-printed fixed m _ s))
          (λ _ n r.
            Ends-if fixed n (has isr isr_tok) (say (ascii "Transmit OK\n")) skip
              (Ends-say fixed n (ascii "Transmit OK\n") r) (Ends-skip fixed n r))

    -- From a safe machine whose driver noted a bus of 8 bits and a slot of 5, the handler faults or
    -- ends with a safe machine, whatever the card has put into its ring.
    pub Ends-handle_rtl8139_interrupt :
        (m : Machine)
        → IsSafe fixed m
        → Ends fixed (handle_rtl8139_interrupt beyond behind buffer m)
    unfolding handle_rtl8139_interrupt
    Ends-handle_rtl8139_interrupt m s =
        Ends-bind fixed m (card_iobase beyond) _ (Ends-card_iobase beyond m s) (λ base m1 s1.
          Ends-bind fixed _ (on_status beyond behind buffer _) _
            (Ends-on_status _ _ (Safe-seen fixed m1 m1.console _ m1.rx_memory s1))
            (λ _ m2 s2.
              Ends-bind fixed m2 (card_iobase beyond) _ (Ends-card_iobase beyond m2 s2)
                (λ base2 m3 s3.
                  Ends-Quiet fixed _ _ (Quiet-rtl8139_dump_registers _)
                    (Safe-seen fixed m3 m3.console _ m3.rx_memory s3))))
