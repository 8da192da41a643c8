-- ===== src/Rtl8139/Dump/Laws.antt =====
-- The register dump prints and reads, and changes nothing else.
use aimini_os.Base.{ℕ, zero, suc, ◌+◌, refl}
use aimini_os.Machine.{Machine}
use aimini_os.Machine.Quiet.{
  IsQuiet, none_more, one_more, Quiet-bind, Quiet-say, Quiet-pure, Quiet-after, Quiet-if,
}
use aimini_os.Rtl8139.Dump.{
  dump_tsd, dump_mac, dump_head, dump_ring, dump_now, rtl8139_dump_registers,
}

Quiet-dump_head : (m : Machine) → IsQuiet m (dump_head m)
unfolding dump_head
Quiet-dump_head m = record {
  value = tt;
  console = _;
  ports = _;
  returns = refl;
  reads =
      one_more _ _
        (one_more _ _ (one_more _ _ (one_more _ _ (one_more _ _ (one_more _ _ none_more)))));
}

Quiet-dump_ring : (m : Machine) → IsQuiet m (dump_ring m)
unfolding dump_ring
Quiet-dump_ring m = record {
  value = tt;
  console = _;
  ports = _;
  returns = refl;
  reads = one_more _ _ (one_more _ _ (one_more _ _ none_more));
}

Quiet-dump_tsd : (left i : ℕ) (m : Machine) → IsQuiet m (dump_tsd left i m)
unfolding dump_tsd
Quiet-dump_tsd zero i m = Quiet-pure m tt
Quiet-dump_tsd (suc left) i m =
    Quiet-after m _ _ (one_more _ _ none_more) (Quiet-dump_tsd left (i + 1) _)

Quiet-dump_mac : (left i : ℕ) (m : Machine) → IsQuiet m (dump_mac left i m)
unfolding dump_mac
Quiet-dump_mac zero i m = Quiet-pure m tt
Quiet-dump_mac (suc left) i m =
    Quiet-after m _ _ (one_more _ _ none_more) (Quiet-dump_mac left (i + 1) _)

Quiet-dump_now : (m : Machine) → IsQuiet m (dump_now m)
unfolding dump_now
Quiet-dump_now m = Quiet-bind m dump_head _ (Quiet-dump_head m) (λ _ n.
    Quiet-bind n (dump_tsd 4 0) _ (Quiet-dump_tsd 4 0 n) (λ _ o.
      Quiet-bind o dump_ring _ (Quiet-dump_ring o)
        (λ _ p. Quiet-bind p (dump_mac 6 0) _ (Quiet-dump_mac 6 0 p) (λ _ q. Quiet-say q _))))

pub Quiet-rtl8139_dump_registers : (m : Machine) → IsQuiet m (rtl8139_dump_registers m)
unfolding rtl8139_dump_registers
Quiet-rtl8139_dump_registers m =
    Quiet-if m m.disable_rtl_debug _ _ (λ _. Quiet-pure m tt) (λ _. Quiet-dump_now m)
