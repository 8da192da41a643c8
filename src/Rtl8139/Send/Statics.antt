-- ===== src/Rtl8139/Send/Statics.antt =====
-- The statics of the driver after a packet, and the register that it polls.
use aimini_os.Base.{
  ℕ, zero, suc, ◌+◌, ◌*◌, ◌%◌, ◌≤◌, ◌<◌, ◌≡◌, ◌∙◌, List, [], ◌∷◌, length, set, take, drop,
  length-set, length-append, length-take, length-drop, arith, u16, ◌==◌, if◌then◌else◌,
}
use aimini_os.Machine.{Nic}
use aimini_os.Rtl8139.Registers.{reg_tsd0}
use aimini_os.Rtl8139.Send.Laws.{AllSize, IsNic, filled, sent_nic}
use aimini_os.Rtl8139.Send.{wait_offset, int_rem}

pub AllSize-set :
    (rows : List (List ℕ)) (i : ℕ) (row : List ℕ)
    → AllSize 1536 rows
    → length row ≡ 1536
    → AllSize 1536 (set rows i row)
AllSize-set [] i row s e = tt
AllSize-set (x ∷ rows) zero row s e = (e, s.1)
AllSize-set (x ∷ rows) (suc i) row s e = (s.0, AllSize-set rows i row s.1 e)

-- Well-formed statics (four buffers of 1536 bytes and a current one among them) stay well formed
-- when a packet of at most 1536 bytes is sent from a buffer of 1536 bytes.
pub IsNic-sent_nic :
    (nic : Nic) (packet row : List ℕ) (n : ℕ)
    → IsNic nic
    → length row ≡ 1536
    → n ≤ 1536
    → n ≤ length packet
    → IsNic (sent_nic nic (filled packet n row))
IsNic-sent_nic nic packet row n v e small enough = record {
  buffers = length-set nic.tx_buffer nic.current_tx_buffer _ ∙ v.buffers;
  sizes = AllSize-set nic.tx_buffer nic.current_tx_buffer _ v.sizes size;
  current = omega arith;
}
  where
    size : length (filled packet n row) ≡ 1536
    size = omega (
      arith,
      length-append (take n packet) (drop n row),
      length-take n packet enough,
      length-drop n row,
    )

-- The register for the descriptor behind `d`.
pub wait_offset_lem :
    (iobase d : ℕ)
    → d < 4
    → u16 (iobase + (reg_tsd0 + wait_offset ((d + 1) % 4)))
      ≡ (if d == 3 then u16 (iobase + 0x0c) else u16 (iobase + (reg_tsd0 + d * 4)))
unfolding wait_offset int_rem
wait_offset_lem iobase d h = ground arith
