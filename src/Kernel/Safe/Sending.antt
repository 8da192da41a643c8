-- ===== src/Kernel/Safe/Sending.antt =====
-- Sending keeps the machine safe, whatever the packet and its length.
use aimini_os.Base.{
  ℕ, zero, suc, ◌≡◌, refl, List, [], ◌∷◌, Option, none, some, if◌then◌else◌, ltb, leb, skip,
  get_elem?, length, length-set, arith, ◌∙◌,
}
use aimini_os.Machine.{Machine, say}
use aimini_os.Rtl8139.Log.{bytes_from, log_length, log_data, log_eth, log_ip, log_if_ip, log_packet}
use aimini_os.Memory.{memcpy, put}
use aimini_os.Network.Link.{network_send_packet}
use aimini_os.Rtl8139.Registers.{tx_buffer_size}
use aimini_os.Rtl8139.Send.{
  debug, fill_buffer, log_copy, log_tsad, start_transmission, transmit, rtl8139_send_packet,
}
use aimini_os.Rtl8139.Send.Wait.{Quiet-debug, Quiet-log_copy, Quiet-log_tsad}
use aimini_os.Rtl8139.Send.Laws.{AllSize, start_transmission-IsStarted}
use aimini_os.Rtl8139.Send.Statics.{AllSize-set}
use aimini_os.Kernel.Safe.{
  Fixed, ends, Ends-wanted, IsSafe, Ends, Ends-seen, Ends-bind, Ends-if, Ends-demand, Ends-say,
  Ends-skip, Ends-debug, Ends-Quiet,
}

length-put :
    (x : ℕ) (o : Option (List ℕ)) (r : List ℕ) (k : ℕ)
    → ((q : List ℕ) → o ≡ some q → length q ≡ k)
    → put x o ≡ some r
    → length r ≡ suc k
length-put x none r k h e = cc
length-put x (some q) r k h e =
    let l : length q ≡ k = h q refl in let same : r ≡ x ∷ q = cc in rw same (omega (arith, l))

-- A copy does not change the length of its destination.
length-memcpy :
    (dest src : List ℕ) (n : ℕ) (r : List ℕ) → memcpy dest src n ≡ some r → length r ≡ length dest
unfolding memcpy
length-memcpy dest src zero r e = cc
length-memcpy [] src (suc n) r e = cc
length-memcpy (d ∷ dest) [] (suc n) r e = cc
length-memcpy (d ∷ dest) (x ∷ src) (suc n) r e =
    length-put x (memcpy dest src n) r (length dest) (λ q. length-memcpy dest src n q) e

row_size :
    (rows : List (List ℕ)) (i : ℕ) (row : List ℕ)
    → AllSize 1536 rows
    → get_elem? rows i ≡ some row
    → length row ≡ 1536
row_size [] i row s e = cc
row_size (x ∷ rows) zero row s e = cc
row_size (x ∷ rows) (suc i) row s e = row_size rows i row s.1 e

module _ (fixed : Fixed) (m : Machine) (s : IsSafe fixed m) where
  Ends-log_length : (n : ℕ) → Ends fixed (log_length n m)
  unfolding log_length
  Ends-log_length n = Ends-seen fixed tt m _ _ s

  Ends-log_data : (packet : List ℕ) (n : ℕ) → Ends fixed (log_data packet n m)
  unfolding log_data
  Ends-log_data packet n =
      Ends-demand fixed m (bytes_from 0 (if ltb n 64 then n else 64) packet) _
        (λ shown. Ends-seen fixed tt m _ _ s)

  Ends-log_eth : (packet : List ℕ) → Ends fixed (log_eth packet m)
  unfolding log_eth
  Ends-log_eth packet = Ends-demand fixed m (bytes_from 0 6 packet) _ (λ dest.
      Ends-demand fixed m (bytes_from 6 6 packet) _ (λ src.
        Ends-demand fixed m (bytes_from 12 2 packet) _ (λ eth_type. Ends-seen fixed tt m _ _ s)))

  Ends-log_ip : (packet : List ℕ) → Ends fixed (log_ip packet m)
  unfolding log_ip
  Ends-log_ip packet = Ends-demand fixed m (bytes_from 14 1 packet) _ (λ version.
      Ends-demand fixed m (bytes_from 16 2 packet) _ (λ total.
        Ends-demand fixed m (bytes_from 23 1 packet) _ (λ protocol.
          Ends-demand fixed m (bytes_from 24 2 packet) _ (λ checksum.
            Ends-demand fixed m (bytes_from 26 4 packet) _ (λ src.
              Ends-demand fixed m (bytes_from 30 4 packet) _
                (λ dest. Ends-seen fixed tt m _ _ s))))))

  Ends-log_if_ip : (packet : List ℕ) → Ends fixed (log_if_ip packet m)
  unfolding log_if_ip
  Ends-log_if_ip packet = Ends-demand fixed m (get_elem? packet 12) _ (λ hi.
      Ends-demand fixed m (get_elem? packet 13) _
        (λ lo. Ends-if fixed m _ (log_ip packet) skip (Ends-log_ip packet) (Ends-skip fixed m s)))

module _ (fixed : Fixed) where
  Ends-log_packet :
      (packet : List ℕ) (n : ℕ) (m : Machine) → IsSafe fixed m → Ends fixed (log_packet packet n m)
  unfolding log_packet
  Ends-log_packet packet n m s =
      Ends-bind fixed m (log_length n) _ (Ends-log_length fixed m s n) (λ _ m0 s0.
        Ends-bind fixed m0 (log_data packet n) _ (Ends-log_data fixed m0 s0 packet n) (λ _ m1 s1.
          Ends-bind fixed m1 (if leb 14 n then log_eth packet else skip) _
            (Ends-if fixed m1 (leb 14 n) (log_eth packet) skip (Ends-log_eth fixed m1 s1 packet)
              (Ends-skip fixed m1 s1))
            (λ _ m2 s2.
              Ends-if fixed m2 (leb 34 n) (log_if_ip packet) skip
                (Ends-log_if_ip fixed m2 s2 packet) (Ends-skip fixed m2 s2))))

  Ends-fill_buffer :
      (packet : List ℕ) (n : ℕ) (m : Machine) → IsSafe fixed m → Ends fixed (fill_buffer packet n m)
  unfolding fill_buffer
  Ends-fill_buffer packet n m s =
      Ends-wanted fixed m (get_elem? m.nic.tx_buffer m.nic.current_tx_buffer) _ (λ row there.
        Ends-wanted fixed m (memcpy row packet n) _ (λ row' copied. ends (record {
          statics = record {
            buffers = length-set m.nic.tx_buffer m.nic.current_tx_buffer row' ∙ s.statics.buffers;
            sizes = AllSize-set m.nic.tx_buffer m.nic.current_tx_buffer row' s.statics.sizes (
                length-memcpy row packet n row' copied
                ∙ row_size m.nic.tx_buffer m.nic.current_tx_buffer row s.statics.sizes there);
            current = s.statics.current;
          };
          table = s.table;
          same = s.same;
        })))

  Ends-start_transmission :
      (n : ℕ) (m : Machine) → IsSafe fixed m → Ends fixed (start_transmission n m)
  Ends-start_transmission n m s =
      let r = start_transmission-IsStarted n m in
      rw r.returns (
        ends (record {
          statics = record {
            buffers = s.statics.buffers;
            sizes = s.statics.sizes;
            current = omega arith;
          };
          table = s.table;
          same = s.same;
        }))

  Ends-transmit :
      (packet : List ℕ) (n : ℕ) (m : Machine) → IsSafe fixed m → Ends fixed (transmit packet n m)
  unfolding transmit
  Ends-transmit packet n m s =
      Ends-bind fixed m (debug log_copy) _
        (Ends-Quiet fixed m _ (Quiet-debug m log_copy Quiet-log_copy) s)
        (λ _ m1 s1.
          Ends-bind fixed m1 (fill_buffer packet n) _ (Ends-fill_buffer packet n m1 s1) (λ _ m2 s2.
            Ends-bind fixed m2 (debug log_tsad) _
              (Ends-Quiet fixed m2 _ (Quiet-debug m2 log_tsad Quiet-log_tsad) s2)
              (λ _ m3 s3. Ends-start_transmission n m3 s3)))

  -- Whatever the packet and its length.
  pub Ends-rtl8139_send_packet :
      (packet : List ℕ) (n : ℕ) (m : Machine)
      → IsSafe fixed m
      → Ends fixed (rtl8139_send_packet packet n m)
  unfolding rtl8139_send_packet
  Ends-rtl8139_send_packet packet n m s =
      Ends-bind fixed m (debug (log_packet packet n)) _
        (Ends-debug fixed m (log_packet packet n) s (Ends-log_packet packet n m s))
        (λ _ m1 s1.
          Ends-if fixed m1 (ltb tx_buffer_size n) (debug (say _)) (transmit packet n)
            (Ends-debug fixed m1 (say _) s1 (Ends-say fixed m1 _ s1))
            (Ends-transmit packet n m1 s1))

  pub Ends-network_send_packet :
      (packet : List ℕ) (n : ℕ) (m : Machine)
      → IsSafe fixed m
      → Ends fixed (network_send_packet packet n m)
  unfolding network_send_packet
  Ends-network_send_packet packet n m s =
      Ends-bind fixed m (rtl8139_send_packet packet n) _ (Ends-rtl8139_send_packet packet n m s)
        (λ _ m1 s1. ends s1)
