-- ===== src/Kernel/Safe/Turns.antt =====
-- The calls of the main loop keep the machine safe.
use aimini_os.Base.{
  ℕ, ◌+◌, ◌-◌, ◌^◌, List, ◌&&◌, ◌==◌, Bool, Option, none, some, ◌>>=◌, if◌then◌else◌, ltb, leb,
  skip, drop, get_elem?, u16, u32, bit_and,
}
use aimini_os.Layout.{Mac}
use aimini_os.Machine.{Machine, say}
use aimini_os.Arp.Calls.{
  arp_frame_size, send_arp_request, get_mac_from_cache, arp_resolve, resolve_own, resolved,
}
use aimini_os.Network.Link.{network_send_packet}
use aimini_os.Network.Receive.{handle_network_packet}
use aimini_os.Network.Icmp.{hello_len}
use aimini_os.Network.Icmp.Request.{
  log_target, show_sending, show_sent, request_buffer, send_request, send_icmp_echo_request,
}
use aimini_os.Ring.{
  bytes_avail, rx_offset_of, take_frame, check_silently, first_bytes, show_frame, loud_frame,
  check_loudly, check_rx_buffer, rx_word,
}
use aimini_os.Ring.Empty.{asked_for, answer_capr, answer_cbr}
use aimini_os.Rtl8139.Registers.{reg_capr, reg_cbr}
use aimini_os.Kernel.{Unset, periodic_ping, main_turn, ping_interval}
use aimini_os.Kernel.Safe.{
  Fixed, IsSafe, Ends, ends, Safe-seen, Safe-printed, Ends-seen, Ends-bind, Ends-if, Ends-demand,
  Ends-say, Ends-skip,
}
use aimini_os.Kernel.Safe.Sending.{Ends-network_send_packet}
use aimini_os.Kernel.Safe.Receiving.{Ends-handle_network_packet}

module _ (fixed : Fixed) where
  Ends-rx_word : (offset : ℕ) (m : Machine) → IsSafe fixed m → Ends fixed (rx_word offset m)
  Ends-rx_word offset m s =
      Ends-demand fixed m (get_elem? m.rx_memory offset) _
        (λ low. Ends-demand fixed m (get_elem? m.rx_memory (offset + 1)) _ (λ high. ends s))

  Ends-take_frame :
      (beyond : ℕ → List ℕ) (buffer : List ℕ) (offset size : ℕ) (m : Machine)
      → IsSafe fixed m
      → Ends fixed (take_frame beyond buffer offset size m)
  unfolding take_frame
  Ends-take_frame beyond buffer offset size m s =
      Ends-bind fixed m
        (handle_network_packet beyond buffer (drop (offset + 4) m.rx_memory)
          (u16 (size + (2 ^ 16 - 4))))
        _ (Ends-handle_network_packet fixed beyond buffer _ _ m s)
        (λ packet m1 s1. ends (Safe-seen fixed m1 _ _ _ s1))

  Ends-check_silently :
      (beyond : ℕ → List ℕ) (buffer : List ℕ) (m : Machine)
      → IsSafe fixed m
      → Ends fixed (check_silently beyond buffer m)
  unfolding check_silently
  Ends-check_silently beyond buffer m s =
      let n : Machine = record m { ports = asked_for reg_cbr m (asked_for reg_capr m m.ports) } in
      let r : IsSafe fixed n = Safe-seen fixed m _ _ _ s in
      let offset : ℕ = rx_offset_of (answer_capr m) in
      Ends-if fixed n (ltb 0 (bytes_avail (answer_capr m) (answer_cbr m))) _ skip
        (Ends-bind fixed n (rx_word offset) _ (Ends-rx_word offset n r) (λ status n1 s1.
          Ends-bind fixed n1 (rx_word (offset + 2)) _ (Ends-rx_word (offset + 2) n1 s1)
            (λ size n2 s2.
              Ends-if fixed n2 (bit_and status 1 == 1) _ skip
                (Ends-take_frame beyond buffer offset size _ (Safe-printed fixed n2 _ s2))
                (Ends-skip fixed n2 s2))))
        (Ends-skip fixed n r)

  Ends-show_frame :
      (offset size : ℕ) (m : Machine) → IsSafe fixed m → Ends fixed (show_frame offset size m)
  unfolding show_frame
  Ends-show_frame offset size m s =
      Ends-demand fixed m
        (first_bytes (if ltb size 16 then size else 16) (drop (offset + 4) m.rx_memory)) _
        (λ text. Ends-seen fixed tt m _ _ s)

  Ends-loud_frame :
      (beyond : ℕ → List ℕ) (buffer : List ℕ) (capr cbr : ℕ) (m : Machine)
      → IsSafe fixed m
      → Ends fixed (loud_frame beyond buffer capr cbr m)
  unfolding loud_frame
  Ends-loud_frame beyond buffer capr cbr m s =
      let offset : ℕ = rx_offset_of capr in
      Ends-if fixed m (ltb 0 (bytes_avail capr cbr)) _ (say _)
        (Ends-bind fixed m (rx_word offset) _ (Ends-rx_word offset m s) (λ status n1 s1.
          Ends-bind fixed n1 (rx_word (offset + 2)) _ (Ends-rx_word (offset + 2) n1 s1)
            (λ size n2 s2.
              Ends-if fixed _ (bit_and status 1 == 1) _ (say _)
                (Ends-bind fixed _ (show_frame offset size) _
                  (Ends-show_frame offset size _ (Safe-printed fixed n2 _ s2))
                  (λ _ n3 s3. Ends-take_frame beyond buffer offset size n3 s3))
                (Ends-say fixed _ _ (Safe-printed fixed n2 _ s2)))))
        (Ends-say fixed m _ s)

  Ends-check_loudly :
      (beyond : ℕ → List ℕ) (buffer : List ℕ) (m : Machine)
      → IsSafe fixed m
      → Ends fixed (check_loudly beyond buffer m)
  unfolding check_loudly
  Ends-check_loudly beyond buffer m s =
      Ends-bind fixed _ (loud_frame beyond buffer (answer_capr m) (answer_cbr m)) _
        (Ends-loud_frame beyond buffer _ _ _ (Safe-seen fixed m _ _ _ s))
        (λ _ n1 s1. Ends-say fixed n1 _ s1)

  pub Ends-check_rx_buffer :
      (beyond : ℕ → List ℕ) (buffer : List ℕ) (m : Machine)
      → IsSafe fixed m
      → Ends fixed (check_rx_buffer beyond buffer m)
  unfolding check_rx_buffer
  Ends-check_rx_buffer beyond buffer m s =
      Ends-if fixed m m.disable_rtl_debug (check_silently beyond buffer)
        (check_loudly beyond buffer) (Ends-check_silently beyond buffer m s)
        (Ends-check_loudly beyond buffer m s)

  pub Ends-send_arp_request :
      (ip : ℕ) (m : Machine) → IsSafe fixed m → Ends fixed (send_arp_request ip m)
  unfolding send_arp_request
  Ends-send_arp_request ip m s =
      Ends-network_send_packet fixed _ arp_frame_size _ (Safe-printed fixed m _ s)

  pub Ends-get_mac_from_cache :
      (ip : ℕ) (m : Machine) → IsSafe fixed m → Ends fixed (get_mac_from_cache ip m)
  unfolding get_mac_from_cache
  Ends-get_mac_from_cache ip m s = Ends-seen fixed _ m _ m.ports s

  Ends-resolved : (o : Option Mac) (m : Machine) → IsSafe fixed m → Ends fixed (resolved o m)
  Ends-resolved none m s = Ends-seen fixed none m _ m.ports s
  Ends-resolved (some a) m s = ends s

  pub Ends-arp_resolve : (ip : ℕ) (m : Machine) → IsSafe fixed m → Ends fixed (arp_resolve ip m)
  unfolding arp_resolve
  Ends-arp_resolve ip m s =
      Ends-if fixed _ (ip == m.net_dev.ip_addr) resolve_own (get_mac_from_cache ip >>= resolved)
        (Ends-seen fixed _ m _ m.ports s)
        (Ends-bind fixed _ (get_mac_from_cache ip) resolved
          (Ends-get_mac_from_cache ip _ (Safe-printed fixed m _ s)) (λ o n r. Ends-resolved o n r))

  Ends-send_request :
      (ip : ℕ) (o : Option Mac) (m : Machine) → IsSafe fixed m → Ends fixed (send_request ip o m)
  unfolding send_request log_target show_sending show_sent
  Ends-send_request ip none m s = Ends-seen fixed tt m _ m.ports s
  Ends-send_request ip (some target) m s =
      Ends-bind fixed _
        (network_send_packet (request_buffer m.net_dev.mac_addr m.net_dev.ip_addr target ip)
          (14 + (20 + 8 + hello_len)))
        _ (Ends-network_send_packet fixed _ _ _ (Safe-printed fixed m _ s))
        (λ _ m1 s1. Ends-seen fixed tt m1 _ m1.ports s1)

  pub Ends-send_icmp_echo_request :
      (ip : ℕ) (m : Machine) → IsSafe fixed m → Ends fixed (send_icmp_echo_request ip m)
  unfolding send_icmp_echo_request
  Ends-send_icmp_echo_request ip m s =
      Ends-bind fixed _ (arp_resolve ip) (send_request ip)
        (Ends-arp_resolve ip _ (Safe-printed fixed m _ s)) (λ o n r. Ends-send_request ip o n r)

  pub Ends-main_turn :
      (unset : Unset) (resolved : Bool) (timer : ℕ) (m : Machine)
      → IsSafe fixed m
      → Ends fixed (main_turn unset resolved timer m)
  unfolding main_turn periodic_ping
  Ends-main_turn unset resolved timer m s =
      Ends-bind fixed m (check_rx_buffer unset.behind unset.buffer) _
        (Ends-check_rx_buffer unset.behind unset.buffer m s)
        (λ _ m1 s1.
          Ends-if fixed m1 (leb ping_interval (u32 (timer + 1)) && resolved) _ _
            (Ends-bind fixed _ (send_icmp_echo_request m1.net_dev.gateway) _
              (Ends-send_icmp_echo_request m1.net_dev.gateway _ (Safe-printed fixed m1 _ s1))
              (λ _ m2 s2. ends s2))
            (ends s1))
