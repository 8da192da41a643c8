-- ===== src/Rtl8139/Log.antt =====
-- The debug output of `rtl8139_send_packet` about the packet.
pub mod Laws
use aimini_os.Base.{
  ℕ, zero, suc, ◌+◌, ◌%◌, List, [], ◌∷◌, ◌++◌, Bool, ◌&&◌, ltb, leb, ◌==◌, if◌then◌else◌, Option,
  none, some, M, skip, ◌>>=◌, ◌>>◌, get_elem?, drop,
}
use aimini_os.Format.{ascii, terminal_hex8, terminal_hex16, terminal_dec}
use aimini_os.Machine.{Machine, Act, say, serial, demand}

-- The first `n` bytes: a fault behind the end of the packet.
unfoldable pub prefix : ℕ → List ℕ → Option (List ℕ)
prefix zero packet = some []
prefix (suc n) [] = none
prefix (suc n) (x ∷ packet) = elim (prefix n packet) [ none ↦ none | some xs ↦ some (x ∷ xs) ]

-- `packet[from + i]` for `i` below `n`.
unfoldable pub bytes_from : ℕ → ℕ → List ℕ → Option (List ℕ)
bytes_from from n packet = prefix n (drop from packet)

-- Up to 64 bytes, sixteen to a line.
unfoldable pub hex_rows : ℕ → List ℕ → List ℕ
hex_rows i [] = []
hex_rows i (x ∷ xs) =
    (if i % 16 == 0 then ascii "\n" else [])
    ++ (terminal_hex8 x ++ (ascii " " ++ hex_rows (i + 1) xs))

-- The bytes in hexadecimal with a separator between them.
unfoldable pub hex_joined : List ℕ → List ℕ → List ℕ
hex_joined sep [] = []
hex_joined sep (x ∷ []) = terminal_hex8 x
hex_joined sep (x ∷ y ∷ xs) = terminal_hex8 x ++ (sep ++ hex_joined sep (y ∷ xs))

unfoldable pub log_length : ℕ → Act
log_length length = do
  say (ascii "RTL8139: Sending packet, length = " ++ (terminal_dec length ++ ascii "\n"))
  serial (ascii "RTL8139: Sending packet, length = " ++ (terminal_dec length ++ ascii "\r\n"))

unfoldable pub log_data : List ℕ → ℕ → Act
log_data packet length = do
  shown ← demand (bytes_from 0 (if ltb length 64 then length else 64) packet)
  say (
      ascii "\n=== Sending Packet [DEBUG] ===\nLength: "
      ++ (terminal_hex16 length
          ++ (ascii "\nPacket Data (First 64 bytes): " ++ (hex_rows 0 shown ++ ascii "\n"))))

unfoldable pub log_eth : List ℕ → Act
log_eth packet = do
  dest ← demand (bytes_from 0 6 packet)
  src ← demand (bytes_from 6 6 packet)
  eth_type ← demand (bytes_from 12 2 packet)
  say (
      ascii "\nEthernet Header:\n  Dest MAC: "
      ++ (hex_joined (ascii ":") dest
          ++ (ascii "\n  Src MAC: "
              ++ (hex_joined (ascii ":") src
                  ++ (ascii "\n  Type: " ++ (hex_joined [] eth_type ++ ascii "\n"))))))

unfoldable pub log_ip : List ℕ → Act
log_ip packet = do
  version ← demand (bytes_from 14 1 packet)
  total ← demand (bytes_from 16 2 packet)
  protocol ← demand (bytes_from 23 1 packet)
  checksum ← demand (bytes_from 24 2 packet)
  src ← demand (bytes_from 26 4 packet)
  dest ← demand (bytes_from 30 4 packet)
  say (
      ascii "\nIP Header:\n  Version/IHL: "
      ++ (hex_joined [] version
          ++ (ascii "\n  Total Length: "
              ++ (hex_joined [] total
                  ++ (ascii "\n  Protocol: "
                      ++ (hex_joined [] protocol
                          ++ (ascii "\n  Checksum: "
                              ++ (hex_joined [] checksum
                                  ++ (ascii "\n  Src IP: "
                                      ++ (hex_joined (ascii ".") src
                                          ++ (ascii "\n  Dest IP: "
                                              ++ (hex_joined (ascii ".") dest
                                                  ++ ascii "\n"))))))))))))

-- `packet[12] == 0x08 && packet[13] == 0x00`
unfoldable pub log_if_ip : List ℕ → Act
log_if_ip packet = do
  hi ← demand (get_elem? packet 12)
  lo ← demand (get_elem? packet 13)
  if hi == 0x08 && lo == 0x00 then log_ip packet else skip

unfoldable pub log_packet : List ℕ → ℕ → Act
log_packet packet length = do
  log_length length
  log_data packet length
  if leb 14 length then log_eth packet else skip
  if leb 34 length then log_if_ip packet else skip
