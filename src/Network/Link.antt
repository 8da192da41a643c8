-- ===== src/Network/Link.antt =====
-- `network_send_packet`, and the frame types of network.h.
use aimini_os.Base.{ℕ, Bool, true, List, M, pure, ◌>>◌}
use aimini_os.Machine.{Machine}
use aimini_os.Rtl8139.Send.{rtl8139_send_packet}

abbrev pub eth_type_ip : ℕ
eth_type_ip = 0x0800

abbrev pub eth_type_arp : ℕ
eth_type_arp = 0x0806

unfoldable pub network_send_packet : List ℕ → ℕ → M Machine Bool
network_send_packet packet length = do rtl8139_send_packet packet length; pure true
