-- ===== src/Network/Setup.antt =====
-- `network_init` and `network_monitor_status` of network.c.
use aimini_os.Base.{◌++◌, gets, modify, ◌>>=◌, ◌>>◌}
use aimini_os.Format.{ascii, terminal_ip, serial_ip}
use aimini_os.Layout.{Mac}
use aimini_os.Machine.{NetDevice, Act, say, serial}
use aimini_os.Tcp.{tcp_init}

abbrev pub default_mac : Mac
default_mac = record { m0 = 0x52; m1 = 0x54; m2 = 0x00; m3 = 0x12; m4 = 0x34; m5 = 0x56 }

abbrev pub default_device : NetDevice
default_device = record {
  mac_addr = default_mac;
  ip_addr = 0x0a00020f;
  netmask = 0xffffff00;
  gateway = 0x0a000202;
  mtu = 1500;
}

unfoldable pub network_init : Act
network_init = do
  modify (λ m. record m { net_dev = default_device })
  dev ← gets (λ m. m.net_dev)
  say (ascii "Network initialized: IP " ++ (terminal_ip dev.ip_addr ++ ascii "\n"))
  serial (ascii "Network initialized: IP " ++ (serial_ip dev.ip_addr ++ ascii "\r\n"))
  tcp_init

unfoldable pub network_monitor_status : Act
network_monitor_status = do
  dev ← gets (λ m. m.net_dev)
  say (ascii "Network status: OK\nCurrent IP: " ++ (terminal_ip dev.ip_addr ++ ascii "\n"))
