-- ===== src/Machine.antt =====
-- The state that the functions of the kernel share, and the port instructions of io.h.
pub mod Quiet
pub mod Stage
use aimini_os.Base.{
  ℕ, ◌+◌, ◌-◌, ◌*◌, ◌%◌, ◌^◌, Bool, true, false, Option, none, some, List, [], ◌∷◌, ◌++◌, M, modify,
  gets, pure, ◌>>=◌, ◌>>◌, u8, u16, u32, bit_and, ltb,
}
use Prim.Native.String.{String}
use aimini_os.Layout.{Mac}
use aimini_os.Format.{ascii}
use aimini_os.Console
use aimini_os.Console.{Console}
use aimini_os.Arp.Cache.{ArpCache}

-- An access to a port: its width in bytes, the port, and what was written.
pub data PortEvent : Type 0 where
  port_in : ℕ → ℕ → PortEvent
  port_out : ℕ → ℕ → ℕ → PortEvent

-- The statics of rtl8139.c. `rx_buffer` and `tx_address` are addresses; the four transmit buffers
-- are lists of bytes.
pub record Nic : Type 0 where
  pub bus : ℕ
  pub slot : ℕ
  pub iobase : ℕ
  pub rx_buffer : ℕ
  pub tx_address : ℕ
  pub tx_buffer : List (List ℕ)
  pub current_tx_buffer : ℕ

-- `struct net_device`
pub record NetDevice : Type 0 where
  pub mac_addr : Mac
  pub ip_addr : ℕ
  pub netmask : ℕ
  pub gateway : ℕ
  pub mtu : ℕ

-- `device` is the hardware: what a read returns, given all accesses so far with the read itself in
-- front. `ports` has those accesses, the latest first. `rx_memory` are the bytes at `rx_buffer`.
pub record Machine : Type 0 where
  pub device : List PortEvent → ℕ
  pub ports : List PortEvent
  pub console : Console
  pub nic : Nic
  pub rx_memory : List ℕ
  pub heap_end : ℕ
  pub disable_rtl_debug : Bool
  pub net_dev : NetDevice
  pub arp_cache : ArpCache

-- `void` functions of the kernel.
abbrev pub Act : Type 0
Act = M Machine (Unit {0})

-- A read of `width` bytes: the device answers with as many.
abbrev pub read_port : ℕ → ℕ → M Machine ℕ
read_port width port m =
    let ports' = port_in width port ∷ m.ports in
    some (m.device ports' % 2 ^ (8 * width), record m { ports = ports' })

abbrev pub write_port : ℕ → ℕ → ℕ → Act
write_port width port value m = some (tt, record m { ports = port_out width port value ∷ m.ports })

abbrev pub inb : ℕ → M Machine ℕ
inb port = read_port 1 (u16 port)

abbrev pub inw : ℕ → M Machine ℕ
inw port = read_port 2 (u16 port)

abbrev pub inl : ℕ → M Machine ℕ
inl port = read_port 4 (u16 port)

abbrev pub outb : ℕ → ℕ → Act
outb port value = write_port 1 (u16 port) (u8 value)

abbrev pub outw : ℕ → ℕ → Act
outw port value = write_port 2 (u16 port) (u16 value)

abbrev pub outl : ℕ → ℕ → Act
outl port value = write_port 4 (u16 port) (u32 value)

-- Consecutive prints are one print of the texts in a row (`Terminal.Text.terminal_writestring-append`).
abbrev pub say : List ℕ → Act
say s = modify (λ m. record m { console = Console.print s m.console })

abbrev pub serial : List ℕ → Act
serial s = modify (λ m. record m { console = Console.serial s m.console })

abbrev pub clear_screen : Act
clear_screen = modify (λ m. record m { console = Console.clear m.console })

-- `if (value & mask)`
abbrev pub has : ℕ → ℕ → Bool
has value mask = ltb 0 (bit_and value mask)

-- A value that must be there: a fault if it is not.
abbrev pub demand : {A : Type 0} → Option A → M Machine A
demand none m = none
demand (some a) m = some (a, m)
