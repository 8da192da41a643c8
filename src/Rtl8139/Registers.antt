-- ===== src/Rtl8139/Registers.antt =====
-- The register offsets, bits and sizes of rtl8139.h, and the texts that name bits.
use aimini_os.Base.{ℕ, ◌+◌, List, [], if◌then◌else◌, M, gets, ◌>>=◌}
use aimini_os.Format.{ascii}
use aimini_os.Machine.{Machine, Act, has, inb, inw, inl, outb, outw, outl}
use Prim.Native.String.{String}

abbrev pub reg_idr0 : ℕ
reg_idr0 = 0x00

abbrev pub reg_tsd0 : ℕ
reg_tsd0 = 0x10

abbrev pub reg_tsad0 : ℕ
reg_tsad0 = 0x20

abbrev pub reg_rbstart : ℕ
reg_rbstart = 0x30

abbrev pub reg_cmd : ℕ
reg_cmd = 0x37

abbrev pub reg_capr : ℕ
reg_capr = 0x38

abbrev pub reg_cbr : ℕ
reg_cbr = 0x3a

abbrev pub reg_imr : ℕ
reg_imr = 0x3c

abbrev pub reg_isr : ℕ
reg_isr = 0x3e

abbrev pub reg_tcr : ℕ
reg_tcr = 0x40

abbrev pub reg_rcr : ℕ
reg_rcr = 0x44

abbrev pub cmd_reset : ℕ
cmd_reset = 0x10

abbrev pub cmd_rx_enable : ℕ
cmd_rx_enable = 0x08

abbrev pub cmd_tx_enable : ℕ
cmd_tx_enable = 0x04

abbrev pub isr_rok : ℕ
isr_rok = 0x0001

abbrev pub isr_rer : ℕ
isr_rer = 0x0002

abbrev pub isr_tok : ℕ
isr_tok = 0x0004

abbrev pub isr_ter : ℕ
isr_ter = 0x0008

abbrev pub rcr_aap : ℕ
rcr_aap = 0x00000001

abbrev pub rcr_apm : ℕ
rcr_apm = 0x00000002

abbrev pub rcr_am : ℕ
rcr_am = 0x00000004

abbrev pub rcr_ab : ℕ
rcr_ab = 0x00000008

abbrev pub rcr_wrap : ℕ
rcr_wrap = 0x00000080

abbrev pub rcr_rblen_32k : ℕ
rcr_rblen_32k = 0x00000000

abbrev pub rcr_mxdma_unlimited : ℕ
rcr_mxdma_unlimited = 0x00000700

abbrev pub tcr_ifg_standard : ℕ
tcr_ifg_standard = 0x03000000

abbrev pub tcr_mxdma_2048 : ℕ
tcr_mxdma_2048 = 0x00000700

abbrev pub tcr_crc : ℕ
tcr_crc = 0x00010000

abbrev pub tsd_tabt : ℕ
tsd_tabt = 0x2000

abbrev pub tsd_tun : ℕ
tsd_tun = 0x4000

abbrev pub tsd_tok : ℕ
tsd_tok = 0x8000

abbrev pub rx_buffer_size : ℕ
rx_buffer_size = 32768

abbrev pub tx_buffer_size : ℕ
tx_buffer_size = 1536

-- `if (value & mask) terminal_writestring(name);`
abbrev pub flag : ℕ → ℕ → String → List ℕ
flag value mask name = if has value mask then ascii name else []

-- The register at `offset` of the card.
abbrev pub card_inb : ℕ → M Machine ℕ
card_inb offset = do base ← gets (λ m. m.nic.iobase); inb (base + offset)

abbrev pub card_inw : ℕ → M Machine ℕ
card_inw offset = do base ← gets (λ m. m.nic.iobase); inw (base + offset)

abbrev pub card_inl : ℕ → M Machine ℕ
card_inl offset = do base ← gets (λ m. m.nic.iobase); inl (base + offset)

abbrev pub card_outb : ℕ → ℕ → Act
card_outb offset value = do base ← gets (λ m. m.nic.iobase); outb (base + offset) value

abbrev pub card_outw : ℕ → ℕ → Act
card_outw offset value = do base ← gets (λ m. m.nic.iobase); outw (base + offset) value

abbrev pub card_outl : ℕ → ℕ → Act
card_outl offset value = do base ← gets (λ m. m.nic.iobase); outl (base + offset) value
