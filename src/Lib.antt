-- ===== src/Lib.antt =====
-- AI MiniOS: a 32-bit kernel with a VGA console, a serial port, an RTL8139 network card, and ARP and
-- ICMP echo above it. This library models its C code and proves what the parts do, alone and
-- together.
--
-- The parts. Everything prints through two devices: terminal.c writes the cells of the VGA screen,
-- serial.c sends bytes to COM1. rtl8139.c copies a frame to one of four transmit buffers and programs
-- the card through the port instructions of io.h, and takes received frames out of a ring of memory.
-- network.c is handed those frames and dispatches them to arp.c, which keeps a table of 16 addresses,
-- and to the ICMP echo service, which answers pings; both send their frames with
-- `network_send_packet`, which is `rtl8139_send_packet`. pci.c finds the card and enables it, and
-- kernel.c sets all of this up, looks for the gateway, and then polls the ring and pings for ever.
-- memory.c, gdt.c, idt.c, tcp.c and http.c stand beside this.
--
-- How C is modelled. Numbers are natural numbers; a value of w bits is cut by `% 2 ^ w` where the
-- source stores it in w bits (`u8`, `u16`, `u32`). A pointer to memory is the list of the bytes that
-- are there, and an access behind them is a fault. A function that changes state is a function of the
-- effect `M S A`: from a state to a result and a new state, or to a fault, the undefined behaviour of
-- C. Loops are structural recursion on the array or on the number of turns left. The code that a call
-- only logs is modelled with its text; consecutive prints may be one print of the texts in a row.
--
-- The files, with the sources at the root of the repository:
--   Base         shared operators and lemmas: lists over native numbers (Lists), Boolean tests
--                (Tests), the effect (Effect), casts (Words, Bytes), bit masks (Bits), tables (Table)
--   ByteOrder    byteorder.h: htons, ntohs, htonl, ntohl
--   Layout       the packed structs of network.h, arp.h and ipv4.h: `read_eth` … for the cast of a
--                pointer, `eth_bytes` … for the bytes of the fields
--   Checksum     network.c: network_checksum; `fold_carries` has two turns as its fuel, and
--                Checksum.Fold shows that two turns end the loop for every 32-bit sum
--   Terminal     terminal.c: the cursor and the cells, terminal_putchar, terminal_writestring,
--                terminal_clear
--   Format       the number formats of terminal.c, serial.c and print_ip of network.c as the text that
--                they send; terminal_writeint and serial_write_int (Signed), whose digits have the
--                source's 32 bytes as their fuel
--   Memory       memory.c: memcpy, memset, memcmp, kmalloc
--   Console      the two devices as one record; serial_putc's carriage returns
--   Machine      the state that the functions share, with the history of port accesses, and io.h;
--                Machine.Quiet for calls that only print and read ports, Machine.Stage for calls
--                whose writes are a known list
--   Serial       serial.c at the level of the port: serial_init, serial_putc, serial_write_string; the
--                fuel of the wait is a hypothesis on the line
--   Pci          pci.c: the accesses (Address), the listing (Scan) and the search (Find, Place), and
--                pci_get_iobase and pci_configure_interrupt (Enable)
--   Rtl8139      rtl8139.c: registers (Registers), the debug output (Log, Dump),
--                rtl8139_send_packet (Send), and rtl8139_init (Init); the waits have the source's
--                1000 turns
--   Ring         rtl8139.c: check_rx_buffer and rtl8139_handle_interrupt
--   Arp          arp.c: the table (Cache) and the functions with their output (Calls)
--   Network      network.c: network_send_packet (Link), the echo reply and request (Icmp), the
--                dumps of a payload (Payload), the receive path (Receive), and network_init (Setup)
--   Tcp          tcp.c, whose functions print or return constants, and http.c (Client)
--   Descriptors  gdt.c and idt.c: the tables that are loaded
--   Interrupts   idt.c: the port writes of idt_install, and handle_rtl8139_interrupt
--   Kernel       kernel.c: kernel_main up to its main loop (`boot`), a turn of the loop
--                (`main_turn`), the loop as a step relation (Loop), what every call that returns keeps
--                (Safe), the pings it sends (Pings) and answers (Echo), the wait for the gateway's
--                address (Gateway), and the tests that nothing calls (Checks). The wait for the gateway
--                has the source's 20 turns; the main loop is a relation, so it needs no fuel
--   Samples      machines and packets for the Tests modules
--
-- What is not code of the repository is a parameter. The hardware is a function `device` from the
-- history of accesses to what a read returns, so a theorem about a call holds for every card. The
-- contents of memory that the program does not set are arguments: the buffer of
-- send_icmp_echo_reply, what stands behind the text of print_hex and behind the `char c` that
-- handle_icmp_packet prints as a string, and the bytes of the heap. In the main loop the card may
-- change the ring between two turns.
--
-- Not modelled: the functions of tcp.c that return NULL or do nothing, and the structs of tcp.h, which
-- have no user; serial_is_transmit_empty and io_wait, which nothing calls; ipv4.c, interrupt.c and
-- interrupt_handlers.c, which the Makefile does not link; assembly and boot code; and
-- that the card changes memory while a call runs. No code that is linked enables interrupts, so they
-- do not interleave with the main loop.
pub mod Base
pub mod ByteOrder
pub mod Checksum
pub mod Layout
pub mod Arp
pub mod Pci
pub mod Terminal
pub mod Format
pub mod Memory
pub mod Console
pub mod Machine
pub mod Rtl8139
pub mod Network
pub mod Ring
pub mod Samples
pub mod Descriptors
pub mod Tcp
pub mod Interrupts
pub mod Serial
pub mod Kernel
