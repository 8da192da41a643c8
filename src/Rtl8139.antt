-- ===== src/Rtl8139.antt =====
-- rtl8139.c and rtl8139.h, the driver of the network card.
pub mod Registers
pub mod Dump
pub mod Log
pub mod Send
pub mod Init
