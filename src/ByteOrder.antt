-- ===== src/ByteOrder.antt =====
-- byteorder.h: conversion between the host's byte order, the lowest byte first, and the network's.
pub mod Laws
mod Tests
use aimini_os.Base.{ℕ, bit_and, bit_or, u16, u32, shl, shr}

pub htons : ℕ → ℕ
htons x = u16 (bit_or (shl (bit_and x 0xff) 8) (shr (bit_and x 0xff00) 8))

unfoldable pub ntohs : ℕ → ℕ
ntohs x = htons x

-- The shifts are of `uint32_t` values, so bits that leave at the top are lost.
pub htonl : ℕ → ℕ
htonl x =
    bit_or
      (bit_or (bit_or (u32 (shl (bit_and x 0xff) 24)) (u32 (shl (bit_and x 0xff00) 8)))
        (shr (bit_and x 0xff0000) 8))
      (shr (bit_and x 0xff000000) 24)

unfoldable pub ntohl : ℕ → ℕ
ntohl x = htonl x
