-- ===== src/ByteOrder/Tests.antt =====
-- Tests of the byte order.
use aimini_os.Base.{◌≡◌, refl, arith}
use aimini_os.ByteOrder.{htons, ntohs, htonl, ntohl}
use aimini_os.ByteOrder.Laws.{ntoh-hton}

htons_test : htons 0x0806 ≡ 0x0608
unfolding htons
htons_test = refl

htonl_test : htonl 0x0a00020f ≡ 0x0f02000a
unfolding htonl
htonl_test = refl

ntoh-hton_example : (ntohs (htons 0x0806) ≡ 0x0806) × (ntohl (htonl 0x0a00020f) ≡ 0x0a00020f)
ntoh-hton_example = ntoh-hton 0x0806 0x0a00020f (omega arith) (omega arith)
