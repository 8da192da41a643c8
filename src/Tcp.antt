-- ===== src/Tcp.antt =====
-- tcp.c, whose functions but the handler (`Network.Receive.handle_tcp_packet`) print or return a
-- constant, and http.c, which calls them. An `int` is its 32-bit pattern.
pub mod Client
use aimini_os.Base.{
  ℕ, suc, zero, ◌+◌, ◌-◌, ◌^◌, Bool, Option, none, some, List, [], ◌∷◌, ◌++◌, ◌==◌, leb,
  if◌then◌else◌, M, pure, ◌>>=◌, ◌>>◌,
}
use aimini_os.Format.{ascii, terminal_dec}
use aimini_os.Machine.{Machine, Act, say}

abbrev pub minus_one : ℕ
minus_one = 2 ^ 32 - 1

-- `value < 0`
abbrev pub is_negative : ℕ → Bool
is_negative value = leb (2 ^ 31) value

unfoldable pub tcp_init : Act
tcp_init = say (ascii "TCP initialized\n")

unfoldable pub tcp_listen : ℕ → M Machine ℕ
tcp_listen port = do
  say (ascii "TCP listening on port " ++ (terminal_dec port ++ ascii "\n"))
  pure 0

unfoldable pub tcp_socket : ℕ
tcp_socket = minus_one

-- The address and the port of a `struct sockaddr_in`.
unfoldable pub tcp_connect : ℕ → ℕ → ℕ → ℕ
tcp_connect sockfd sin_addr sin_port = minus_one

unfoldable pub tcp_send : ℕ → List ℕ → ℕ → ℕ
tcp_send sockfd message length = minus_one

unfoldable pub tcp_close : ℕ → ℕ
tcp_close sockfd = minus_one

-- The length of a C string: `none` where the bytes have no zero.
unfoldable pub my_strlen : List ℕ → Option ℕ
my_strlen [] = none
my_strlen (c ∷ str) =
    let rest = my_strlen str in
    if c == 0 then some 0 else elim rest [ none ↦ none | some n ↦ some (suc n) ]
