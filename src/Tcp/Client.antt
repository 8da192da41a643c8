-- ===== src/Tcp/Client.antt =====
-- http.c.
use aimini_os.Base.{ℕ, List, [], ◌∷◌, ◌++◌, if◌then◌else◌, ◌>>=◌, ◌>>◌}
use aimini_os.Format.{ascii}
use aimini_os.Machine.{Act, say, demand}
use aimini_os.Tcp.{is_negative, tcp_listen, tcp_socket, tcp_connect, tcp_send, my_strlen}

abbrev pub hello_server_port : ℕ
hello_server_port = 80

unfoldable pub start_http_server : Act
start_http_server = do
  say (ascii "Starting HTTP server on port 80...\n")
  listening ← tcp_listen hello_server_port
  if is_negative listening
      then say (ascii "Failed to start listening\n")
      else say (ascii "HTTP server started successfully!\n")

-- The request as a C string.
abbrev pub message : List ℕ
message = ascii "GET / HTTP/1.1\r\nHost: 10.0.2.2\r\n\r\n" ++ (0 ∷ [])

-- From the connection on.
unfoldable pub send_message : ℕ → Act
send_message sockfd = do
  say (ascii "[HTTP] Connection established\n[HTTP] Sending message: GET / HTTP/1.1\r\n")
  size ← demand (my_strlen message)
  if is_negative (tcp_send sockfd message size)
      then say (ascii "[HTTP] Failed to send message\n")
      else say (ascii "[HTTP] Message sent successfully\n[HTTP] Socket closed\n")

unfoldable pub connect_and_send : ℕ → Act
connect_and_send sockfd = do
  say (ascii "[HTTP] Socket created\n[HTTP] Connecting to 10.0.2.2:80\n")
  if is_negative (tcp_connect sockfd 0x0a000202 80)
      then say (ascii "[HTTP] Failed to connect\n")
      else send_message sockfd

unfoldable pub test_hello_world_network : Act
test_hello_world_network = do
  say (ascii "[HTTP] Starting HTTP client test\n")
  if is_negative tcp_socket
      then say (ascii "[HTTP] Failed to create socket\n")
      else connect_and_send tcp_socket
