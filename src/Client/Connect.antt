-- ===== src/Client/Connect.antt =====
-- client.cpp: Client::Accept and SetNonBlocking, a connection that comes in.
use extension_project.Prelude.{ℕ, Bool, true, false, none, some, ℤ, pos, negsuc}
use extension_project.Client.{Client, close_socket}

-- What the calls in Accept answer: `accept` has no socket, or the first of SSL_new, SSL_set_fd and
-- SSL_accept that fails on the socket, or all succeed.
pub data AcceptResult : Type 0 where
  no_socket : AcceptResult
  no_connection no_descriptor no_tls connected : ℕ → AcceptResult

-- Accept: its value, and the client; no failure behind `accept` closes the socket.
unfoldable pub accept : AcceptResult → Client → ℤ × Client
accept no_socket client = (negsuc 0, record client { socket = none })
accept (no_connection fd) client = (negsuc 2, record client { socket = some fd })
accept (no_descriptor fd) client = (negsuc 3, record client { socket = some fd })
accept (no_tls fd) client = (negsuc 4, record client { socket = some fd })
accept (connected fd) client = (pos 0, record client { socket = some fd })

-- SetNonBlocking: whether fcntl succeeds; if not, the socket is closed.
unfoldable pub set_non_blocking : Bool → Client → Client
unfolding close_socket
set_non_blocking true client = client
set_non_blocking false client = close_socket client
