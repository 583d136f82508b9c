-- ===== src/Server/Startup.antt =====
-- web_socket_server.cpp: what Run, Stop and ListenConnections do in front of their loops, and behind.
use extension_project.Prelude.{
  ℕ, Bool, true, false, List, [], ◌∷◌, Option, none, some, if◌then◌else◌, ◌==◌, ℤ, pos, negsuc,
  is_negative,
}

-- What pthread_create answers: its value, and what is then in the handle, which may be -1 if it fails.
pub record Created : Type 0 where
  pub value : ℤ
  pub handle : Option ℕ

-- A handle of -1 is `none`.
pub record Listeners : Type 0 where
  pub stop : Bool
  pub connection_listener : Option ℕ
  pub message_listener : Option ℕ

-- pthread_join on a handle; one of -1 names no thread.
abbrev join_handle : Option ℕ → List ℕ
join_handle none = []
join_handle (some handle) = handle ∷ []

-- Run of WebSocketServer: its value, the handles, and whom it joins.
unfoldable pub run_server : Created → Created → Listeners → ℤ × Listeners × List ℕ
run_server first second l =
    if is_negative first.value
    then (negsuc 0, record l { stop = false; connection_listener = none }, [])
    else if is_negative second.value
    then (
      negsuc 1,
      record { stop = true; connection_listener = none; message_listener = none },
      join_handle first.handle,
    )
    else (
      pos 0,
      record { stop = false; connection_listener = first.handle; message_listener = second.handle },
      [],
    )

-- Both handles, if there are both.
abbrev both_handles : Option ℕ → Option ℕ → List ℕ
both_handles (some connection) (some message) = connection ∷ message ∷ []
both_handles (some connection) none = []
both_handles none message = []

-- Stop: the handles, and whom it joins.
unfoldable pub stop_server : Listeners → Listeners × List ℕ
stop_server l = (record l { stop = true }, both_handles l.connection_listener l.message_listener)

-- What OpenSSL answers to InitSSL: whether there is a context, and the values of its three calls.
pub record SslResults : Type 0 where
  pub has_context : Bool
  pub cipher_list : ℕ
  pub certificate_file : ℕ
  pub private_key_file : ℕ

unfoldable pub init_ssl : SslResults → ℤ
init_ssl r =
    if r.has_context
    then if r.cipher_list == 0
      then negsuc 1
      else if r.certificate_file == 1
      then if r.private_key_file == 1 then pos 0 else negsuc 3
      else negsuc 2
    else negsuc 0

-- ListenSocket, by whether bind and listen succeed.
unfoldable pub listen_socket : Bool → Bool → ℤ
listen_socket bound listens = if bound then if listens then pos 0 else negsuc 0 else negsuc 0

-- ListenConnections in front of its loop: whether it comes there.
unfoldable pub is_set_up : SslResults → Bool → Bool → Bool
unfolding init_ssl listen_socket
is_set_up r bound listens =
    if is_negative (init_ssl r)
    then false
    else if is_negative (listen_socket bound listens)
    then false
    else true
