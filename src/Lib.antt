-- ===== src/Lib.antt =====
-- A WebSocket server that sends the lines of log files to browsers, as they are written.
--
-- The program is log-server/. A browser connects over TLS, shakes hands, and sends the messages "add
-- <file>" and "del <file>"; the server follows the files and sends their new lines. Three threads
-- share the map of clients and the list of logs: ListenConnections takes connections in,
-- ListenMessages receives from the clients, and Run reads the logs and sends their lines.
--
--   - WebSocket: log-server/cwebsocket/websocket.{h,c}, the protocol. Types: enum wsFrameType, and
--     what becomes of a call (it returns, an assertion ends the process, a write leaves its block, a
--     loop never ends). Frame: wsMakeFrame is make_frame, getPayloadLength is get_payload_length,
--     wsParseInputFrame is parse_input_frame with its branches parse_opcode and parse_payload and
--     its loop unmask. Handshake and Names: wsParseHandshake is parse_handshake, with parse_request
--     for the part from the resource on, header_lines for its loop and header_line for a round of
--     it; getUptoLinefeed is get_upto_linefeed. Answer: wsGetHandshakeAnswer is
--     get_handshake_answer. Rfc says what RFC 6455 asks of frames and Request how requests and
--     answers are written, independently of the code. Handshake.Rule has the server's rule for the
--     requests that it takes, is_taken, and that of RFC 6455, IsRequest, which differ. Ensures: what
--     holds of a call if it comes back.
--   - Client: log-server/client.{h,cpp}. Client::Receive and Handshake are receive and handshake in
--     Client.Receive, SendFrame, Send and Disconnect are send_frame, send and disconnect; Accept and
--     SetNonBlocking are accept and set_non_blocking in Client.Connect. What accept, fcntl,
--     SSL_read, select and SSL_write answer are arguments. SendFrame's own FD_SET takes the socket to
--     be one that fits a set: ListenMessages puts each client into its set first, with fill_set.
--     Safety and Overrun are about the lengths that wrap, in a frame that is not there as a whole.
--   - Server: log-server/web_socket_server.{h,cpp}. The map of clients is a list of entries with
--     rising ids. GenerateID is generate_id, a round of ListenConnections is listen_connections, and
--     what it does at the end is disconnect_all. Messages has ListenMessages: fill_set fills the
--     descriptor set, pass is the loop over the clients, visit its body, serve the loop over one
--     client, react its body. Startup has Run, Stop, InitSSL and ListenSocket; what pthread_create
--     leaves in a handle when it fails is an argument, and may be -1. The virtual OnMessage and
--     OnDisconnect are an interface, Handler; they leave the client as it is.
--   - LogServer: log-server/log-server.cpp. Description has class LogDescription: Cleanup, Open,
--     OpenTail, GetNextLine are cleanup, open_log, open_tail, get_next_line; Tail has the child of
--     the fork in OpenTail, and Pace the reads with the sleep in front of each. Requests has
--     OnMessage and what it calls: CheckLogName, StartReadingLog, StopReadingLog, and
--     DeleteRequestsFromClient, which is OnDisconnect. Round has a pass of Run over the list of
--     logs: read_logs, visit for one log. Threads has the whole server: log_handler fills Handler,
--     send_lines sends the lines of a round, and Step is what a thread does in one hold of the
--     locks, read_round for one of Run. Select has what Run makes of a `select` that fails, by
--     fill_logs, filled_set and behind_select in Round; Lines.Due has the lines that a round has for
--     the clients, by what fgets gives, and Kills whom the clean-ups kill. Locks has the three threads with
--     clients_mutex, logs_mutex and their two conditions: a thread stands at a point of its loop and
--     a move takes it to the next one; Moves are the interleavings. Session has a
--     browser that connects, shakes hands and asks for a log, as moves from the start of the
--     threads. What the kernel, the file system,
--     stdio and the clock answer are arguments.
--
-- A step is coarse, and is there for invariants: it has no `select`, no set and no wait, so there may
-- be steps that no threads take. It is a connection that is taken in, a round of the do-while loop over one client, the taking
-- out of a client that was disconnected, or a round over the logs. A client that is disconnected
-- stays in the map until ListenMessages takes it out, which it does before it lets go of the lock of
-- the clients; Run, which does not take that lock, can come in between. A move of Locks is finer:
-- the taking or the giving back of a lock, the wait for a condition, the filling of a set, a
-- `select`, a call of Stop, and what a step does is one move. A wait for a condition gives the lock
-- back and takes it again behind the wake-up; whether it may end without a signal is a parameter,
-- `spurious`. pthread_join is only recorded. Run reads the map while ListenConnections may change
-- it, and may send to a client while ListenMessages receives from it: these races are left out,
-- since a connection is one move and so is a round over one client.
--
-- The host is LP64 and little-endian: a size_t is a number below 2^64 whose sums and differences
-- wrap, and memcpy between a number and bytes puts the lowest byte first. An array is the list of
-- its bytes; a frame is read from the array that holds it and the number of bytes that count as
-- input. A write past the end of an array is `corrupts`, that of the loop which takes the mask off
-- too; a read past its end gives 0, where no hypothesis excludes it. An id or a socket of
-- -1, and a null pointer, are none. A C string is a text without 0. FD_SETSIZE is 1024.
--
-- Loops are recursions on their lists, but for three. header_lines takes one unit of fuel for a line
-- of the request and gets one more than the request has bytes; each round goes past at least two
-- bytes. free_id takes INT_MAX rounds, as the code does; it needs one more than there are clients.
-- serve takes one round for each answer of SSL_read that is to come, and hangs when there is none.
--
-- Not modelled: log-server/cwebsocket/sha1.c and base64_enc.c are another project's library, taken
-- as a parameter with the sizes of their results; what OpenSSL, the sockets, select and the threads'
-- library do inside their calls, the arguments of main, and logging.
-- friendly-logs/ is an extension of a hosting panel in PHP and JavaScript that shows the pages.
pub mod Prelude
pub mod WebSocket
pub mod Client
pub mod LogServer
pub mod Server
pub mod Examples
