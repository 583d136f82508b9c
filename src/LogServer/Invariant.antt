-- ===== src/LogServer/Invariant.antt =====
-- log-server.cpp and web_socket_server.cpp: what holds between the clients and the logs.
pub mod Talks
pub mod Reads
pub mod Steps
use extension_project.Prelude.{
  All-weaken, ℕ, ◌+◌, ◌<◌, ◌≡◌, ◌≢◌, refl, ◌∙◌, sym, ap, subst, inl, inr, Bool, true, false, none,
  some, Option, List, [], ◌∷◌, arith, ◌==◌, if◌then◌else◌, All, Bool-cases, Lacks, length, c_string,
}
use extension_project.WebSocket.Types.{Run, returns, ◌>>=◌, found}
use extension_project.WebSocket.Ensures.{
  Ensures, Ensures-bind, Ensures-then, Ensures-if, Ensures-weaken, Ensures-returns,
}
use extension_project.WebSocket.Answer.{Crypto}
use extension_project.Client.{
  Client, Code, read_succeed, read_succeed_data_available, waiting_for_more_data, handshake_succeed,
  network_error, handshake_failed, invalid_frame, client_disconnected, buffer_too_small, Round,
  send, disconnect,
}
use extension_project.Client.Buffer.{IsValid}
use extension_project.Client.Receive.{Received, receive}
use extension_project.Client.Connect.{connected}
use extension_project.Client.Keeps.{Keeps, SecondKeeps, send-Keeps, IsClosed, disconnect-IsClosed}
use extension_project.Client.Keeps.Input.{Fits, KeepsReceived, receive-Keeps}
use extension_project.Server.{
  Clients, Server, int_max, has_client, put_client, get_client, erase_client, Arrival,
  listen_connections,
}
use extension_project.Server.Messages.{
  Turn, Visited, remains, react, hand_over, drop_client, message_len,
}
use extension_project.Server.Ids.{IsFirstFree}
use extension_project.Server.Arrivals.{IsEntry, IsKept, Sized}
use extension_project.Server.Arrivals.Newcomers.{IsAdded, newcomer, listen_connections-IsAdded}
use extension_project.Server.Entries.{
  Within, Grows, get_client-All, get_client-has_client, put_client-IsKept, put_client-Within,
  erase_client-IsKept, has_client-erase_client, listen_connections-Grows,
}
use extension_project.LogServer.Description.{LogDescription}
use extension_project.LogServer.Requests.{Answers, Cleaned, on_message, delete_requests_from_client}
use extension_project.LogServer.Names.{dots}
use extension_project.LogServer.Round.{Events, Outcome, read_logs}
use extension_project.LogServer.Owners.{
  Holds, AllHold, Cleans, Deletes, on_message-AllHold, delete_requests_from_client-Deletes,
}
use extension_project.LogServer.Effects.{of_client}
use extension_project.LogServer.Threads.{
  System, start, behind, log_handler, talk, send_lines, read_round, Step, arrives, talks, leaves,
  reads, Reach, here, next,
}

-- The client of a log is in the map and not about to be taken out, and the name has no "..".
abbrev pub Owned : Clients → Option ℕ → ℕ → List ℕ → Type 0
Owned clients leaving id name =
    (has_client id clients ≡ true) × Lacks dots name × (leaving ≢ some id)

abbrev Unfollowed : ℕ → List LogDescription → Type 0
Unfollowed id logs = All (λ log. log.client_id ≢ id) logs

pub record IsSafe (s : System) : Type 0 where
  pub kept : IsKept s.server.clients
  pub owned : AllHold (Owned s.server.clients s.leaving) s.logs.logs
