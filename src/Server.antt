-- ===== src/Server.antt =====
-- web_socket_server.{h,cpp}: the map of clients, the ids, and the round of ListenConnections that
-- takes a connection in. The map is a list of entries with rising ids.
pub mod Messages
pub mod Ids
pub mod Arrivals
pub mod Entries
pub mod Sets
pub mod Startup
use extension_project.Prelude.{
  ℕ, zero, suc, ◌+◌, ◌-◌, ◌^◌, Bool, true, false, ◌||◌, List, [], ◌∷◌, Option, none, some, ltb,
  ◌==◌, if◌then◌else◌, ℤ, pos, negsuc,
}
use extension_project.WebSocket.Types.{Run, returns, corrupts, ◌>>=◌}
use extension_project.Client.{Client, Round, new_client, set_id, close_socket, disconnect}
use extension_project.Client.Connect.{AcceptResult, accept, set_non_blocking}

abbrev pub int_max : ℕ
int_max = 2 ^ 31 - 1

-- `std::map<int, Client>`
abbrev pub Clients : Type 0
Clients = List (ℕ × Client)

-- `clients.count(id)`
unfoldable pub has_client : ℕ → Clients → Bool
has_client id [] = false
has_client id (entry ∷ clients) = entry.0 == id || has_client id clients

-- `clients[id] = client`
unfoldable pub put_client : ℕ → Client → Clients → Clients
put_client id client [] = (id, client) ∷ []
put_client id client (entry ∷ clients) =
    if ltb id entry.0
    then (id, client) ∷ entry ∷ clients
    else if entry.0 == id
    then (id, client) ∷ clients
    else entry ∷ put_client id client clients

-- get_client, and `clients.find`
unfoldable pub get_client : ℕ → Clients → Option Client
get_client id [] = none
get_client id (entry ∷ clients) = if entry.0 == id then some entry.1 else get_client id clients

-- `clients.erase(it)`
unfoldable pub erase_client : ℕ → Clients → Clients
erase_client id [] = []
erase_client id (entry ∷ clients) =
    if entry.0 == id then clients else entry ∷ erase_client id clients

-- The fields that change while the server runs, but for `stop`.
pub record Server : Type 0 where
  pub clients : Clients
  pub id_counter : ℕ

-- The loop of GenerateID from `id` on, for as many rounds; a sum past INT_MAX has no meaning in C.
unfoldable pub free_id : ℕ → ℕ → Clients → Run (Option ℕ)
free_id zero id clients = returns none
free_id (suc rounds) id clients =
    let next = free_id rounds (id + 1) clients in
    if ltb int_max id then corrupts else if has_client id clients then next else returns (some id)

-- GenerateID: an id of -1 is none.
unfoldable pub generate_id : Server → Run (Option ℕ × Server)
generate_id server = do
  id ← free_id int_max server.id_counter server.clients
  returns (id, elim id [ none ↦ server | some new_id ↦ record server { id_counter = new_id } ])

-- What is done under the lock with a client that Accept gave: the id is put into it, and it into
-- the map; without an id it is closed and dropped.
unfoldable pub add_client : Client → Server → Run Server
add_client client server = do
  (id, server') ← generate_id server
  returns (elim id [
    | none ↦ server'
    | some new_id ↦ record server' {
      clients = put_client new_id (set_id new_id client) server'.clients;
    }
  ])

-- What the calls in a round of ListenConnections answer, and what the arrays of a new Client hold.
pub record Arrival : Type 0 where
  pub result : AcceptResult
  pub non_blocking : Bool
  pub frame_buf : List ℕ
  pub send_buf : List ℕ

abbrev pub enter : ℤ → Bool → Client → Server → Run Server
enter (pos n) non_blocking client server =
    if n == 0 then add_client (set_non_blocking non_blocking client) server else returns server
enter (negsuc n) non_blocking client server = returns server

-- A round of ListenConnections.
unfoldable pub listen_connections : Arrival → Server → Run Server
listen_connections arrival server =
    let (ret, client) = accept arrival.result (new_client arrival.frame_buf arrival.send_buf) in
    enter ret arrival.non_blocking client server

-- The end of ListenConnections: every client is disconnected, and the map cleared.
unfoldable pub disconnect_all : (ℕ → List Round) → Clients → Run Clients
disconnect_all rounds [] = returns []
disconnect_all rounds (entry ∷ clients) = do
  client ← disconnect (rounds entry.0) entry.1
  disconnect_all rounds clients
