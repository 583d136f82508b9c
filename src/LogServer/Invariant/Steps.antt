-- ===== src/LogServer/Invariant/Steps.antt =====
-- log-server.cpp and web_socket_server.cpp: what is so in every state that the three threads reach.
use extension_project.Prelude.{
  All-weaken, ℕ, ◌+◌, ◌<◌, ◌≡◌, refl, ◌∙◌, sym, ap, subst, inl, inr, true, false, none, some,
  Option, List, [], ◌∷◌, arith, ◌==◌, Bool-cases, length,
}
use extension_project.WebSocket.Types.{returns}
use extension_project.WebSocket.Ensures.{Ensures-returns}
use extension_project.WebSocket.Answer.{Crypto}
use extension_project.Client.Connect.{connected}
use extension_project.Server.{
  Clients, Server, int_max, has_client, get_client, erase_client, Arrival, listen_connections,
}
use extension_project.Server.Arrivals.{Sized}
use extension_project.Server.Arrivals.Newcomers.{newcomer, listen_connections-IsAdded}
use extension_project.Server.Entries.{
  Grows, erase_client-IsKept, has_client-erase_client, listen_connections-Grows,
}
use extension_project.LogServer.Description.{LogDescription}
use extension_project.LogServer.Owners.{AllHold}
use extension_project.LogServer.Effects.{of_client}
use extension_project.LogServer.Threads.{
  System, start, talk, read_round, Step, arrives, talks, leaves, reads, Reach, here, next,
}
use extension_project.LogServer.Invariant.{Owned, IsSafe}
use extension_project.LogServer.Invariant.Talks.{talk-IsSafe}
use extension_project.LogServer.Invariant.Reads.{Owned-Within, read_round-IsSafe}

-- A client that is taken out follows no log.
Owned-erase_client :
    (clients : Clients) (id : ℕ) (logs : List LogDescription)
    → AllHold (Owned clients (some id)) logs
    → AllHold (Owned (erase_client id clients) none) logs
Owned-erase_client clients id logs h =
    All-weaken
      (λ log g. (
        has_client-erase_client log.client_id id clients (λ same. g.2 (ap some (sym same))) ∙ g.0,
        g.1,
        (λ e. cc e),
      ))
      logs h

Step-IsSafe : {c : Crypto} {s t : System} → Step c s t → IsSafe s → IsSafe t
Step-IsSafe (arrives {s = s} {server = server} arrival sized none_leaves is_server) safe =
    let grows =
      Ensures-returns (Grows s.server) (listen_connections arrival s.server) server
        (listen_connections-Grows arrival s.server sized safe.kept) is_server in
    record {
      kept = grows.kept;
      owned =
          Owned-Within s.server.clients server.clients s.leaving s.logs.logs grows.within
            safe.owned;
    }
Step-IsSafe {c} (talks {s = s} {s' = s'} turn id client none_leaves there fits is_s') safe =
    Ensures-returns IsSafe (talk c turn id client s) s'
      (talk-IsSafe c turn id client s safe none_leaves there fits) is_s'
Step-IsSafe (leaves {s = s} id is_leaving) safe = record {
  kept = erase_client-IsKept id s.server.clients safe.kept;
  owned = Owned-erase_client s.server.clients id s.logs.logs (
      subst (λ leaving. AllHold (Owned s.server.clients leaving) s.logs.logs) is_leaving
        safe.owned);
}
Step-IsSafe (reads {s = s} {s' = s'} ev rounds is_s') safe =
    Ensures-returns IsSafe (read_round ev rounds s) s' (read_round-IsSafe ev rounds s safe) is_s'

-- In every state that the threads reach from the start, in any order of their steps and whatever
-- comes in, the ids of the map rise and are those of their clients, whose buffers are whole; and
-- every log belongs to a client who is in the map and is not about to be taken out, and has no ".."
-- in its name. SSL_read is taken to give no more bytes than it is asked for. A call that ends the
-- process or writes out of its block is no step, and no state stands behind it.
pub Reach-IsSafe : (c : Crypto) {s : System} → Reach c start s → IsSafe s
Reach-IsSafe c here = record { kept = record { rising = tt; entries = tt }; owned = tt }
Reach-IsSafe c (next r step) = Step-IsSafe step (Reach-IsSafe c r)

pub unfollowed :
    (clients : Clients) (leaving : Option ℕ) (id : ℕ) (logs : List LogDescription)
    → has_client id clients ≡ false
    → AllHold (Owned clients leaving) logs
    → of_client id logs ≡ []
unfollowed clients leaving id [] free h = refl
unfollowed clients leaving id (log ∷ logs) free h = elim (Bool-cases (log.client_id == id)) [
  | inl same ↦ let e : log.client_id ≡ id = ground arith in absurd (cc (rw e at h.0.0, free))
  | inr other ↦ rw other (unfollowed clients leaving id logs free h.1)
]

-- A client that comes in gets an id under which no log is followed: it cannot be sent lines that
-- another client, who had the id before, has asked for. The state is one that the threads reach, the
-- arrays of the new client have their sizes, and the counter is in range.
pub newcomer-follows_nothing :
    (c : Crypto) (s : System) (arrival : Arrival) (fd : ℕ)
    → Reach c start s
    → Sized arrival
    → s.server.id_counter + length s.server.clients < int_max
    → arrival.result ≡ connected fd
    → arrival.non_blocking ≡ true
    → (id : ℕ) × (server' : Server) × (listen_connections arrival s.server ≡ returns server')
      × (get_client id server'.clients ≡ some (newcomer id fd arrival))
      × (of_client id s.logs.logs ≡ [])
newcomer-follows_nothing c s arrival fd r sized room is_connected plain =
    let safe = Reach-IsSafe c r in
    let (id, server', is_added, first, added) =
      (listen_connections-IsAdded arrival s.server safe.kept sized room).0 fd is_connected plain in
    (
      id,
      server',
      is_added,
      added.found_there,
      unfollowed s.server.clients s.leaving id s.logs.logs first.free safe.owned,
    )
