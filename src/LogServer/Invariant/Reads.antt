-- ===== src/LogServer/Invariant/Reads.antt =====
-- log-server.cpp: what a round over the logs keeps.
use extension_project.Prelude.{
  All-weaken, ℕ, ◌≡◌, ◌∙◌, Bool, none, some, Option, List, [], ◌∷◌, arith, length,
}
use extension_project.WebSocket.Types.{returns, found}
use extension_project.WebSocket.Ensures.{Ensures, Ensures-bind, Ensures-then, Ensures-weaken}
use extension_project.Client.{Client, Round, send}
use extension_project.Client.Keeps.{SecondKeeps, send-Keeps}
use extension_project.Server.{Clients, has_client, put_client, get_client}
use extension_project.Server.Arrivals.{IsEntry, IsKept}
use extension_project.Server.Entries.{Within, get_client-All, put_client-IsKept, put_client-Within}
use extension_project.LogServer.Description.{LogDescription}
use extension_project.LogServer.Round.{Events, read_logs}
use extension_project.LogServer.Owners.{AllHold}
use extension_project.LogServer.Readers.{Reads, read_logs-Reads}
use extension_project.LogServer.Threads.{System, send_lines, read_round}
use extension_project.LogServer.Invariant.{Owned, IsSafe}

-- The clients behind the lines of a round: in order, with every id that was there.
record Serves (before after : Clients) : Type 0 where
  kept : IsKept after
  within : Within before after

found-some : (o : Option Client) (client : Client) → found o ≡ returns client → o ≡ some client
found-some none client e = absurd (cc e)
found-some (some it) client e = ground arith

send_lines-Serves :
    (rounds : ℕ → List Round) (lines : List (ℕ × List ℕ)) (clients : Clients)
    → IsKept clients
    → Ensures (Serves clients) (send_lines rounds lines clients)
unfolding send_lines
send_lines-Serves rounds [] clients kept = record { kept = kept; within = λ j h. h }
send_lines-Serves rounds ((id, line) ∷ lines) clients kept =
    Ensures-then (Serves clients) (found (get_client id clients)) _ (λ client e.
      let there : get_client id clients ≡ some client =
        found-some (get_client id clients) client e in
      let entry = get_client-All IsEntry id client clients kept.entries there in
      Ensures-bind (SecondKeeps client) (Serves clients) (send (rounds (length lines)) line client)
        _ (send-Keeps (rounds (length lines)) line client entry.valid)
        (λ p k.
          let clients' : Clients = put_client id p.1 clients in
          Ensures-weaken (Serves clients') (Serves clients)
            (λ after h. record {
              kept = h.kept;
              within = λ j g. h.within j (put_client-Within id p.1 clients j g);
            })
            _
            (send_lines-Serves rounds lines clients'
              (put_client-IsKept id p.1 clients (k.id ∙ entry.own_id) k.valid kept))))

pub Owned-Within :
    (before after : Clients) (leaving : Option ℕ) (logs : List LogDescription)
    → Within before after
    → AllHold (Owned before leaving) logs
    → AllHold (Owned after leaving) logs
Owned-Within before after leaving logs w h =
    All-weaken (λ log g. (w log.client_id g.0, g.1, g.2)) logs h

pub read_round-IsSafe :
    (ev : Events) (rounds : ℕ → List Round) (s : System)
    → IsSafe s
    → Ensures IsSafe (read_round ev rounds s)
unfolding read_round
read_round-IsSafe ev rounds s safe =
    let clients : Clients = s.server.clients in
    let present : ℕ → Bool = λ id. has_client id clients in
    let of : ℕ → List ℕ → Type 0 = Owned clients s.leaving in
    Ensures-bind (Reads of ev present s.logs.logs) IsSafe (read_logs ev present s.logs.logs) _
      (read_logs-Reads of ev present s.logs.logs safe.owned)
      (λ o d.
        Ensures-bind (Serves clients) IsSafe (send_lines rounds o.sent clients) _
          (send_lines-Serves rounds o.sent clients safe.kept)
          (λ after k. record {
            kept = k.kept;
            owned = Owned-Within clients after s.leaving o.logs k.within d.0;
          }))
