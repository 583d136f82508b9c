-- ===== src/LogServer/Locks/Visits.antt =====
-- web_socket_server.cpp: the iteration of ListenMessages over the map, between the moves of the others.
use extension_project.Prelude.{
  ℕ, ◌+◌, ◌≤◌, ◌<◌, ◌≡◌, ◌∙◌, Bool, true, List, [], ◌∷◌, length, arith, All, All-weaken,
}
use extension_project.WebSocket.Types.{found}
use extension_project.WebSocket.Ensures.{Ensures, Ensures-bind, Ensures-then, Ensures-weaken}
use extension_project.WebSocket.Answer.{Crypto}
use extension_project.Client.{
  Client, Code, read_succeed, read_succeed_data_available, handshake_succeed, waiting_for_more_data,
  Round, send,
}
use extension_project.Client.Receive.{receive}
use extension_project.Server.{Clients, has_client, get_client, put_client, erase_client}
use extension_project.Server.Arrivals.{Rising}
use extension_project.Server.Entries.{Within, put_client-Within, has_client-erase_client}
use extension_project.Server.Messages.{Turn, remains, react, message_len}
use extension_project.LogServer.Requests.{Answers}
use extension_project.LogServer.Round.{Events, read_logs}
use extension_project.LogServer.Threads.{System, log_handler, talk, send_lines, read_round}
use extension_project.LogServer.Locks.{
  Machine, MessagesPoint, passing, serving, erasing, ids, behind_round,
}

-- The clients that a pass still comes to.
abbrev pub to_visit : MessagesPoint → List ℕ
to_visit (passing reported more) = more
to_visit (serving reported id more) = id ∷ more
to_visit (erasing reported id more) = id ∷ more
to_visit _ = []

abbrev pub RisingIds : ℕ → List ℕ → Type 0
RisingIds low [] = Unit
RisingIds low (id ∷ more) = (low ≤ id) × RisingIds (id + 1) more

abbrev pub IsIn : Clients → ℕ → Type 0
IsIn clients id = has_client id clients ≡ true

pub ids-RisingIds : (low : ℕ) (clients : Clients) → Rising low clients → RisingIds low (ids clients)
ids-RisingIds low [] r = tt
ids-RisingIds low (entry ∷ clients) r = (r.0, ids-RisingIds (entry.0 + 1) clients r.1)

pub ids-IsIn : (clients : Clients) → All (IsIn clients) (ids clients)
unfolding has_client
ids-IsIn [] = tt
ids-IsIn (entry ∷ clients) =
    (ground arith, All-weaken (λ id h. ground arith) (ids clients) (ids-IsIn clients))

RisingIds-weaken :
    (low high : ℕ) (more : List ℕ) → low ≤ high → RisingIds high more → RisingIds low more
RisingIds-weaken low high [] h r = tt
RisingIds-weaken low high (id ∷ more) h r = (omega (arith, r.0), r.1)

-- The others stay when one is taken out.
erase_client-IsIn :
    (id low : ℕ) (clients : Clients) (more : List ℕ)
    → id < low
    → RisingIds low more
    → All (IsIn clients) more
    → All (IsIn (erase_client id clients)) more
erase_client-IsIn id low clients [] h r all = tt
erase_client-IsIn id low clients (j ∷ more) h r all = (
  has_client-erase_client j id clients (λ same. omega (arith, h, r.0, same)) ∙ all.0,
  erase_client-IsIn id (j + 1) clients more (omega (arith, r.0)) r.1 all.1,
)

pub record Visits (clients : Clients) (more : List ℕ) : Type 0 where
  pub there : All (IsIn clients) more
  pub rising : RisingIds 0 more

abbrev pub AllVisits : Machine → Type 0
AllVisits m = Visits m.system.server.clients (to_visit m.messages)

pub Visits-Within :
    (before after : Clients) (more : List ℕ)
    → Within before after
    → Visits before more
    → Visits after more
Visits-Within before after more w f = record {
  there = All-weaken (λ id h. w id h) more f.there;
  rising = f.rising;
}

pub Visits-tail :
    (clients : Clients) (id : ℕ) (more : List ℕ) → Visits clients (id ∷ more) → Visits clients more
Visits-tail clients id more f = record {
  there = f.there.1;
  rising = RisingIds-weaken 0 (id + 1) more (omega arith) f.rising.1;
}

pub Visits-erase_client :
    (clients : Clients) (id : ℕ) (more : List ℕ)
    → Visits clients (id ∷ more)
    → Visits (erase_client id clients) more
Visits-erase_client clients id more f = record {
  there = erase_client-IsIn id (id + 1) clients more (omega arith) f.rising.1 f.there.1;
  rising = RisingIds-weaken 0 (id + 1) more (omega arith) f.rising.1;
}

pub none-Visits : (clients : Clients) → Visits clients []
none-Visits clients = record { there = tt; rising = tt }

pub behind_round-Visits :
    (clients : Clients) (reported : ℕ → Bool) (id : ℕ) (more : List ℕ) (code : Code)
    → Visits clients (id ∷ more)
    → Visits clients (to_visit (behind_round reported id more code))
behind_round-Visits clients reported id more read_succeed f = Visits-tail clients id more f
behind_round-Visits clients reported id more waiting_for_more_data f = Visits-tail clients id more f
behind_round-Visits clients reported id more read_succeed_data_available f = f
behind_round-Visits clients reported id more handshake_succeed f = f
behind_round-Visits clients reported id more _ f = f

pub talk-Within :
    (c : Crypto) (turn : Turn Answers) (id : ℕ) (client : Client) (s : System)
    → Ensures (λ (s' : System). Within s.server.clients s'.server.clients) (talk c turn id client s)
unfolding talk
talk-Within c turn id client s =
    let holds : System → Type 0 = λ (s' : System). Within s.server.clients s'.server.clients in
    Ensures-then holds (receive c turn.read turn.writes message_len client) _ (λ r _.
      Ensures-then holds (react log_handler turn remains r.code r s.logs) _
        (λ v _. put_client-Within id v.client s.server.clients))

send_lines-Within :
    (rounds : ℕ → List Round) (lines : List (ℕ × List ℕ)) (clients : Clients)
    → Ensures (Within clients) (send_lines rounds lines clients)
unfolding send_lines
send_lines-Within rounds [] clients = λ j h. h
send_lines-Within rounds ((id, line) ∷ lines) clients =
    Ensures-then (Within clients) (found (get_client id clients)) _ (λ client _.
      Ensures-then (Within clients) (send (rounds (length lines)) line client) _ (λ p _.
        Ensures-weaken (Within (put_client id p.1 clients)) (Within clients)
          (λ after w. (λ j h. w j (put_client-Within id p.1 clients j h))) _
          (send_lines-Within rounds lines (put_client id p.1 clients))))

pub read_round-Within :
    (ev : Events) (rounds : ℕ → List Round) (s : System)
    → Ensures (λ (s' : System). Within s.server.clients s'.server.clients) (read_round ev rounds s)
unfolding read_round
read_round-Within ev rounds s =
    let holds : System → Type 0 = λ (s' : System). Within s.server.clients s'.server.clients in
    Ensures-then holds (read_logs ev (λ id. has_client id s.server.clients) s.logs.logs) _ (λ o _.
      Ensures-bind (Within s.server.clients) holds (send_lines rounds o.sent s.server.clients) _
        (send_lines-Within rounds o.sent s.server.clients) (λ after w. w))
