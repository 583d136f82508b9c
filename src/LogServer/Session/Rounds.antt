-- ===== src/LogServer/Session/Rounds.antt =====
-- web_socket_server.cpp and log-server.cpp: a round of ListenMessages over a client that stays, and a pass
-- of Run, as moves of the threads.
use extension_project.Prelude.{
  ℕ, ◌≡◌, ◌≢◌, refl, Bool, true, false, none, some, List, [], subst, length,
}
use extension_project.WebSocket.Types.{returns}
use extension_project.WebSocket.Answer.{Crypto}
use extension_project.Client.{Client, Code, Round}
use extension_project.Server.{get_client}
use extension_project.Server.Messages.{Turn}
use extension_project.LogServer.Requests.{Answers, Cleaned}
use extension_project.LogServer.Round.{Events, fill_logs, filled_set, reported, behind_select}
use extension_project.LogServer.Threads.{System, read_round}
use extension_project.LogServer.Session.{Served, talked}
use extension_project.LogServer.Locks.{
  Machine, ReaderPoint, started, serving, reader, done, signal_reader, tells, behind_round,
}
use extension_project.LogServer.Locks.Moves.{
  Moves, one_more, by_messages, by_reader, locks, begins, enters, finds_some, fills, selects,
  serves, reads,
}

-- The set in which `select` reports every client.
abbrev pub all_reported : ℕ → Bool
all_reported fd = true

-- A round of ListenMessages over the client 0, and what it tells the other thread.
pub serve-Moves :
    (c : Crypto) (m : Machine) (turn : Turn Answers) (client : Client) (code : Code)
    (logs : Cleaned) (sent : List (List ℕ))
    (served : Served c 0 turn m.system client code logs sent)
    → m.messages ≡ serving all_reported 0 []
    → m.logs_lock ≡ none
    → get_client 0 m.system.server.clients ≡ some client
    → Moves c false started m
    → Moves c false started (record m {
      messages = behind_round all_reported 0 [] code;
      system = talked 0 served.received.client logs m.system;
      reader = signal_reader (tells (length m.system.logs.logs) (length logs.logs)) m.reader;
    })
serve-Moves c m turn client code logs sent served at free there moves =
    subst
      (λ code. Moves c false started (record m {
        messages = behind_round all_reported 0 [] code;
        system = talked 0 served.received.client logs m.system;
        reader = signal_reader (tells (length m.system.logs.logs) (length logs.logs)) m.reader;
      }))
      served.returned
      (one_more moves (
        by_messages (
          serves all_reported 0 [] client turn served.received at there served.fits
            served.is_received (λ _. free) served.is_talked)))

-- A pass of Run, from the head of its loop to the end of the round over the logs.
pub read-Moves :
    (c : Crypto) (m : Machine) (nfds : ℕ) (ev : Events) (rounds : ℕ → List Round) (s' : System)
    → m.reader ≡ ReaderPoint.looping
    → m.stop ≡ false
    → m.logs_lock ≡ none
    → m.system.logs.logs ≢ []
    → fill_logs 0 m.system.logs.logs ≡ returns nfds
    → read_round ev rounds m.system ≡ returns s'
    → Moves c false started m
    → Moves c false started (record m { reader = done; system = s'; logs_lock = some reader })
unfolding behind_select
read-Moves c m nfds ev rounds s' at going free some_logs filled is_read moves =
    let sets : (ℕ → Bool) × (ℕ → Bool) = (ev.readable, ev.exceptional) in
    one_more
      (one_more
        (one_more
          (one_more
            (one_more
              (one_more (one_more moves (by_reader (begins at going)))
                (by_reader (enters refl free)))
              (by_reader (finds_some refl some_logs)))
            (by_reader (fills nfds refl filled)))
          (by_reader (
            selects (reported ev.readable ev.exceptional) (filled_set m.system.logs.logs) sets refl
              refl)))
        (by_reader (locks sets refl refl)))
      (by_reader (reads sets ev rounds refl refl is_read))
