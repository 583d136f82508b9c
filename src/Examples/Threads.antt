-- ===== src/Examples/Threads.antt =====
-- The threads with their locks, and the start and the failures of the calls around them.
use extension_project.Prelude.{All, ℕ, ◌≡◌, refl, Bool, [], ◌∷◌, true, false, some, codes}
use extension_project.WebSocket.Types.{returns}
use extension_project.Server.{disconnect_all}
use extension_project.Server.Startup.{SslResults}
use extension_project.LogServer.Round.{Events, Outcome, read_logs, filled_set}
use extension_project.LogServer.Select.{failed_select-dropped}
use extension_project.LogServer.Threads.{start, Reach}
use extension_project.LogServer.Locks.{
  messages, connections, Machine, ConnectionsPoint, MessagesPoint, closing, added, started, passing,
}
use extension_project.LogServer.Locks.Moves.{
  Moves, none_yet, one_more, by_connections, by_messages, sets_up, accepts_next, accepts, locks,
  adds, begins, enters, waits, locks_last, clears, ends, unlocks, enters_again, fills, selects,
}
use extension_project.LogServer.Locks.Owner.{IsOrdered, Moves-IsOrdered}
use extension_project.LogServer.Locks.Deadlock.{GoesOn, Moves-GoesOn}
use extension_project.LogServer.Locks.Refine.{Moves-Reach}
use extension_project.LogServer.Locks.Pass.{IsFound, Moves-IsFound}
use extension_project.LogServer.Locks.Stuck.{Moves-waiting}
use extension_project.Examples.Data.{crypto}
use extension_project.Examples.Servers.{arrival, arrival-Sized, first, web_log, events}

abbrev all_well : SslResults
all_well = record {
  has_context = true;
  cipher_list = 1;
  certificate_file = 1;
  private_key_file = 1;
}

-- ListenMessages waits, and ListenConnections adds the first client.
abbrev adding_first : Machine
adding_first = record started {
  system = first;
  clients_lock = some connections;
  connections = added;
  messages = MessagesPoint.woken;
}

adding_first-Moves : Moves crypto false started adding_first
unfolding extension_project.Server.listen_connections extension_project.Client.Connect.accept
    extension_project.Client.Connect.set_non_blocking extension_project.Client.new_client
    extension_project.Server.add_client extension_project.Server.generate_id
    extension_project.Server.free_id extension_project.Server.put_client
    extension_project.Client.set_id extension_project.Server.has_client
    extension_project.Server.Startup.is_set_up
adding_first-Moves =
    one_more
      (one_more
        (one_more
          (one_more
            (one_more
              (one_more
                (one_more
                  (one_more none_yet (by_connections (sets_up all_well true true refl refl)))
                  (by_messages (begins refl refl)))
                (by_messages (enters refl refl)))
              (by_messages (waits refl refl)))
            (by_connections (accepts_next refl refl)))
          (by_connections (accepts arrival 7 refl refl)))
        (by_connections (locks arrival refl refl)))
      (by_connections (adds arrival refl arrival-Sized refl))

Moves-IsOrdered_example : IsOrdered adding_first
Moves-IsOrdered_example = Moves-IsOrdered crypto false adding_first-Moves

Moves-GoesOn_example : GoesOn adding_first
Moves-GoesOn_example = Moves-GoesOn crypto false adding_first messages adding_first-Moves refl

Moves-Reach_example : Reach crypto start first
Moves-Reach_example = Moves-Reach crypto false adding_first adding_first-Moves refl

-- ListenMessages comes to that client.
abbrev passing_first : Machine
passing_first = record adding_first {
  clients_lock = some messages;
  connections = ConnectionsPoint.looping;
  messages = passing (λ fd. true) (0 ∷ []);
}

passing_first-Moves : Moves crypto false started passing_first
unfolding extension_project.Server.Messages.fill_set
passing_first-Moves =
    one_more
      (one_more
        (one_more
          (one_more (one_more adding_first-Moves (by_connections (unlocks refl)))
            (by_messages (enters_again refl refl)))
          (by_messages (fills 8 refl refl)))
        (by_messages (selects (λ fd. true) refl)))
      (by_messages (locks (λ fd. true) refl refl))

Moves-IsFound_example : All (IsFound passing_first.system.server.clients) (0 ∷ [])
Moves-IsFound_example = Moves-IsFound crypto false passing_first passing_first-Moves refl

-- Stop has been called, and no client has come.
abbrev stopped : Machine
stopped = record started { stop = true; connections = closing; messages = MessagesPoint.waiting }

abbrev left_alone : Machine
left_alone = record stopped { connections = ConnectionsPoint.ended }

left_alone-Moves : Moves crypto false stopped left_alone
unfolding disconnect_all
left_alone-Moves =
    one_more
      (one_more (one_more none_yet (by_connections (locks_last refl refl)))
        (by_connections (clears (λ id. []) refl refl)))
      (by_connections (ends refl))

Moves-waiting_example : left_alone.messages ≡ MessagesPoint.waiting
Moves-waiting_example = Moves-waiting crypto stopped left_alone refl refl left_alone-Moves

abbrev filled : ℕ → Bool
filled = filled_set (web_log ∷ [])

abbrev failing : Events
failing = record events { readable = filled; exceptional = filled }

failed_select-dropped_example :
    (o : Outcome) × (read_logs failing (λ id. true) (web_log ∷ []) ≡ returns o) × (o.logs ≡ [])
unfolding extension_project.LogServer.Round.behind_select
failed_select-dropped_example =
    failed_select-dropped failing (λ id. true) (web_log ∷ []) (refl, tt)
      ((codes "a line", refl), tt) refl
