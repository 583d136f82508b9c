-- ===== src/Examples/Sessions.antt =====
-- A whole session, from the connection to the first line.
use extension_project.Prelude.{
  ◌≡◌, refl, [], ◌∷◌, true, false, some, codes, arith, find_text-none_iff,
}
use extension_project.WebSocket.Rfc.{client_frame, server_frame}
use extension_project.WebSocket.Request.{request_text, response_text}
use extension_project.WebSocket.Answer.Keys.{accept_of}
use extension_project.Client.{Client, got}
use extension_project.Server.{has_client, get_client}
use extension_project.LogServer.Names.{dots}
use extension_project.LogServer.Locks.{Machine, started}
use extension_project.LogServer.Locks.Moves.{Moves}
use extension_project.LogServer.Session.Whole.{Script, session-IsServed}
use extension_project.Examples.Data.{crypto, key, ready}
use extension_project.Examples.Requests.{resource, headers, resource-IsResource, headers-IsFine}
use extension_project.Examples.Servers.{arrival, arrival-Sized, quiet, events, add_web}

abbrev script : Script
script = record {
  ssl = record { has_context = true; cipher_list = 1; certificate_file = 1; private_key_file = 1 };
  arrival = arrival;
  socket = 7;
  resource = resource;
  headers = headers;
  key = codes "abc";
  asks = record quiet { read = got (request_text resource headers []); writes = ready ∷ [] };
  mask = key;
  file = codes "web";
  fd = 12;
  adds = record quiet { read = got (client_frame 1 key add_web) };
  events = events;
  writes = λ n. ready ∷ [];
  line = codes "a line";
}

session-IsServed_example :
    (m : Machine) × (client : Client) × Moves crypto false started m
    × (get_client 0 m.system.server.clients ≡ some client)
    × (client.sent
        ≡ response_text (accept_of crypto (codes "abc")) ∷ server_frame 1 (codes "a line") ∷ [])
unfolding extension_project.Client.write_rounds extension_project.Server.Startup.init_ssl
    extension_project.Server.Startup.listen_socket extension_project.Server.Startup.is_set_up
session-IsServed_example =
    session-IsServed crypto script refl arrival-Sized refl refl (omega arith) refl (omega arith)
      resource-IsResource headers-IsFine refl refl (omega arith) refl refl (omega arith)
      (omega arith, (omega arith, (omega arith, tt))) ((find_text-none_iff add_web dots).0 refl)
      refl (omega arith) (λ n. record { first = omega arith; retry = tt }) refl refl (λ n. refl)
