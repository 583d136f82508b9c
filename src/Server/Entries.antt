-- ===== src/Server/Entries.antt =====
-- web_socket_server.cpp: what the map of clients keeps as entries are put in, replaced and taken out.
use extension_project.Prelude.{
  ℕ, ◌+◌, ◌≤◌, ◌≡◌, ◌≢◌, refl, ◌∙◌, inl, inr, Bool, true, false, none, some, Option, [], ◌∷◌, arith,
  ◌==◌, All, Bool-cases, ℤ, pos, negsuc,
}
use extension_project.WebSocket.Ensures.{Ensures, Ensures-bind, Ensures-then, Ensures-if}
use extension_project.Client.{Client, new_client, set_id, close_socket}
use extension_project.Client.Buffer.{IsValid}
use extension_project.Client.Connect.{
  AcceptResult, no_socket, no_connection, no_descriptor, no_tls, connected, accept,
  set_non_blocking,
}
use extension_project.Server.{
  Clients, Server, int_max, has_client, put_client, get_client, erase_client, free_id, generate_id,
  add_client, enter, Arrival, listen_connections,
}
use extension_project.Server.Arrivals.{
  Rising, IsEntry, IsKept, put_client-Rising, put_client-All, has_client-put_client, Sized,
}

-- What is found is an entry, under the id that was looked for.
pub get_client-All {ℓ} :
    (holds : ℕ × Client → Type ℓ) (id : ℕ) (client : Client) (clients : Clients)
    → All holds clients
    → get_client id clients ≡ some client
    → holds (id, client)
unfolding get_client
get_client-All holds id client [] h e = absurd (cc e)
get_client-All holds id client ((key, it) ∷ clients) h e = elim (Bool-cases (key == id)) [
  | inl same ↦
      let k : key ≡ id = ground arith in let c : it ≡ client = ground arith in rw (k, c) at h.0
  | inr other ↦ get_client-All holds id client clients h.1 (rw other at e)
]

pub get_client-has_client :
    (id : ℕ) (client : Client) (clients : Clients)
    → get_client id clients ≡ some client
    → has_client id clients ≡ true
unfolding get_client has_client
get_client-has_client id client [] e = absurd (cc e)
get_client-has_client id client (entry ∷ clients) e =
    ground (arith, get_client-has_client id client clients)

-- Every id that was there is there.
abbrev pub Within : Clients → Clients → Type 0
Within before after = (j : ℕ) → has_client j before ≡ true → has_client j after ≡ true

-- An entry is put in or replaced.
pub put_client-IsKept :
    (id : ℕ) (client : Client) (clients : Clients)
    → client.id ≡ some id
    → IsValid client
    → IsKept clients
    → IsKept (put_client id client clients)
put_client-IsKept id client clients own valid kept = record {
  rising = put_client-Rising 0 id client clients (omega arith) kept.rising;
  entries =
      put_client-All IsEntry id client clients (record { own_id = own; valid = valid })
        kept.entries;
}

pub put_client-Within :
    (id : ℕ) (client : Client) (clients : Clients) → Within clients (put_client id client clients)
put_client-Within id client clients j h = has_client-put_client j id client clients ∙ ground arith

Rising-weaken :
    (low high : ℕ) (clients : Clients) → low ≤ high → Rising high clients → Rising low clients
Rising-weaken low high [] h r = tt
Rising-weaken low high (entry ∷ clients) h r = (omega arith, r.1)

erase_client-Rising :
    (low id : ℕ) (clients : Clients) → Rising low clients → Rising low (erase_client id clients)
unfolding erase_client
erase_client-Rising low id [] r = tt
erase_client-Rising low id (entry ∷ clients) r = elim (Bool-cases (entry.0 == id)) [
  | inl same ↦ rw same (Rising-weaken low (entry.0 + 1) clients (omega arith) r.1)
  | inr other ↦ rw other (r.0, erase_client-Rising (entry.0 + 1) id clients r.1)
]

erase_client-All {ℓ} :
    (holds : ℕ × Client → Type ℓ) (id : ℕ) (clients : Clients)
    → All holds clients
    → All holds (erase_client id clients)
unfolding erase_client
erase_client-All holds id [] h = tt
erase_client-All holds id (entry ∷ clients) h = elim (Bool-cases (entry.0 == id)) [
  | inl same ↦ rw same h.1
  | inr other ↦ rw other (h.0, erase_client-All holds id clients h.1)
]

pub erase_client-IsKept :
    (id : ℕ) (clients : Clients) → IsKept clients → IsKept (erase_client id clients)
erase_client-IsKept id clients kept = record {
  rising = erase_client-Rising 0 id clients kept.rising;
  entries = erase_client-All IsEntry id clients kept.entries;
}

-- Every other id stays.
pub has_client-erase_client :
    (j id : ℕ) (clients : Clients)
    → j ≢ id
    → has_client j (erase_client id clients) ≡ has_client j clients
unfolding erase_client has_client
has_client-erase_client j id [] ne = refl
has_client-erase_client j id (entry ∷ clients) ne =
    ground (arith, has_client-erase_client j id clients ne)

-- What a round of ListenConnections leaves: a map in order, with every id that was there.
pub record Grows (before after : Server) : Type 0 where
  pub kept : IsKept after.clients
  pub within : Within before.clients after.clients

abbrev pub SameClients : Server → Option ℕ × Server → Type 0
SameClients server p = p.1.clients ≡ server.clients

pub generate_id-clients : (server : Server) → Ensures (SameClients server) (generate_id server)
unfolding generate_id
generate_id-clients server =
    Ensures-then (SameClients server) (free_id int_max server.id_counter server.clients) _
      (λ id _. chosen id)
  where
    chosen :
        (id : Option ℕ)
        → SameClients server
            (id, elim id [ none ↦ server | some new_id ↦ record server { id_counter = new_id } ])
    chosen none = refl
    chosen (some id) = refl

add_client-Grows :
    (client : Client) (server : Server)
    → IsValid client
    → IsKept server.clients
    → Ensures (Grows server) (add_client client server)
unfolding add_client set_id
add_client-Grows client server valid kept =
    Ensures-bind (SameClients server) (Grows server) (generate_id server) _
      (generate_id-clients server) (λ p same. added p.0 p.1 same)
  where
    added :
        (id : Option ℕ) (server' : Server)
        → server'.clients ≡ server.clients
        → Grows server (elim id [
          | none ↦ server'
          | some new_id ↦ record server' {
            clients = put_client new_id (set_id new_id client) server'.clients;
          }
        ])
    added none server' same = record { kept = rw same kept; within = λ j h. rw same h }
    added (some id) server' same = record {
      kept =
          put_client-IsKept id (set_id id client) server'.clients refl
            (record {
              frame_size = valid.frame_size;
              send_size = valid.send_size;
              within = valid.within;
            })
            (rw same kept);
      within = λ j h. put_client-Within id (set_id id client) server'.clients j (rw same h);
    }

enter-Grows :
    (ret : ℤ) (non_blocking : Bool) (client : Client) (server : Server)
    → IsValid client
    → IsKept server.clients
    → Ensures (Grows server) (enter ret non_blocking client server)
unfolding set_non_blocking close_socket
enter-Grows (negsuc n) non_blocking client server valid kept = record {
  kept = kept;
  within = λ j h. h;
}
enter-Grows (pos n) true client server valid kept =
    Ensures-if (Grows server) (n == 0) _ _ (λ _. add_client-Grows client server valid kept)
      (λ _. record { kept = kept; within = λ j h. h })
enter-Grows (pos n) false client server valid kept =
    Ensures-if (Grows server) (n == 0) _ _
      (λ _.
        add_client-Grows (close_socket client) server
          (record {
            frame_size = valid.frame_size;
            send_size = valid.send_size;
            within = valid.within;
          })
          kept)
      (λ _. record { kept = kept; within = λ j h. h })

accept-IsValid :
    (result : AcceptResult) (client : Client) → IsValid client → IsValid (accept result client).1
unfolding accept
accept-IsValid no_socket client v = record {
  frame_size = v.frame_size;
  send_size = v.send_size;
  within = v.within;
}
accept-IsValid (no_connection fd) client v = record {
  frame_size = v.frame_size;
  send_size = v.send_size;
  within = v.within;
}
accept-IsValid (no_descriptor fd) client v = record {
  frame_size = v.frame_size;
  send_size = v.send_size;
  within = v.within;
}
accept-IsValid (no_tls fd) client v = record {
  frame_size = v.frame_size;
  send_size = v.send_size;
  within = v.within;
}
accept-IsValid (connected fd) client v = record {
  frame_size = v.frame_size;
  send_size = v.send_size;
  within = v.within;
}

new_client-IsValid :
    (arrival : Arrival) → Sized arrival → IsValid (new_client arrival.frame_buf arrival.send_buf)
unfolding new_client
new_client-IsValid arrival sized = record {
  frame_size = sized.frame_size;
  send_size = sized.send_size;
  within = omega arith;
}

pub listen_connections-Grows :
    (arrival : Arrival) (server : Server)
    → Sized arrival
    → IsKept server.clients
    → Ensures (Grows server) (listen_connections arrival server)
unfolding listen_connections
listen_connections-Grows arrival server sized kept =
    let client : Client = new_client arrival.frame_buf arrival.send_buf in
    enter-Grows (accept arrival.result client).0 arrival.non_blocking
      (accept arrival.result client).1 server
      (accept-IsValid arrival.result client (new_client-IsValid arrival sized)) kept
