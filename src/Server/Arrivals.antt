-- ===== src/Server/Arrivals.antt =====
-- web_socket_server.cpp: the map of clients, its order, and what stands in it.
pub mod Newcomers
use extension_project.Prelude.{
  ℕ, zero, suc, ◌+◌, ◌≤◌, ◌<◌, ◌≡◌, ◌≢◌, refl, ◌∙◌, ap, inl, inr, true, false, none, some, List, [],
  ◌∷◌, arith, ltb, ◌==◌, if◌then◌else◌, length, Bool-cases, Option-cases, All, Option, ◌||◌, pos,
  negsuc, replicate,
}
use extension_project.WebSocket.Types.{Run, returns, corrupts, ◌>>=◌}
use extension_project.Client.{Client, new_client, set_id, close_socket, buf_len, send_buf_len}
use extension_project.Client.Buffer.{IsValid}
use extension_project.Client.Connect.{
  AcceptResult, no_socket, no_connection, no_descriptor, no_tls, connected, accept,
  set_non_blocking,
}
use extension_project.Server.{
  Clients, Server, int_max, has_client, put_client, get_client, generate_id, add_client, Arrival,
  listen_connections,
}
use extension_project.Server.Messages.{fill_set}
use extension_project.Server.Ids.{IsFirstFree, generate_id-IsFirstFree}

-- The keys rise, from `low` on.
abbrev pub Rising : ℕ → Clients → Type 0
Rising low [] = Unit
Rising low (entry ∷ clients) = (low ≤ entry.0) × Rising (entry.0 + 1) clients

-- The arrays of a Client have their sizes.
pub record Sized (arrival : Arrival) : Type 0 where
  pub frame_size : length arrival.frame_buf ≡ buf_len + 1
  pub send_size : length arrival.send_buf ≡ send_buf_len + 1

-- A client stands under its own id, and its buffers are whole.
pub record IsEntry (entry : ℕ × Client) : Type 0 where
  pub own_id : entry.1.id ≡ some entry.0
  pub valid : IsValid entry.1

pub record IsKept (clients : Clients) : Type 0 where
  pub rising : Rising 0 clients
  pub entries : All IsEntry clients

pub put_client-Rising :
    (low id : ℕ) (client : Client) (clients : Clients)
    → low ≤ id
    → Rising low clients
    → Rising low (put_client id client clients)
unfolding put_client
put_client-Rising low id client [] h r = (h, tt)
put_client-Rising low id client (entry ∷ clients) h r = elim (Bool-cases (ltb id entry.0)) [
  | inl before ↦ rw before (h, (ground arith, r.1))
  | inr behind ↦ elim (Bool-cases (entry.0 == id)) [
    | inl same ↦ let e : entry.0 ≡ id = ground arith in rw (behind, same) (h, (rw e at r.1))
    | inr other ↦
        rw (behind, other)
          (r.0, put_client-Rising (entry.0 + 1) id client clients (ground arith) r.1)
  ]
]

pub put_client-All {ℓ} :
    (holds : ℕ × Client → Type ℓ) (id : ℕ) (client : Client) (clients : Clients)
    → holds (id, client)
    → All holds clients
    → All holds (put_client id client clients)
unfolding put_client
put_client-All holds id client [] new old = (new, tt)
put_client-All holds id client (entry ∷ clients) new old = elim (Bool-cases (ltb id entry.0)) [
  | inl before ↦ rw before (new, old)
  | inr behind ↦ elim (Bool-cases (entry.0 == id)) [
    | inl same ↦ rw (behind, same) (new, old.1)
    | inr other ↦ rw (behind, other) (old.0, put_client-All holds id client clients new old.1)
  ]
]

-- What is looked up behind `clients[id] = client`.
pub get_client-put_client :
    (j id : ℕ) (client : Client) (clients : Clients)
    → get_client j (put_client id client clients)
      ≡ (if id == j then some client else get_client j clients)
unfolding get_client put_client
get_client-put_client j id client [] = refl
get_client-put_client j id client (entry ∷ clients) =
    ground (arith, get_client-put_client j id client clients)

pub has_client-put_client :
    (j id : ℕ) (client : Client) (clients : Clients)
    → has_client j (put_client id client clients) ≡ (id == j || has_client j clients)
unfolding has_client put_client
has_client-put_client j id client [] = refl
has_client-put_client j id client (entry ∷ clients) =
    ground (arith, has_client-put_client j id client clients)
