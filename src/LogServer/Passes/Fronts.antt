-- ===== src/LogServer/Passes/Fronts.antt =====
-- web_socket_server.cpp: the map of clients in front of and behind the one that a pass is at.
use extension_project.Prelude.{
  All-weaken, ℕ, ◌+◌, ◌<◌, ◌≤◌, ◌≡◌, refl, Bool, true, false, some, [], ◌∷◌, ◌++◌, arith,
  if◌then◌else◌, All, All-append, append_assoc,
}
use extension_project.Client.{Client}
use extension_project.Server.{Clients, put_client, get_client, erase_client}

abbrev pub AllBelow : ℕ → Clients → Type 0
AllBelow low front = All (λ entry. entry.0 < low) front

pub get_client-middle :
    (id : ℕ) (client : Client) (front rest : Clients)
    → AllBelow id front
    → get_client id (front ++ (id, client) ∷ rest) ≡ some client
unfolding get_client
get_client-middle id client [] rest h = ground arith
get_client-middle id client (entry ∷ front) rest h =
    ground (arith, get_client-middle id client front rest h.1)

pub put_client-middle :
    (id : ℕ) (client new : Client) (front rest : Clients)
    → AllBelow id front
    → put_client id new (front ++ (id, client) ∷ rest) ≡ front ++ (id, new) ∷ rest
unfolding put_client
put_client-middle id client new [] rest h = ground arith
put_client-middle id client new (entry ∷ front) rest h =
    ground (arith, put_client-middle id client new front rest h.1)

pub erase_client-middle :
    (id : ℕ) (client : Client) (front rest : Clients)
    → AllBelow id front
    → erase_client id (front ++ (id, client) ∷ rest) ≡ front ++ rest
unfolding erase_client
erase_client-middle id client [] rest h = ground arith
erase_client-middle id client (entry ∷ front) rest h =
    ground (arith, erase_client-middle id client front rest h.1)

abbrev pub entries_of : Bool → ℕ → Client → Clients → Clients
entries_of stays id client rest = if stays then (id, client) ∷ rest else rest

-- The entries in front of the next client.
abbrev pub entries_front : Bool → ℕ → Client → Clients → Clients
entries_front stays id client front = if stays then front ++ (id, client) ∷ [] else front

pub entries_front_lem :
    (stays : Bool) (id : ℕ) (client : Client) (front rest : Clients)
    → entries_front stays id client front ++ rest ≡ front ++ entries_of stays id client rest
entries_front_lem true id client front rest = append_assoc front ((id, client) ∷ []) rest
entries_front_lem false id client front rest = refl

pub AllBelow-weaken :
    (low high : ℕ) (front : Clients) → low ≤ high → AllBelow low front → AllBelow high front
AllBelow-weaken low high front h below = All-weaken (λ entry b. omega arith) front below

pub entries_front-AllBelow :
    (stays : Bool) (low id : ℕ) (client : Client) (front : Clients)
    → low ≤ id
    → AllBelow low front
    → AllBelow (id + 1) (entries_front stays id client front)
entries_front-AllBelow true low id client front h below =
    All-append front ((id, client) ∷ []) (λ entry. entry.0 < id + 1) (omega arith, tt)
      (AllBelow-weaken low (id + 1) front (omega arith) below)
entries_front-AllBelow false low id client front h below =
    AllBelow-weaken low (id + 1) front (omega arith) below
