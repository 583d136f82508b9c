-- ===== src/Server/Ids.antt =====
-- web_socket_server.cpp: GenerateID, and the ids that the map of clients leaves free.
use extension_project.Prelude.{
  ℕ, zero, suc, ◌+◌, ◌≤◌, ◌<◌, ◌≡◌, refl, inl, inr, true, false, some, [], ◌∷◌, arith, ltb, leb,
  ◌==◌, if◌then◌else◌, length, le→ltb_false, Bool-cases,
}
use extension_project.WebSocket.Types.{returns}
use extension_project.Server.{Clients, Server, int_max, has_client, free_id, generate_id}

-- How many ids of the map are not below `id`.
abbrev count_from : ℕ → Clients → ℕ
count_from id [] = 0
count_from id (entry ∷ clients) = (if leb id entry.0 then 1 else 0) + count_from id clients

count_from-le-length : (id : ℕ) (clients : Clients) → count_from id clients ≤ length clients
count_from-le-length id [] = omega arith
count_from-le-length id (entry ∷ clients) = ground (arith, count_from-le-length id clients)

count_from_falls :
    (id : ℕ) (clients : Clients) → count_from (id + 1) clients ≤ count_from id clients
count_from_falls id [] = omega arith
count_from_falls id (entry ∷ clients) = ground (arith, count_from_falls id clients)

count_from_taken :
    (id : ℕ) (clients : Clients)
    → has_client id clients ≡ true
    → count_from (id + 1) clients < count_from id clients
unfolding has_client
count_from_taken id [] h = ground arith
count_from_taken id (entry ∷ clients) h = elim (Bool-cases (entry.0 == id)) [
  | inl here ↦ ground (arith, count_from_falls id clients)
  | inr there ↦ ground (arith, count_from_taken id clients)
]

-- `id` is the first free id from `from` on, and near it.
pub record IsFirstFree (from id : ℕ) (clients : Clients) : Type 0 where
  pub free : has_client id clients ≡ false
  pub not_below : from ≤ id
  pub first : (j : ℕ) → from ≤ j → j < id → has_client j clients ≡ true
  pub near : id ≤ from + length clients

free_id_lem :
    (rounds from : ℕ) (clients : Clients)
    → count_from from clients < rounds
    → from + count_from from clients ≤ int_max
    → (id : ℕ) × (free_id rounds from clients ≡ returns (some id))
      × (has_client id clients ≡ false)
      × (from ≤ id)
      × ((j : ℕ) → from ≤ j → j < id → has_client j clients ≡ true)
      × (id ≤ from + count_from from clients)
unfolding free_id
free_id_lem zero from clients enough below = absurd (omega arith)
free_id_lem (suc rounds) from clients enough below =
    let in_range : ltb int_max from ≡ false = le→ltb_false int_max from (omega arith) in
    elim (Bool-cases (has_client from clients)) [
      | inr free ↦ (
        from,
        rw (in_range, free) refl,
        free,
        omega arith,
        (λ j h k. absurd (omega arith)),
        omega arith,
      )
      | inl taken ↦
          let fewer = count_from_taken from clients taken in
          let (id, is_id, free, above, first, near) =
            free_id_lem rounds (from + 1) clients (omega arith) (omega arith) in
          (
            id,
            rw (in_range, taken) is_id,
            free,
            omega arith,
            (λ j h k. elim (Bool-cases (j == from)) [
              | inl same ↦ let e : j ≡ from = ground arith in rw e taken
              | inr other ↦ first j (ground arith) k
            ]),
            omega arith,
          )
    ]

-- GenerateID gives the first id from `id_counter` on that no client has, and keeps it in the
-- counter, as long as the counter and the number of clients stay below INT_MAX together.
pub generate_id-IsFirstFree :
    (server : Server)
    → server.id_counter + length server.clients < int_max
    → (id : ℕ) × (generate_id server ≡ returns (some id, record server { id_counter = id }))
      × IsFirstFree server.id_counter id server.clients
unfolding generate_id
generate_id-IsFirstFree server room =
    let few = count_from-le-length server.id_counter server.clients in
    let (id, is_id, free, above, first, near) =
      free_id_lem int_max server.id_counter server.clients (omega arith) (omega arith) in
    (
      id,
      rw is_id refl,
      record { free = free; not_below = above; first = first; near = omega arith },
    )
