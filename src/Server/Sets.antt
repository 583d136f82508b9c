-- ===== src/Server/Sets.antt =====
-- web_socket_server.cpp: the descriptor set that ListenMessages fills in front of `select`.
use extension_project.Prelude.{
  ℕ, ◌+◌, ◌≤◌, ◌<◌, ◌≡◌, refl, inl, inr, some, [], ◌∷◌, arith, ltb, ◌==◌, if◌then◌else◌, All,
  Bool-cases, Option-cases,
}
use extension_project.WebSocket.Types.{returns, corrupts}
use extension_project.Client.{Client}
use extension_project.Server.{Clients, get_client}
use extension_project.Server.Messages.{fill_set, set_size}

-- The client of an entry has a socket, below a bound.
abbrev pub Below : ℕ → ℕ × Client → Type 0
Below bound entry = (fd : ℕ) × (entry.1.socket ≡ some fd) × (fd < bound)

fill_set-Below :
    (nfds : ℕ) (clients : Clients)
    → nfds ≤ set_size
    → All (Below set_size) clients
    → (top : ℕ) × (fill_set nfds clients ≡ returns top)
      × (nfds ≤ top)
      × (top ≤ set_size)
      × All (Below top) clients
unfolding fill_set
fill_set-Below nfds [] small h = (nfds, refl, omega arith, small, tt)
fill_set-Below nfds (entry ∷ clients) small ((fd, is_fd, fits), h) =
    let next : ℕ = if ltb fd nfds then nfds else fd + 1 in
    let (top, is_top, grows, bounded, rest) = fill_set-Below next clients (ground arith) h in
    (top, ground arith, ground arith, bounded, ((fd, is_fd, ground arith), rest))

fill_set_large :
    (nfds id fd : ℕ) (client : Client) (clients : Clients)
    → get_client id clients ≡ some client
    → client.socket ≡ some fd
    → set_size ≤ fd
    → fill_set nfds clients ≡ corrupts
unfolding fill_set get_client
fill_set_large nfds id fd client [] there is_fd large = cc
fill_set_large nfds id fd client (entry ∷ clients) there is_fd large =
    elim (Option-cases entry.1.socket) [
      | inl e ↦ rw e
      | inr (fd', e) ↦ elim (Bool-cases (entry.0 == id)) [
        | inl here ↦ ground arith
        | inr further ↦
            let rest =
              fill_set_large (if ltb fd' nfds then nfds else fd' + 1) id fd client clients
                (rw further at there) is_fd large in
            ground (arith, rest)
      ]
    ]

-- If the sockets of all clients are below FD_SETSIZE, the filling of the set comes back with a number
-- that is above every socket and not above FD_SETSIZE. If the socket of one client is not below
-- FD_SETSIZE, the filling writes outside of the set.
pub fill_set_lem :
    (clients : Clients)
    → (All (Below set_size) clients
        → (top : ℕ) × (fill_set 0 clients ≡ returns top)
          × (top ≤ set_size)
          × All (Below top) clients)
      × ((id fd : ℕ) (client : Client)
          → get_client id clients ≡ some client
          → client.socket ≡ some fd
          → set_size ≤ fd
          → fill_set 0 clients ≡ corrupts)
fill_set_lem clients = (
  (λ all.
      let (top, is_top, above, bounded, below) = fill_set-Below 0 clients (omega arith) all in
      (top, is_top, bounded, below)),
  (λ id fd client there is_fd large. fill_set_large 0 id fd client clients there is_fd large),
)
