-- ===== src/LogServer/Passes.antt =====
-- web_socket_server.cpp and log-server.cpp: the rounds over one client, and the steps of the threads.
pub mod Fronts
pub mod Steps
use extension_project.Prelude.{
  All-weaken, ℕ, ◌+◌, ◌<◌, ◌≤◌, ◌≡◌, ◌≢◌, refl, ◌∙◌, sym, ap, subst, inl, inr, Bool, true, false,
  none, some, Option, List, [], ◌∷◌, ◌++◌, arith, ltb, ◌==◌, if◌then◌else◌, All, All-append,
  Bool-cases, append_assoc, if_true, if_false,
}
use extension_project.WebSocket.Types.{Run, returns, aborts, corrupts, hangs, ◌>>=◌, found}
use extension_project.WebSocket.Ensures.{>>=-eq-returns}
use extension_project.WebSocket.Answer.{Crypto}
use extension_project.Client.{
  Client, Code, read_succeed, read_succeed_data_available, waiting_for_more_data, handshake_succeed,
  network_error, handshake_failed, invalid_frame, client_disconnected, buffer_too_small,
}
use extension_project.Client.Receive.{Received, receive}
use extension_project.Client.Keeps.Input.{Fits}
use extension_project.Server.{Clients, Server, has_client, put_client, get_client, erase_client}
use extension_project.Server.Messages.{
  Turn, Visited, remains, react, hand_over, serve, visit, pass, message_len,
}
use extension_project.Server.Arrivals.{Rising, get_client-put_client}
use extension_project.LogServer.Requests.{Answers, Cleaned}
use extension_project.LogServer.Threads.{
  System, start, log_handler, talk, Step, talks, leaves, Reach, here, next,
}

-- SSL_read gives no more bytes than it is asked for, in every round over the client.
abbrev pub AllFit : Crypto → List (Turn Answers) → Client → Type 0
AllFit c [] client = Unit
AllFit c (turn ∷ turns) client =
    Fits turn.read client
    × ((r : Received)
        → receive c turn.read turn.writes message_len client ≡ returns r
        → AllFit c turns r.client)

abbrev pub state : Clients → Cleaned → Option ℕ → ℕ → System
state clients logs leaving id_counter = record {
  server = record { clients = clients; id_counter = id_counter };
  logs = logs;
  leaving = leaving;
}

abbrev pub leaving_of : Bool → ℕ → Option ℕ
leaving_of stays id = if stays then none else some id

pub Reach-trans : {c : Crypto} {s t u : System} → Reach c s t → Reach c t u → Reach c s u
Reach-trans r here = r
Reach-trans r (next q step) = next (Reach-trans r q) step

put_client-put_client :
    (id : ℕ) (a b : Client) (clients : Clients)
    → put_client id b (put_client id a clients) ≡ put_client id b clients
unfolding put_client
put_client-put_client id a b [] = ground arith
put_client-put_client id a b (entry ∷ clients) =
    ground (arith, put_client-put_client id a b clients)

module _ (c : Crypto) (id id_counter : ℕ) where
  talk_lem :
      (turn : Turn Answers) (clients : Clients) (logs : Cleaned) (client : Client) (r : Received)
      (v : Visited Cleaned)
      → receive c turn.read turn.writes message_len client ≡ returns r
      → react log_handler turn remains r.code r logs ≡ returns v
      → talk c turn id client (state clients logs none id_counter)
        ≡ returns
            (state (put_client id v.client clients) v.state (leaving_of v.stays id) id_counter)
  unfolding talk
  talk_lem turn clients logs client r v is_r e = rw is_r (rw e refl)

  -- A round after which the client is asked again, and the rounds behind it.
  again-Reach :
      (turn : Turn Answers) (clients : Clients) (logs logs' : Cleaned) (client : Client)
      (r : Received) (v : Visited Cleaned)
      → get_client id clients ≡ some client
      → Fits turn.read client
      → receive c turn.read turn.writes message_len client ≡ returns r
      → react log_handler turn remains r.code r logs
        ≡ returns (record { client = r.client; state = logs'; stays = true })
      → Reach c (state (put_client id r.client clients) logs' none id_counter) (
          state
            (put_client id v.client (put_client id r.client clients))
            v.state
            (leaving_of v.stays id)
            id_counter)
      → Reach c
          (state clients logs none id_counter)
          (state (put_client id v.client clients) v.state (leaving_of v.stays id) id_counter)
  again-Reach turn clients logs logs' client r v there fits is_r e rest =
      Reach-trans
        (next here (
          talks turn id client refl there fits (
            talk_lem turn clients logs client r
              (record { client = r.client; state = logs'; stays = true }) is_r e)))
        (subst
          (λ after.
            Reach c (state (put_client id r.client clients) logs' none id_counter)
              (state after v.state (leaving_of v.stays id) id_counter))
          (put_client-put_client id r.client v.client clients) rest)

  pub serve-Reach :
      (turns : List (Turn Answers)) (clients : Clients) (logs : Cleaned) (client : Client)
      (v : Visited Cleaned)
      → get_client id clients ≡ some client
      → AllFit c turns client
      → serve log_handler c turns client logs ≡ returns v
      → Reach c
          (state clients logs none id_counter)
          (state (put_client id v.client clients) v.state (leaving_of v.stays id) id_counter)
  unfolding serve
  serve-Reach [] clients logs client v there fits e = absurd (cc e)
  serve-Reach (turn ∷ turns) clients logs client v there fits e =
      let (r, is_r, e') = >>=-eq-returns (receive c turn.read turn.writes message_len client) _ e in
      by_code r.code r refl is_r e' (λ logs' e''.
        serve-Reach turns (put_client id r.client clients) logs' r.client v
          (get_client-put_client id id r.client clients ∙ ground arith) (fits.1 r is_r) e'')
    where
      by_code :
          (code : Code) (r : Received)
          → r.code ≡ code
          → receive c turn.read turn.writes message_len client ≡ returns r
          → react log_handler turn (serve log_handler c turns) code r logs ≡ returns v
          → ((logs' : Cleaned)
              → serve log_handler c turns r.client logs' ≡ returns v
              → Reach c (state (put_client id r.client clients) logs' none id_counter) (
                  state
                    (put_client id v.client (put_client id r.client clients))
                    v.state
                    (leaving_of v.stays id)
                    id_counter))
          → Reach c
              (state clients logs none id_counter)
              (state (put_client id v.client clients) v.state (leaving_of v.stays id) id_counter)
      by_code read_succeed_data_available r same is_r e rest =
          let (logs', handed, e') = >>=-eq-returns (hand_over log_handler turn r logs) _ e in
          again-Reach turn clients logs logs' client r v there fits.0 is_r
            (ap (λ code. react log_handler turn remains code r logs) same ∙ rw handed refl)
            (rest logs' e')
      by_code handshake_succeed r same is_r e rest =
          again-Reach turn clients logs logs client r v there fits.0 is_r
            (ap (λ code. react log_handler turn remains code r logs) same) (rest logs e)
      by_code _ r same is_r e rest = next here (
          talks turn id client refl there fits.0 (
            talk_lem turn clients logs client r v is_r
              (ap (λ code. react log_handler turn remains code r logs) same ∙ e)))
