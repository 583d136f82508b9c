-- ===== src/LogServer/Invariant/Talks.antt =====
-- web_socket_server.cpp and log-server.cpp: what a round over one client keeps.
use extension_project.Prelude.{
  ℕ, ◌≡◌, refl, ◌∙◌, subst, Bool, true, false, none, some, List, [], ◌∷◌, arith, if◌then◌else◌,
  Lacks, c_string,
}
use extension_project.WebSocket.Types.{found}
use extension_project.WebSocket.Ensures.{Ensures, Ensures-bind, Ensures-then}
use extension_project.WebSocket.Answer.{Crypto}
use extension_project.Client.{
  Client, Code, read_succeed, read_succeed_data_available, waiting_for_more_data, handshake_succeed,
  disconnect,
}
use extension_project.Client.Buffer.{IsValid}
use extension_project.Client.Receive.{Received, receive}
use extension_project.Client.Keeps.{IsClosed, disconnect-IsClosed}
use extension_project.Client.Keeps.Input.{Fits, KeepsReceived, receive-Keeps}
use extension_project.Server.{Clients, put_client, get_client}
use extension_project.Server.Messages.{
  Turn, Visited, remains, react, hand_over, drop_client, message_len,
}
use extension_project.Server.Arrivals.{IsEntry}
use extension_project.Server.Entries.{
  get_client-All, get_client-has_client, put_client-IsKept, put_client-Within,
}
use extension_project.LogServer.Description.{LogDescription}
use extension_project.LogServer.Requests.{Answers, Cleaned, on_message, delete_requests_from_client}
use extension_project.LogServer.Names.{dots}
use extension_project.LogServer.Owners.{
  AllHold, Cleans, Deletes, on_message-AllHold, delete_requests_from_client-Deletes,
}
use extension_project.LogServer.Threads.{System, log_handler, talk}
use extension_project.LogServer.Invariant.{Owned, Unfollowed, IsSafe}

-- A round over one client: its id, its validity, and what the handler made of the logs.
record Reacts (of : ℕ → List ℕ → Type 0) (id : ℕ) (v : Visited Cleaned) : Type 0 where
  own_id : v.client.id ≡ some id
  valid : IsValid v.client
  logs : AllHold of v.state.logs
  dropped : v.stays ≡ false → Unfollowed id v.state.logs

module _ (of : ℕ → List ℕ → Type 0) (id : ℕ) (new : (name : List ℕ) → Lacks dots name → of id name)
    (turn : Turn Answers) (r : Received) (own : r.client.id ≡ some id) (valid : IsValid r.client)
    (s : Cleaned) (old : AllHold of s.logs) where
  hand_over-Cleans : Ensures (Cleans of) (hand_over log_handler turn r s)
  unfolding hand_over
  hand_over-Cleans = Ensures-then (Cleans of) (found r.message) _ (λ message _. rw own (
      Ensures-bind (Cleans of) (Cleans of) (on_message turn.answers id (c_string message) s.logs) _
        (on_message-AllHold of turn.answers id (c_string message) s.logs new old) (λ c h. h)))

  stays-Reacts :
      (t : Cleaned)
      → AllHold of t.logs
      → Reacts of id (record { client = r.client; state = t; stays = true })
  stays-Reacts t h = record { own_id = own; valid = valid; logs = h; dropped = λ no_true. cc }

  on_disconnect-Deletes :
      (client : Client)
      → client.id ≡ some id
      → Ensures (Deletes of id) (log_handler.on_disconnect turn.answers client s)
  on_disconnect-Deletes client same = rw same (
      Ensures-bind (Deletes of id) (Deletes of id)
        (delete_requests_from_client turn.answers.wait id s.logs) _
        (delete_requests_from_client-Deletes of turn.answers.wait id s.logs old) (λ c h. h))

  drop_client-Reacts : Ensures (Reacts of id) (drop_client log_handler turn r.client s)
  unfolding drop_client
  drop_client-Reacts =
      Ensures-bind (IsClosed r.client) (Reacts of id) (disconnect turn.farewell r.client) _
        (disconnect-IsClosed turn.farewell r.client valid)
        (λ client k.
          Ensures-bind (Deletes of id) (Reacts of id)
            (log_handler.on_disconnect turn.answers client s) _
            (on_disconnect-Deletes client (k.id ∙ own))
            (λ t h. record {
              own_id = k.id ∙ own;
              valid = k.valid;
              logs = h.0;
              dropped = λ _. h.1;
            }))

  react-Reacts : (code : Code) → Ensures (Reacts of id) (react log_handler turn remains code r s)
  unfolding react
  react-Reacts read_succeed =
      Ensures-bind (Cleans of) (Reacts of id) (hand_over log_handler turn r s) _ hand_over-Cleans
        (λ t h. stays-Reacts t h)
  react-Reacts read_succeed_data_available =
      Ensures-bind (Cleans of) (Reacts of id) (hand_over log_handler turn r s) _ hand_over-Cleans
        (λ t h. stays-Reacts t h)
  react-Reacts handshake_succeed = stays-Reacts s old
  react-Reacts waiting_for_more_data = stays-Reacts s old
  react-Reacts _ = drop_client-Reacts

-- The logs behind a round over the client `id`, which stays or is to be taken out.
Owned-Reacts :
    (clients : Clients) (id : ℕ) (client : Client) (stays : Bool) (logs : List LogDescription)
    → AllHold (Owned clients none) logs
    → (stays ≡ false → Unfollowed id logs)
    → AllHold (Owned (put_client id client clients) (if stays then none else some id)) logs
Owned-Reacts clients id client stays [] h d = tt
Owned-Reacts clients id client true (log ∷ logs) h d = (
  (put_client-Within id client clients log.client_id h.0.0, h.0.1, h.0.2),
  Owned-Reacts clients id client true logs h.1 (λ no_false. absurd (cc no_false)),
)
Owned-Reacts clients id client false (log ∷ logs) h d = (
  (
    put_client-Within id client clients log.client_id h.0.0,
    h.0.1,
    (λ same. (d refl).0 (ground arith)),
  ),
  Owned-Reacts clients id client false logs h.1 (λ e. (d e).1),
)

pub talk-IsSafe :
    (c : Crypto) (turn : Turn Answers) (id : ℕ) (client : Client) (s : System)
    → IsSafe s
    → s.leaving ≡ none
    → get_client id s.server.clients ≡ some client
    → Fits turn.read client
    → Ensures IsSafe (talk c turn id client s)
unfolding talk
talk-IsSafe c turn id client s safe none_leaves there fits =
    let clients : Clients = s.server.clients in
    let entry = get_client-All IsEntry id client clients safe.kept.entries there in
    let present = get_client-has_client id client clients there in
    let of : ℕ → List ℕ → Type 0 = Owned clients none in
    let old : AllHold of s.logs.logs =
      subst (λ leaving. AllHold (Owned clients leaving) s.logs.logs) none_leaves safe.owned in
    Ensures-bind (KeepsReceived client) IsSafe (receive c turn.read turn.writes message_len client)
      _ (receive-Keeps c turn.read turn.writes message_len client entry.valid fits)
      (λ r k.
        Ensures-bind (Reacts of id) IsSafe (react log_handler turn remains r.code r s.logs) _
          (react-Reacts of id (λ name lacks. (present, lacks, (λ e. cc e))) turn r
            (k.id ∙ entry.own_id) k.valid s.logs old r.code)
          (λ v d. record {
            kept = put_client-IsKept id v.client clients d.own_id d.valid safe.kept;
            owned = Owned-Reacts clients id v.client v.stays v.state.logs d.logs d.dropped;
          }))
