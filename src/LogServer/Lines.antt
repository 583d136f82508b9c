-- ===== src/LogServer/Lines.antt =====
-- log-server.cpp: the lines that a round of Run sends, and what each client gets of them.
pub mod Due
pub mod Rounds
use extension_project.Prelude.{
  ℕ, ◌+◌, ◌≤◌, ◌<◌, ◌≡◌, refl, ◌∙◌, sym, ap, subst, inl, inr, Bool, true, false, none, some, Option,
  List, [], ◌∷◌, ◌++◌, arith, ◌==◌, if◌then◌else◌, All, All-weaken, Bool-cases, length,
  append_assoc, append-nil,
}
use extension_project.WebSocket.Types.{Run, returns, ◌>>=◌, found}
use extension_project.WebSocket.Rfc.{server_frame}
use extension_project.Client.{Client, Round, send, to_write, write_rounds}
use extension_project.Client.Buffer.{IsValid, pending}
use extension_project.Client.Sending.{send_lem}
use extension_project.Server.{Clients, has_client, put_client, get_client}
use extension_project.Server.Arrivals.{IsEntry, IsKept, get_client-put_client}
use extension_project.Server.Entries.{get_client-All, put_client-IsKept, put_client-Within}
use extension_project.LogServer.Threads.{send_lines}

-- The frames of the lines that go to a client, in order.
abbrev pub frames_for : ℕ → List (ℕ × List ℕ) → List (List ℕ)
frames_for id [] = []
frames_for id ((to, line) ∷ lines) =
    if to == id then server_frame 1 line ∷ frames_for id lines else frames_for id lines

-- A line for a client who is there, that fits a frame in `send_buf`.
abbrev pub IsSendable : Clients → ℕ × List ℕ → Type 0
IsSendable clients line = (has_client line.0 clients ≡ true) × (length line.1 ≤ 15996)

-- What a client is, behind the lines that it got.
pub record Got (frames : List (List ℕ)) (before after : Client) : Type 0 where
  pub sent : after.sent ≡ before.sent ++ frames
  pub input_stays : pending after ≡ pending before
  pub shaken : after.handshaked ≡ before.handshaked

pub record AllGot (lines : List (ℕ × List ℕ)) (before after : Clients) : Type 0 where
  pub each :
      (id : ℕ) (client : Client)
      → get_client id before ≡ some client
      → (client' : Client) × (get_client id after ≡ some client')
        × Got (frames_for id lines) client client'
  pub kept : IsKept after

has_client-get_client :
    (id : ℕ) (clients : Clients)
    → has_client id clients ≡ true
    → (client : Client) × (get_client id clients ≡ some client)
unfolding has_client get_client
has_client-get_client id [] h = absurd (cc h)
has_client-get_client id (entry ∷ clients) h = elim (Bool-cases (entry.0 == id)) [
  | inl same ↦ (entry.1, rw same refl)
  | inr other ↦ rw other (has_client-get_client id clients (rw other at h))
]

-- One line more in front.
Got-first :
    (frame : List ℕ) (frames : List (List ℕ)) (before between after : Client)
    → between.sent ≡ before.sent ++ frame ∷ []
    → pending between ≡ pending before
    → between.handshaked ≡ before.handshaked
    → Got frames between after
    → Got (frame ∷ frames) before after
Got-first frame frames before between after sent stays shaken g = record {
  sent = g.sent ∙ ap (λ l. l ++ frames) sent ∙ append_assoc before.sent (frame ∷ []) frames;
  input_stays = g.input_stays ∙ stays;
  shaken = g.shaken ∙ shaken;
}

some-injective : {A : Type 0} {a b : A} → some a ≡ some b → a ≡ b
some-injective e = cc

module _ (rounds : ℕ → List Round)
    (taken : (n : ℕ) → write_rounds to_write (rounds n) ≡ returns true) where
  -- The lines of a round, sent to clients who are there, as long as SSL_write takes each of them: the
  -- sending comes back, every client gets exactly the text frames of RFC 6455 of its own lines, in
  -- their order and behind what it was sent before, and keeps its input; the map stays in order.
  pub send_lines-AllGot :
      (lines : List (ℕ × List ℕ)) (clients : Clients)
      → IsKept clients
      → All (IsSendable clients) lines
      → (after : Clients) × (send_lines rounds lines clients ≡ returns after)
        × AllGot lines clients after
  unfolding send_lines
  send_lines-AllGot [] clients kept fit = (
    clients,
    refl,
    record {
      each = λ id client e. (
        client,
        e,
        record { sent = sym (append-nil client.sent); input_stays = refl; shaken = refl },
      );
      kept = kept;
    },
  )
  send_lines-AllGot ((to, line) ∷ lines) clients kept fit =
      let (client, there) = has_client-get_client to clients fit.0.0 in
      let entry = get_client-All IsEntry to client clients kept.entries there in
      let (send_buf, sends, fails, size) =
        send_lem (rounds (length lines)) line client entry.valid (omega (arith, fit.0.1)) in
      let client' : Client = record client {
        send_buf = send_buf;
        sent = client.sent ++ server_frame 1 line ∷ [];
      } in
      let clients' : Clients = put_client to client' clients in
      let (after, is_after, all) =
        send_lines-AllGot lines clients'
          (put_client-IsKept to client' clients entry.own_id
            (record {
              frame_size = entry.valid.frame_size;
              send_size = size;
              within = entry.valid.within;
            })
            kept)
          (All-weaken (λ l h. (put_client-Within to client' clients l.0 h.0, h.1)) lines fit.1) in
      (
        after,
        rw (there, sends (taken (length lines))) is_after,
        record {
          each = λ id other e. elim (Bool-cases (to == id)) [
            | inl same ↦
                let same_id : to ≡ id = ground arith in
                let same_client : client ≡ other =
                  some-injective (sym there ∙ ap (λ j. get_client j clients) same_id ∙ e) in
                let (last, is_last, g) =
                  all.each id client'
                    (get_client-put_client id to client' clients ∙ rw same refl) in
                rw same (
                  last,
                  is_last,
                  subst (λ c. Got (server_frame 1 line ∷ frames_for id lines) c last) same_client
                      (Got-first (server_frame 1 line) (frames_for id lines) client client' last
                        refl refl refl g),
                )
            | inr differs ↦
                rw differs
                  (all.each id other (get_client-put_client id to client' clients ∙ rw differs e))
          ];
          kept = all.kept;
        },
      )
