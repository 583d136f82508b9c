-- ===== src/LogServer/Passes/Steps.antt =====
-- web_socket_server.cpp and log-server.cpp: a pass of ListenMessages, and the steps of the threads.
use extension_project.Prelude.{
  ℕ, ◌+◌, ◌≡◌, refl, ◌∙◌, sym, ap, subst, inl, inr, Bool, true, false, none, some, List, [], ◌∷◌,
  ◌++◌, arith, All, Bool-cases,
}
use extension_project.WebSocket.Types.{returns, found}
use extension_project.WebSocket.Ensures.{>>=-eq-returns, returns-injective}
use extension_project.WebSocket.Answer.{Crypto}
use extension_project.Client.{Client}
use extension_project.Server.{Clients, put_client, erase_client}
use extension_project.Server.Messages.{Turn, Visited, remains, visit, pass}
use extension_project.Server.Arrivals.{Rising}
use extension_project.LogServer.Requests.{Answers, Cleaned}
use extension_project.LogServer.Threads.{System, start, log_handler, leaves, Reach, here, next}
use extension_project.LogServer.Invariant.Steps.{Reach-IsSafe}
use extension_project.LogServer.Passes.{AllFit, state, leaving_of, Reach-trans, serve-Reach}
use extension_project.LogServer.Passes.Fronts.{
  AllBelow, entries_of, entries_front, get_client-middle, put_client-middle, erase_client-middle,
  entries_front_lem, AllBelow-weaken, entries_front-AllBelow,
}

module _ (c : Crypto) (id_counter : ℕ) where
  -- The client stays, or is taken out.
  settled :
      (stays : Bool) (id : ℕ) (client new : Client) (front rest : Clients) (logs : Cleaned)
      → AllBelow id front
      → Reach c
          (state
            (put_client id new (front ++ (id, client) ∷ rest))
            logs
            (leaving_of stays id)
            id_counter)
          (state (front ++ entries_of stays id new rest) logs none id_counter)
  settled true id client new front rest logs below =
      subst
        (λ after.
          Reach c (state (put_client id new (front ++ (id, client) ∷ rest)) logs none id_counter)
            (state after logs none id_counter))
        (put_client-middle id client new front rest below) here
  settled false id client new front rest logs below =
      let clients : Clients = put_client id new (front ++ (id, client) ∷ rest) in
      subst
        (λ after.
          Reach c (state clients logs (some id) id_counter) (state after logs none id_counter))
        (ap (erase_client id) (put_client-middle id client new front rest below)
          ∙ erase_client-middle id new front rest below)
        (next here (leaves id refl))

  visit-Reach :
      (reported : ℕ → Bool) (turns : List (Turn Answers)) (id : ℕ) (client : Client)
      (front rest : Clients) (logs : Cleaned) (v : Visited Cleaned)
      → AllBelow id front
      → AllFit c turns client
      → visit log_handler c reported turns client logs ≡ returns v
      → Reach c
          (state (front ++ (id, client) ∷ rest) logs none id_counter)
          (state (front ++ entries_of v.stays id v.client rest) v.state none id_counter)
  unfolding visit
  visit-Reach reported turns id client front rest logs v below fits e =
      let (fd, is_fd, e') = >>=-eq-returns (found client.socket) _ e in
      elim (Bool-cases (reported fd)) [
        | inl yes_reported ↦
            Reach-trans
              (serve-Reach c id id_counter turns (front ++ (id, client) ∷ rest) logs client v
                (get_client-middle id client front rest below) fits (rw yes_reported at e'))
              (settled v.stays id client v.client front rest v.state below)
        | inr not_reported ↦ unchanged v (rw not_reported at e')
      ]
    where
      unchanged :
          (v : Visited Cleaned)
          → remains client logs ≡ returns v
          → Reach c
              (state (front ++ (id, client) ∷ rest) logs none id_counter)
              (state (front ++ entries_of v.stays id v.client rest) v.state none id_counter)
      unchanged v e =
          let same : record { client = client; state = logs; stays = true } ≡ v = ground arith in
          subst
            (λ (v : Visited Cleaned).
              Reach c (state (front ++ (id, client) ∷ rest) logs none id_counter)
                (state (front ++ entries_of v.stays id v.client rest) v.state none id_counter))
            same here

  abbrev after : Clients → Clients × Cleaned → System
  after front p = state (front ++ p.0) p.1 none id_counter

  pass_steps :
      (reported : ℕ → Bool) (turns : ℕ → List (Turn Answers)) (low : ℕ) (front clients : Clients)
      (logs : Cleaned) (p : Clients × Cleaned)
      → AllBelow low front
      → Rising low clients
      → All (λ entry. AllFit c (turns entry.0) entry.1) clients
      → pass log_handler c reported turns clients logs ≡ returns p
      → Reach c (after front (clients, logs)) (after front p)
  unfolding pass
  pass_steps reported turns low front [] logs p below rising fit e =
      let same : ([], logs) ≡ p = returns-injective e in
      subst (λ q. Reach c (after front ([], logs)) (after front q)) same here
  pass_steps reported turns low front ((id, client) ∷ clients) logs p below rising fit e =
      let (v, is_v, e') =
        >>=-eq-returns (visit log_handler c reported (turns id) client logs) _ e in
      let (q, is_q, e'') =
        >>=-eq-returns (pass log_handler c reported turns clients v.state) _ e' in
      let front' : Clients = entries_front v.stays id v.client front in
      let visited : Reach c (after front ((id, client) ∷ clients, logs))
          (after front' (clients, v.state)) =
        subst
          (λ all.
            Reach c (after front ((id, client) ∷ clients, logs))
              (state all v.state none id_counter))
          (sym (entries_front_lem v.stays id v.client front clients))
          (visit-Reach reported (turns id) id client front clients logs v
            (AllBelow-weaken low id front rising.0 below) fit.0 is_v) in
      let rest : Reach c (after front' (clients, v.state)) (after front' q) =
        pass_steps reported turns (id + 1) front' clients v.state q
          (entries_front-AllBelow v.stays low id v.client front rising.0 below) rising.1 fit.1
          is_q in
      let all : Reach c (after front ((id, client) ∷ clients, logs))
          (after front (entries_of v.stays id v.client q.0, q.1)) =
        subst
          (λ all.
            Reach c (after front ((id, client) ∷ clients, logs)) (state all q.1 none id_counter))
          (entries_front_lem v.stays id v.client front q.0) (Reach-trans visited rest) in
      subst (λ o. Reach c (after front ((id, client) ∷ clients, logs)) (after front o))
        (returns-injective e'') all

-- A pass of ListenMessages over the clients of a state that the threads reach, in which no client is
-- about to be taken out, leaves a state that they reach by their steps: one for each message,
-- disconnect or silent round, and one for each client that is taken out. SSL_read gives no more
-- bytes than it is asked for in any of the rounds.
pub pass-Reach :
    (c : Crypto) (reported : ℕ → Bool) (turns : ℕ → List (Turn Answers)) (s : System)
    (clients : Clients) (logs : Cleaned)
    → Reach c start s
    → s.leaving ≡ none
    → All (λ entry. AllFit c (turns entry.0) entry.1) s.server.clients
    → pass log_handler c reported turns s.server.clients s.logs ≡ returns (clients, logs)
    → Reach c s (record s { server = record s.server { clients = clients }; logs = logs })
pass-Reach c reported turns s clients logs r none_leaves fit e =
    subst
      (λ leaving.
        Reach c (record s { leaving = leaving })
          (record s {
            server = record s.server { clients = clients };
            logs = logs;
            leaving = leaving;
          }))
      (sym none_leaves)
      (pass_steps c s.server.id_counter reported turns 0 [] s.server.clients s.logs (clients, logs)
        tt (Reach-IsSafe c r).kept.rising fit e)
