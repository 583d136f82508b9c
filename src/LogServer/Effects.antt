-- ===== src/LogServer/Effects.antt =====
-- What the requests of one client do to the list of logs, and what they leave to the others.
use extension_project.Prelude.{
  drop-drop, suc, ℕ, ◌+◌, ◌≡◌, ◌≢◌, refl, ap, sym, ◌∙◌, ◌⊎◌, inl, inr, true, false, List, [], ◌∷◌,
  ◌++◌, none, some, arith, drop, length, find_text, starts_with, All, Lacks, Bool-cases, ◌==◌,
  if◌then◌else◌, drop-append, same_text_iff,
}
use mathlib.Core.Bool.{false≢true}
use extension_project.WebSocket.Types.{returns}
use extension_project.LogServer.Description.{
  LogDescription, OpenResult, opened, no_file, no_stream, WaitResult, Time, open_log, killed_by,
  Victim,
}
use extension_project.LogServer.Requests.{
  start_reading_log, stop_reading_log, delete_requests_from_client, perform, on_message, Answers,
  Cleaned, noted, is_request, add_action, del_action,
}
use extension_project.LogServer.Names.{cleanup_open, check_log_name_iff, dots}

-- The logs that a client follows, in their order.
abbrev pub of_client : ℕ → List LogDescription → List LogDescription
of_client id [] = []
of_client id (log ∷ logs) =
    if log.client_id == id then log ∷ of_client id logs else of_client id logs

abbrev pub AllOpen : List LogDescription → Type 0
AllOpen logs = All (λ log. log.is_open ≡ true) logs

-- The logs of the other clients, in their order.
abbrev others : ℕ → List LogDescription → List LogDescription
others id [] = []
others id (log ∷ logs) = if log.client_id == id then others id logs else log ∷ others id logs

abbrev victims : (ℕ → WaitResult) → ℕ → List LogDescription → List Victim
victims wait id [] = []
victims wait id (log ∷ logs) =
    if log.client_id == id
    then noted (killed_by (wait log.fd) log) (victims wait id logs)
    else victims wait id logs

delete_requests_from_client_lem :
    (wait : ℕ → WaitResult) (id : ℕ) (logs : List LogDescription)
    → AllOpen logs
    → delete_requests_from_client wait id logs
      ≡ returns (record { logs = others id logs; killed = victims wait id logs })
unfolding delete_requests_from_client
delete_requests_from_client_lem wait id [] h = refl
delete_requests_from_client_lem wait id (log ∷ logs) h =
    let ih = delete_requests_from_client_lem wait id logs h.1 in
    elim (Bool-cases (log.client_id == id)) [
      | inl hit ↦ rw (hit, cleanup_open (wait log.fd) log h.0, ih)
      | inr miss ↦ rw (miss, ih)
    ]

of_client-others :
    (id j : ℕ) (logs : List LogDescription)
    → j ≢ id
    → of_client j (others id logs) ≡ of_client j logs
of_client-others id j [] ne = refl
of_client-others id j (log ∷ logs) ne = ground (arith, of_client-others id j logs)

of_client-others_self : (id : ℕ) (logs : List LogDescription) → of_client id (others id logs) ≡ []
of_client-others_self id [] = refl
of_client-others_self id (log ∷ logs) = ground (arith, of_client-others_self id logs)

-- DeleteRequestsFromClient, on logs with open streams, comes back; the client then follows no log,
-- and every other client follows the logs that it followed, in the same order.
pub delete_requests_from_client-of_client :
    (wait : ℕ → WaitResult) (id : ℕ) (logs : List LogDescription)
    → AllOpen logs
    → (c : Cleaned) × (delete_requests_from_client wait id logs ≡ returns c)
      × (of_client id c.logs ≡ [])
      × ((j : ℕ) → j ≢ id → of_client j c.logs ≡ of_client j logs)
delete_requests_from_client-of_client wait id logs h = (
  record { logs = others id logs; killed = victims wait id logs },
  delete_requests_from_client_lem wait id logs h,
  of_client-others_self id logs,
  (λ j ne. of_client-others id j logs ne),
)

-- The first request of that client and name is taken out, or there is none.
abbrev pub IsTakenOut : ℕ → List ℕ → List LogDescription → List LogDescription → Type 0
IsTakenOut id name before after =
    ((after ≡ before) × All (λ log. is_request id name log ≡ false) before)
    ⊎ ((front : List LogDescription) × (log : LogDescription) × (back : List LogDescription)
        × (before ≡ front ++ log ∷ back)
        × (after ≡ front ++ back)
        × (log.client_id ≡ id)
        × (log.name ≡ name)
        × All (λ other. is_request id name other ≡ false) front)

IsTakenOut-cons :
    (id : ℕ) (name : List ℕ) (log : LogDescription) (before after : List LogDescription)
    → is_request id name log ≡ false
    → IsTakenOut id name before after
    → IsTakenOut id name (log ∷ before) (log ∷ after)
IsTakenOut-cons id name log before after miss (inl (same, none_there)) =
    inl (ap (◌∷◌ log) same, (miss, none_there))
IsTakenOut-cons id name log before after miss (inr (front, it, back, b, a, i, n, f)) =
    inr (log ∷ front, it, back, ap (◌∷◌ log) b, ap (◌∷◌ log) a, i, n, (miss, f))

is_request_parts :
    (id : ℕ) (name : List ℕ) (log : LogDescription)
    → is_request id name log ≡ true
    → (log.client_id ≡ id) × (log.name ≡ name)
is_request_parts id name log h =
    let texts = same_text_iff log.name name in (ground arith, texts.0 (ground arith))

-- StopReadingLog, on logs with open streams, comes back and takes out the first log that has the
-- client and the name, and no other; if none has both, the list stays.
pub stop_reading_log-IsTakenOut :
    (wait : ℕ → WaitResult) (id : ℕ) (name : List ℕ) (logs : List LogDescription)
    → AllOpen logs
    → (c : Cleaned) × (stop_reading_log wait id name logs ≡ returns c)
      × IsTakenOut id name logs c.logs
unfolding stop_reading_log
stop_reading_log-IsTakenOut wait id name [] h =
    (record { logs = []; killed = [] }, refl, inl (refl, tt))
stop_reading_log-IsTakenOut wait id name (log ∷ logs) h =
    let ih = stop_reading_log-IsTakenOut wait id name logs h.1 in
    elim (Bool-cases (is_request id name log)) [
      | inl hit ↦
          let parts = is_request_parts id name log hit in
          (
            record { logs = logs; killed = noted (killed_by (wait log.fd) log) [] },
            rw (hit, cleanup_open (wait log.fd) log h.0) refl,
            inr ([], log, logs, refl, refl, parts.0, parts.1, tt),
          )
      | inr miss ↦ (
        record { logs = log ∷ ih.0.logs; killed = ih.0.killed },
        rw (miss, ih.1) refl,
        IsTakenOut-cons id name log logs ih.0.logs miss ih.2,
      )
    ]

-- The first space of a text is behind a word without one.
find_space :
    (word file : List ℕ)
    → Lacks (32 ∷ []) word
    → find_text (word ++ 32 ∷ file) (32 ∷ []) ≡ some (length word)
find_space [] file h = refl
find_space (x ∷ word) file h =
    let ih = find_space word file (λ i. h (suc i)) in
    elim (Bool-cases (x == 32)) [
      | inl hit ↦ absurd (false≢true (sym (h 0) ∙ rw hit))
      | inr miss ↦ rw (miss, ih)
    ]

perform_add :
    (ev : Answers) (id : ℕ) (message name : List ℕ) (logs : List LogDescription)
    → starts_with message add_action ≡ true
    → perform ev id message name logs
      ≡ returns (record { logs = (start_reading_log ev.result ev.now id name logs).0; killed = [] })
unfolding perform
perform_add ev id message name logs adds = rw adds

not_opened :
    (result : OpenResult) (now : Time) (id : ℕ) (name : List ℕ) (logs : List LogDescription)
    → ((fd : ℕ) → result ≢ opened fd)
    → (start_reading_log result now id name logs).0 ≡ logs
unfolding start_reading_log open_log
not_opened (opened fd) now id name logs ne = absurd (ne fd refl)
not_opened no_file now id name logs ne = refl
not_opened no_stream now id name logs ne = refl

-- The message "<word> <file>" at the system's answers `ev`.
module _ (ev : Answers) (id : ℕ) (word file : List ℕ) (logs : List LogDescription)
    (one_word : Lacks (32 ∷ []) word) (safe : Lacks dots (word ++ 32 ∷ file)) where
  message_reaches :
      on_message ev id (word ++ 32 ∷ file) logs ≡ perform ev id (word ++ 32 ∷ file) file logs
  unfolding on_message
  message_reaches =
      let passed = (check_log_name_iff (word ++ 32 ∷ file)).1 safe in
      let space = find_space word file one_word in
      let behind : drop (length word + 1) (word ++ 32 ∷ file) ≡ file =
        sym (drop-drop (length word) 1 (length word + 1) (word ++ 32 ∷ file) refl)
        ∙ ap (drop 1) (drop-append word (32 ∷ file)) in
      rw (passed, space, on_message, behind)

  -- A message of a word that begins with "add", a space and a file name, without ".." in it, adds
  -- one log at the end of the list, if the file opens: with the file's name, the client, an open
  -- stream and no `tail` yet. If the file does not open, the list stays.
  pub on_message-add :
      starts_with (word ++ 32 ∷ file) add_action ≡ true
      → ((fd : ℕ)
          → ev.result ≡ opened fd
          → on_message ev id (word ++ 32 ∷ file) logs
            ≡ returns (record {
              logs =
                  logs
                  ++ record {
                    name = file;
                    fd = fd;
                    is_open = true;
                    tail_pid = none;
                    client_id = id;
                    next_send_time = ev.now;
                  }
                    ∷ [];
              killed = [];
            }))
        × (((fd : ℕ) → ev.result ≢ opened fd)
            → on_message ev id (word ++ 32 ∷ file) logs
              ≡ returns (record { logs = logs; killed = [] }))
  unfolding perform start_reading_log open_log
  on_message-add adds =
      let started = message_reaches ∙ perform_add ev id (word ++ 32 ∷ file) file logs adds in
      (
        (λ fd e.
            started
            ∙ ap
                (λ r.
                  returns
                    (record { logs = (start_reading_log r ev.now id file logs).0; killed = [] }))
                e),
        (λ ne.
            started
            ∙ ap (λ l. returns (record { logs = l; killed = [] }))
                (not_opened ev.result ev.now id file logs ne)),
      )

  -- A message of a word that begins with "del", a space and a file name, without ".." in it, takes
  -- out the first log of that client and name, if there is one, and no other; the streams of the
  -- logs are open.
  pub on_message-del :
      starts_with (word ++ 32 ∷ file) add_action ≡ false
      → starts_with (word ++ 32 ∷ file) del_action ≡ true
      → AllOpen logs
      → (c : Cleaned) × (on_message ev id (word ++ 32 ∷ file) logs ≡ returns c)
        × IsTakenOut id file logs c.logs
  unfolding perform
  on_message-del no_add dels open_logs =
      let stopped = stop_reading_log-IsTakenOut ev.wait id file logs open_logs in
      (stopped.0, rw (message_reaches, perform, no_add, dels) stopped.1, stopped.2)
