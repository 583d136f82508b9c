-- ===== src/LogServer/Names.antt =====
-- CheckLogName: no log that a client asks for has ".." in its name.
use extension_project.Prelude.{
  ◌==◌, starts_with, inr, inl, ℕ, ◌+◌, ◌≡◌, refl, ◌↔◌, true, List, [], ◌∷◌, arith, codes, drop,
  find_text, All, All-append, Lacks, Lacks-drop, find_text-none_iff, Option-cases, Bool-cases,
}
use extension_project.WebSocket.Types.{Run, returns}
use extension_project.LogServer.Description.{
  LogDescription, closed, killed_by, OpenResult, opened, no_file, no_stream, WaitResult, Time,
  open_log, cleanup,
}
use extension_project.LogServer.Requests.{
  del_action, add_action, is_request, check_log_name, start_reading_log, stop_reading_log,
  delete_requests_from_client, perform, on_message, Answers, Cleaned, noted,
}

abbrev pub dots : List ℕ
dots = codes ".."

-- CheckLogName returns 0 exactly for the names in which ".." stands nowhere.
pub check_log_name_iff : (name : List ℕ) → (check_log_name name ≡ true) ↔ Lacks dots name
unfolding check_log_name
check_log_name_iff name =
    let search = find_text-none_iff name dots in
    ((λ passed. search.0 (ground arith)), (λ lacks. let e = search.1 lacks in ground arith))

-- The stream of the log is open, and its name has no "..".
pub record IsSound (log : LogDescription) : Type 0 where
  pub is_open : log.is_open ≡ true
  pub named : Lacks dots log.name

abbrev pub AllSound : List LogDescription → Type 0
AllSound logs = All IsSound logs

-- The call comes back, and the logs that it leaves are sound.
abbrev pub Comes : Run Cleaned → Type 0
Comes m = (c : Cleaned) × (m ≡ returns c) × AllSound c.logs

pub cleanup_open :
    (wait : WaitResult) (log : LogDescription)
    → log.is_open ≡ true
    → cleanup wait log ≡ returns (closed log, killed_by wait log)
unfolding cleanup
cleanup_open wait log h = rw h

start_reading_log-AllSound :
    (result : OpenResult) (now : Time) (id : ℕ) (name : List ℕ) (logs : List LogDescription)
    → Lacks dots name
    → AllSound logs
    → AllSound (start_reading_log result now id name logs).0
unfolding start_reading_log open_log
start_reading_log-AllSound (opened fd) now id name logs safe sound =
    All-append logs _ IsSound (record { is_open = refl; named = safe }, tt) sound
start_reading_log-AllSound no_file now id name logs safe sound = sound
start_reading_log-AllSound no_stream now id name logs safe sound = sound

stop_reading_log-Comes :
    (wait : ℕ → WaitResult) (id : ℕ) (name : List ℕ) (logs : List LogDescription)
    → AllSound logs
    → Comes (stop_reading_log wait id name logs)
unfolding stop_reading_log
stop_reading_log-Comes wait id name [] sound = (_, refl, tt)
stop_reading_log-Comes wait id name (log ∷ logs) sound =
    let ih = stop_reading_log-Comes wait id name logs sound.1 in
    let now = cleanup_open (wait log.fd) log sound.0.is_open in
    elim (Bool-cases (is_request id name log)) [
      | inl hit ↦ (
        record { logs = logs; killed = noted (killed_by (wait log.fd) log) [] },
        rw (hit, now) refl,
        sound.1,
      )
      | inr miss ↦ (
        record { logs = log ∷ ih.0.logs; killed = ih.0.killed },
        rw (miss, ih.1) refl,
        (sound.0, ih.2),
      )
    ]

delete_requests_from_client-Comes :
    (wait : ℕ → WaitResult) (id : ℕ) (logs : List LogDescription)
    → AllSound logs
    → Comes (delete_requests_from_client wait id logs)
unfolding delete_requests_from_client
delete_requests_from_client-Comes wait id [] sound = (_, refl, tt)
delete_requests_from_client-Comes wait id (log ∷ logs) sound =
    let ih = delete_requests_from_client-Comes wait id logs sound.1 in
    let now = cleanup_open (wait log.fd) log sound.0.is_open in
    elim (Bool-cases (log.client_id == id)) [
      | inl hit ↦ (
        record ih.0 { killed = noted (killed_by (wait log.fd) log) ih.0.killed },
        rw (hit, now, ih.1) refl,
        ih.2,
      )
      | inr miss ↦ (
        record { logs = log ∷ ih.0.logs; killed = ih.0.killed },
        rw (miss, ih.1) refl,
        (sound.0, ih.2),
      )
    ]

perform-Comes :
    (ev : Answers) (id : ℕ) (message name : List ℕ) (logs : List LogDescription)
    → Lacks dots name
    → AllSound logs
    → Comes (perform ev id message name logs)
unfolding perform
perform-Comes ev id message name logs safe sound =
    elim (Bool-cases (starts_with message add_action)) [
      | inl add ↦ (
        record { logs = (start_reading_log ev.result ev.now id name logs).0; killed = [] },
        rw add refl,
        start_reading_log-AllSound ev.result ev.now id name logs safe sound,
      )
      | inr other ↦ elim (Bool-cases (starts_with message del_action)) [
        | inl del ↦
            let stopped = stop_reading_log-Comes ev.wait id name logs sound in
            (stopped.0, rw (other, del) stopped.1, stopped.2)
        | inr neither ↦ (record { logs = logs; killed = [] }, rw (other, neither) refl, sound)
      ]
    ]

-- From logs with open streams and names without "..", OnMessage always comes back, whatever the
-- message and whatever the system answers, and leaves logs with open streams and such names.
pub on_message-AllSound :
    (ev : Answers) (id : ℕ) (message : List ℕ) (logs : List LogDescription)
    → AllSound logs
    → Comes (on_message ev id message logs)
unfolding on_message
on_message-AllSound ev id message logs sound = elim (Bool-cases (check_log_name message)) [
  | inr refused ↦ (record { logs = logs; killed = [] }, rw refused refl, sound)
  | inl passed ↦
      let safe = (check_log_name_iff message).0 passed in
      elim (Option-cases (find_text message (32 ∷ []))) [
        | inl e ↦ (record { logs = logs; killed = [] }, rw (passed, e, on_message) refl, sound)
        | inr (at, e) ↦
            let done =
              perform-Comes ev id message (drop (at + 1) message) logs
                (Lacks-drop dots message (at + 1) safe) sound in
            (done.0, rw (passed, e, on_message) done.1, done.2)
      ]
]
