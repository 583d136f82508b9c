-- ===== src/LogServer/Requests.antt =====
-- log-server.cpp: class LogServer, the requests of its clients.
use extension_project.Prelude.{
  ℕ, ◌+◌, Bool, true, false, ◌&&◌, List, [], ◌∷◌, ◌++◌, Option, none, some, ◌==◌, if◌then◌else◌,
  drop, codes, starts_with, find_text, same_text,
}
use extension_project.WebSocket.Types.{Run, returns, ◌>>=◌}
use extension_project.LogServer.Description.{
  LogDescription, OpenResult, WaitResult, Victim, Time, open_log, cleanup,
}

abbrev pub add_action : List ℕ
add_action = codes "add"

abbrev pub del_action : List ℕ
del_action = codes "del"

-- CheckLogName: true for the value 0.
unfoldable pub check_log_name : List ℕ → Bool
check_log_name log_name = elim (find_text log_name (codes "..")) [ none ↦ true | some at ↦ false ]

-- StartReadingLog: the logs, and false for the value -1.
unfoldable pub start_reading_log :
    OpenResult → Time → ℕ → List ℕ → List LogDescription → List LogDescription × Bool
start_reading_log result now client_id log_name logs =
    elim (open_log result now log_name client_id) [
      | none ↦ (logs, false)
      | some log ↦ (logs ++ log ∷ [], true)
    ]

-- The logs that are left, and whom the clean-ups killed.
pub record Cleaned : Type 0 where
  pub logs : List LogDescription
  pub killed : List Victim

abbrev pub noted : Option Victim → List Victim → List Victim
noted none vs = vs
noted (some v) vs = v ∷ vs

abbrev pub is_request : ℕ → List ℕ → LogDescription → Bool
is_request client_id log_name log = log.client_id == client_id && same_text log.name log_name

-- StopReadingLog: the first log of that client and name goes.
unfoldable pub stop_reading_log : (ℕ → WaitResult) → ℕ → List ℕ → List LogDescription → Run Cleaned
stop_reading_log wait client_id log_name [] = returns (record { logs = []; killed = [] })
stop_reading_log wait client_id log_name (log ∷ logs) =
    let rest =
      (stop_reading_log wait client_id log_name logs >>= λ c.
      returns (record c { logs = log ∷ c.logs })) in
    if is_request client_id log_name log
    then (cleanup (wait log.fd) log >>= λ (log', killed).
        returns (record { logs = logs; killed = noted killed [] }))
    else rest

-- DeleteRequestsFromClient, which is all of OnDisconnect: every log of the client goes.
unfoldable pub delete_requests_from_client :
    (ℕ → WaitResult) → ℕ → List LogDescription → Run Cleaned
delete_requests_from_client wait client_id [] = returns (record { logs = []; killed = [] })
delete_requests_from_client wait client_id (log ∷ logs) =
    let keep =
      (delete_requests_from_client wait client_id logs >>= λ c.
      returns (record c { logs = log ∷ c.logs })) in
    let remove =
      (cleanup (wait log.fd) log >>= λ (log', killed).
      delete_requests_from_client wait client_id logs >>= λ c.
      returns (record c { killed = noted killed c.killed })) in
    if log.client_id == client_id then remove else keep

-- What the calls made under OnMessage answer.
pub record Answers : Type 0 where
  pub result : OpenResult
  pub now : Time
  pub wait : ℕ → WaitResult

abbrev pub unchanged : List LogDescription → Run Cleaned
unchanged logs = returns (record { logs = logs; killed = [] })

-- The word in front of the file's name.
unfoldable pub perform : Answers → ℕ → List ℕ → List ℕ → List LogDescription → Run Cleaned
perform ev client_id message file_name logs =
    if starts_with message add_action
    then unchanged (start_reading_log ev.result ev.now client_id file_name logs).0
    else if starts_with message del_action
    then stop_reading_log ev.wait client_id file_name logs
    else unchanged logs

-- OnMessage, of a client with an id and a message that holds no 0.
unfoldable pub on_message : Answers → ℕ → List ℕ → List LogDescription → Run Cleaned
on_message ev client_id message logs =
    if check_log_name message
    then elim (find_text message (32 ∷ [])) [
      | none ↦ unchanged logs
      | some at ↦ perform ev client_id message (drop (at + 1) message) logs
    ]
    else unchanged logs
