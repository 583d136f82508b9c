-- ===== src/Examples/Logs.antt =====
-- Two clients that follow logs, and what their messages do.
use extension_project.Prelude.{
  ◌*◌, ◌≤◌, ◌+◌, arith, ℕ, ◌≡◌, ◌≢◌, ◌↔◌, refl, inr, List, [], ◌∷◌, ◌++◌, true, false, none, some,
  codes, All, Lacks, find_text, find_text-none_iff,
}
use extension_project.WebSocket.Types.{returns}
use extension_project.LogServer.Description.{
  with_text, next_time, end_of_file, open_tail, retry_line, send_interval, LogDescription, Time,
  opened, gone, running, LineEvents, Line, line_read, tailing, get_next_line,
}
use extension_project.LogServer.Requests.{
  Answers, Cleaned, on_message, delete_requests_from_client, add_action, del_action,
}
use extension_project.LogServer.Round.{Events}
use extension_project.LogServer.Names.{AllSound, Comes, dots, on_message-AllSound}
use extension_project.LogServer.Effects.{
  of_client, AllOpen, IsTakenOut, delete_requests_from_client-of_client, on_message-add,
  on_message-del,
}
use extension_project.LogServer.Rounds.{IsCalm}
use extension_project.LogServer.Kills.{has_every, delete_requests_from_client-kills}
use extension_project.LogServer.Tail.{child, Fails, by_child, IsLost, line_in, failed_read-IsLost}
use extension_project.LogServer.Pace.{Reads, no_reads, reads_line, Reads-paced}
use extension_project.LogServer.Streams.{nanoseconds, IsNext, get_next_line_lem}

abbrev noon : Time
noon = record { sec = 43200; nsec = 999999999 }

abbrev log_of : ℕ → List ℕ → ℕ → LogDescription
log_of client_id name fd = record {
  name = name;
  fd = fd;
  is_open = true;
  tail_pid = none;
  client_id = client_id;
  next_send_time = noon;
}

abbrev web : List ℕ
web = codes "/var/log/web"

abbrev mail : List ℕ
mail = codes "/var/log/mail"

abbrev logs : List LogDescription
logs = log_of 1 web 7 ∷ log_of 2 web 8 ∷ log_of 1 mail 9 ∷ []

find_text-Lacks : (text : List ℕ) → find_text text dots ≡ none → Lacks dots text
find_text-Lacks text e = (find_text-none_iff text dots).0 e

all_sound : AllSound logs
all_sound = (
  record { is_open = refl; named = find_text-Lacks web refl },
  (
    record { is_open = refl; named = find_text-Lacks web refl },
    (record { is_open = refl; named = find_text-Lacks mail refl }, tt),
  ),
)

all_open : AllOpen logs
all_open = (refl, (refl, (refl, tt)))

abbrev answers : Answers
answers = record { result = opened 12; now = noon; wait = λ fd. gone }

on_message-AllSound_example : Comes (on_message answers 2 (codes "add /var/log/mail") logs)
on_message-AllSound_example =
    on_message-AllSound answers 2 (codes "add /var/log/mail") logs all_sound

delete_requests_from_client-of_client_example :
    (c : Cleaned) × (delete_requests_from_client (λ fd. gone) 1 logs ≡ returns c)
    × (of_client 1 c.logs ≡ [])
    × ((j : ℕ) → j ≢ 1 → of_client j c.logs ≡ of_client j logs)
delete_requests_from_client-of_client_example =
    delete_requests_from_client-of_client (λ fd. gone) 1 logs all_open

one_word : (word : List ℕ) → find_text word (32 ∷ []) ≡ none → Lacks (32 ∷ []) word
one_word word e = (find_text-none_iff word (32 ∷ [])).0 e

on_message-add_example :
    ((fd : ℕ)
      → opened 12 ≡ opened fd
      → on_message answers 2 (add_action ++ 32 ∷ mail) logs
        ≡ returns (record { logs = logs ++ log_of 2 mail fd ∷ []; killed = [] }))
    × (((fd : ℕ) → opened 12 ≢ opened fd)
        → on_message answers 2 (add_action ++ 32 ∷ mail) logs
          ≡ returns (record { logs = logs; killed = [] }))
on_message-add_example =
    on_message-add answers 2 add_action mail logs (one_word add_action refl)
      (find_text-Lacks (add_action ++ 32 ∷ mail) refl) refl

on_message-del_example :
    (c : Cleaned) × (on_message answers 1 (del_action ++ 32 ∷ mail) logs ≡ returns c)
    × IsTakenOut 1 mail logs c.logs
on_message-del_example =
    on_message-del answers 1 del_action mail logs (one_word del_action refl)
      (find_text-Lacks (del_action ++ 32 ∷ mail) refl) refl refl all_open

abbrev lines : LineEvents
lines = record { first = none; tail = tailing 77 20; retry = some web; wait = gone; now = noon }

abbrev events : Events
events = record {
  readable = λ fd. true;
  exceptional = λ fd. false;
  wait = λ fd. gone;
  line = λ fd. lines;
}

logs-IsCalm : All (IsCalm events) logs
logs-IsCalm =
    (inr (refl, (77, 20, refl)), (inr (refl, (77, 20, refl)), (inr (refl, (77, 20, refl)), tt)))

-- The child of the fork, in which execvp comes back.
web_child-Fails : Fails (log_of 1 web 7) lines (child true)
unfolding extension_project.LogServer.Tail.open_tail_child
web_child-Fails = by_child true refl (λ same. cc same)

failed_read-IsLost_example :
    (line : Line) × (line_in (child true) lines (log_of 1 web 7) ≡ returns (some line))
    × IsLost line
failed_read-IsLost_example =
    failed_read-IsLost (child true) lines (log_of 1 web 7) refl refl web_child-Fails

get_next_line_lem_example :
    (line : Line) × (get_next_line lines (log_of 1 web 7) ≡ returns line)
    × (line.log.is_open ≡ true)
    × (line.text ≡ some web)
    × (line.log.tail_pid ≡ some 77)
    × ((line.code ≡ line_read) ↔ (line.text ≢ none))
    × ((line.text ≢ none) → IsNext noon line.log.next_send_time)
get_next_line_lem_example = get_next_line_lem lines (log_of 1 web 7) 77 20 refl refl refl

-- The file's end first, then a line of `tail`.
abbrev later : Time
later = record { sec = 43202; nsec = 0 }

abbrev second_lines : LineEvents
second_lines = record lines { first = some mail; now = later }

abbrev first_line : Line
first_line =
    with_text noon web (record (log_of 1 web 7) { tail_pid = some 77; fd = 20; is_open = true })

abbrev second_line : Line
second_line = with_text later mail first_line.log

two_lines-Reads : Reads (log_of 1 web 7) second_line.log (later ∷ noon ∷ [])
unfolding get_next_line end_of_file open_tail retry_line next_time
two_lines-Reads =
    reads_line second_lines second_line
      (reads_line lines first_line no_reads (omega arith) refl refl) (omega arith) refl refl

Reads-paced_example : nanoseconds noon + 1 * send_interval ≤ nanoseconds later
Reads-paced_example = Reads-paced (log_of 1 web 7) second_line.log later (noon ∷ []) two_lines-Reads

-- The first client disconnects, while the `tail` of another log runs.
delete_requests_from_client-kills_example :
    (c : Cleaned) × (delete_requests_from_client (λ fd. running) 1 logs ≡ returns c)
    × (has_every c.killed ≡ true)
delete_requests_from_client-kills_example =
    delete_requests_from_client-kills (λ fd. running) 1 logs (refl, (refl, (refl, tt)))
