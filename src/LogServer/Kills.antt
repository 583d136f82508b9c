-- ===== src/LogServer/Kills.antt =====
-- log-server.cpp: whom the clean-ups of a disconnect kill.
use extension_project.Prelude.{
  ℕ, ◌≡◌, refl, inl, inr, Bool, true, false, ◌&&◌, ◌||◌, List, [], ◌∷◌, Option, none, some, arith,
  ◌==◌, Bool-cases,
}
use extension_project.WebSocket.Types.{returns}
use extension_project.LogServer.Description.{
  LogDescription, WaitResult, gone, running, Victim, process, every_process, killed_by,
}
use extension_project.LogServer.Requests.{Cleaned, delete_requests_from_client, noted}
use extension_project.LogServer.Names.{cleanup_open}
use extension_project.LogServer.Effects.{AllOpen}

abbrev pub has_every : List Victim → Bool
has_every [] = false
has_every (every_process ∷ victims) = true
has_every (process pid ∷ victims) = has_every victims

-- The file is read by the server itself, and waitpid(-1) finds a child that runs.
abbrev pub has_no_tail : Option ℕ → WaitResult → Bool
has_no_tail none running = true
has_no_tail none gone = false
has_no_tail (some pid) answer = false

abbrev pub any_followed : (ℕ → WaitResult) → ℕ → List LogDescription → Bool
any_followed wait id [] = false
any_followed wait id (log ∷ logs) =
    (log.client_id == id && has_no_tail log.tail_pid (wait log.fd)) || any_followed wait id logs

has_every-noted :
    (tail_pid : Option ℕ) (answer : WaitResult) (log : LogDescription) (victims : List Victim)
    → log.tail_pid ≡ tail_pid
    → has_every (noted (killed_by answer log) victims)
      ≡ (has_no_tail tail_pid answer || has_every victims)
has_every-noted none gone log victims e = refl
has_every-noted none running log victims e = ground arith
has_every-noted (some pid) gone log victims e = refl
has_every-noted (some pid) running log victims e = ground arith

-- DeleteRequestsFromClient on open logs comes back, and one of its clean-ups sends the signal to every
-- process just if the client follows a file that has no `tail` yet while a child of the server runs,
-- which may be the `tail` of any other log.
pub delete_requests_from_client-kills :
    (wait : ℕ → WaitResult) (id : ℕ) (logs : List LogDescription)
    → AllOpen logs
    → (c : Cleaned) × (delete_requests_from_client wait id logs ≡ returns c)
      × (has_every c.killed ≡ any_followed wait id logs)
unfolding delete_requests_from_client
delete_requests_from_client-kills wait id [] h = (record { logs = []; killed = [] }, refl, refl)
delete_requests_from_client-kills wait id (log ∷ logs) h =
    let (c, is_c, same) = delete_requests_from_client-kills wait id logs h.1 in
    elim (Bool-cases (log.client_id == id)) [
      | inl own ↦ (
        record c { killed = noted (killed_by (wait log.fd) log) c.killed },
        rw (own, cleanup_open (wait log.fd) log h.0, is_c) refl,
        ground (arith, has_every-noted log.tail_pid (wait log.fd) log c.killed refl),
      )
      | inr other ↦ (record c { logs = log ∷ c.logs }, rw (other, is_c) refl, ground arith)
    ]
