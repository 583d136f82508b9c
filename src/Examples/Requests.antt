-- ===== src/Examples/Requests.antt =====
-- An opening request, what wsParseHandshake makes of it, and of some that it does not survive.
use extension_project.Prelude.{
  ℕ, ◌≡◌, ◌≤◌, ◌<◌, refl, List, [], ◌∷◌, ◌++◌, All, true, false, some, none, codes, length,
  write_at, arith,
}
use extension_project.WebSocket.Types.{returns, aborts, corrupts, opening_frame}
use extension_project.WebSocket.Request.{
  Header, host, connection, upgrade, other, version, request_text, response_text, IsFine,
  IsResource, IsValue, IsClean, IsOther, last_key,
}
use extension_project.WebSocket.Request
use extension_project.WebSocket.Handshake.{Handshake, parse_handshake, null_handshake}
use extension_project.WebSocket.Handshake.Failures.{
  parse_handshake-aborts, parse_handshake-corrupts,
}
use extension_project.WebSocket.Handshake.Texts.{IsFine-IsLine}
use extension_project.WebSocket.Answer.{get_handshake_answer}
use extension_project.WebSocket.Answer.Keys.{accept_of, get_handshake_answer_lem}
use extension_project.Client.{Client, got, handshake_succeed}
use extension_project.Client.Receive.{Received, receive}
use extension_project.Client.Buffer.{IsValid}
use extension_project.Client.Welcome.{IsWelcome}
use extension_project.Client.Welcome.Reply.{receive-IsWelcome, receive-IsRefused}
use extension_project.Client.Welcome.Refusals.{IsRefused, receive_waits}
use extension_project.Client.{write_rounds, to_write, waiting_for_more_data}
use extension_project.Client.Buffer.{pending}
use extension_project.Prelude.{◌+◌}
use extension_project.Examples.Data.{crypto, zeros, open_client, open_client-IsValid, ready}

abbrev pub resource : List ℕ
resource = codes "/log"

abbrev pub headers : List Header
headers =
    host (codes "h")
    ∷ Request.key (codes "abc")
    ∷ upgrade (codes "WebSocket")
    ∷ connection (codes "Upgrade")
    ∷ version (codes "13")
    ∷ other (codes "Accept: *")
    ∷ []

pub resource-IsResource : IsResource resource
resource-IsResource = record {
  clean = ground arith;
  no_space = ground arith;
  some_text = omega arith;
}

accept_line-IsOther : IsOther (codes "Accept: *")
accept_line-IsOther = record {
  clean = ground arith;
  some_text = omega arith;
  no_host = refl;
  no_origin = refl;
  no_protocol = refl;
  no_key = refl;
  no_version = refl;
  no_connection = refl;
  no_upgrade = refl;
}

pub headers-IsFine : All IsFine headers
headers-IsFine = (
  record { clean = ground arith; some_text = omega arith; fits = omega arith },
  (
    record { clean = ground arith; some_text = omega arith; fits = omega arith },
    (
      record { clean = ground arith; some_text = omega arith; fits = omega arith },
      (
        record { clean = ground arith; some_text = omega arith; fits = omega arith },
        (
          record { clean = ground arith; some_text = omega arith; fits = omega arith },
          (accept_line-IsOther, tt),
        ),
      ),
    ),
  ),
)

parse_handshake-aborts_example :
    parse_handshake
      (request_text resource (headers ++ Request.key [] ∷ headers) (7 ∷ []))
      null_handshake
    ≡ aborts
parse_handshake-aborts_example =
    parse_handshake-aborts resource headers (Request.key []) headers (7 ∷ []) resource-IsResource
      headers-IsFine (tt, refl) (IsFine-IsLine headers headers-IsFine)

parse_handshake-corrupts_example :
    parse_handshake (request_text (32 ∷ resource) headers (7 ∷ [])) null_handshake ≡ corrupts
parse_handshake-corrupts_example =
    parse_handshake-corrupts resource headers (7 ∷ []) resource-IsResource
      (IsFine-IsLine headers headers-IsFine)

abbrev opening : Handshake
opening = record {
  host = some (codes "h");
  origin = none;
  key = some (codes "abc");
  resource = some resource;
  frame_type = opening_frame;
}

get_handshake_answer_lem_example :
    (length (codes "abc") ≤ 219
      → 129 ≤ 8192
      → get_handshake_answer crypto opening (zeros 8193) 8192
        ≡ returns (
          129,
          write_at (zeros 8193) 0 (response_text (accept_of crypto (codes "abc")) ++ 0 ∷ []),
        ))
    × (220 ≤ length (codes "abc")
        → length (codes "abc") ≤ 255
        → 0 < 8192
        → get_handshake_answer crypto opening (zeros 8193) 8192 ≡ corrupts)
get_handshake_answer_lem_example =
    get_handshake_answer_lem crypto opening (codes "abc") (zeros 8193) 8192 refl refl

abbrev new_one : Client
new_one = record open_client { handshaked = false }

new_one-IsValid : IsValid new_one
new_one-IsValid = record {
  frame_size = open_client-IsValid.frame_size;
  send_size = open_client-IsValid.send_size;
  within = omega arith;
}

abbrev bytes : List ℕ
bytes = request_text resource headers [] ++ 7 ∷ []

receive-IsWelcome_example :
    (r : Received) × (receive crypto (got bytes) (ready ∷ []) 2048 new_one ≡ returns r)
    × (r.code ≡ handshake_succeed)
    × (r.message ≡ none)
    × (r.client.handshaked ≡ true)
    × IsWelcome (response_text (accept_of crypto (codes "abc"))) (7 ∷ []) new_one r.client
unfolding extension_project.Client.write_rounds
receive-IsWelcome_example =
    receive-IsWelcome crypto (ready ∷ []) new_one new_one-IsValid bytes resource (7 ∷ []) headers
      (omega arith) refl resource-IsResource headers-IsFine (codes "abc") 2048 refl refl refl
      (omega arith) refl

abbrev host_only : List Header
host_only = host (codes "h") ∷ []

receive-IsRefused_example :
    (r : Received) × (receive crypto
        (got (request_text resource host_only []))
        (ready ∷ [])
        2048
        new_one
      ≡ returns r)
    × IsRefused new_one r
unfolding extension_project.Client.write_rounds
receive-IsRefused_example =
    receive-IsRefused crypto (ready ∷ []) new_one new_one-IsValid
      (request_text resource host_only []) resource [] host_only (omega arith) refl
      resource-IsResource
      (record { clean = ground arith; some_text = omega arith; fits = omega arith }, tt) 2048 refl
      refl refl

abbrev part : List ℕ
part = codes "GET /log"

receive_waits_example :
    (0 + length part < 8192
      → (client' : Client) × (receive crypto (got part) (ready ∷ []) 2048 new_one
          ≡ returns (record { code = waiting_for_more_data; client = client'; message = none }))
        × (pending client' ≡ part)
        × IsValid client'
        × (client'.sent ≡ [])
        × (client'.handshaked ≡ false))
    × (0 + length part ≡ 8192
        → write_rounds to_write (ready ∷ []) ≡ returns true
        → (r : Received) × (receive crypto (got part) (ready ∷ []) 2048 new_one ≡ returns r)
          × IsRefused new_one r)
receive_waits_example =
    receive_waits crypto (ready ∷ []) new_one part 2048 refl new_one-IsValid (omega arith)
      (ground arith) refl
