-- ===== src/WebSocket/Handshake.antt =====
-- cwebsocket/websocket.c: nullHandshake, freeHandshake, getUptoLinefeed and wsParseHandshake.
-- A pointer into the request is the text from there on.
pub mod Lines
pub mod Texts
pub mod Requests
pub mod Rule
pub mod Accepts
pub mod Failures
use extension_project.Prelude.{
  ℕ, zero, suc, ◌+◌, ◌%◌, Bool, true, false, not, ◌&&◌, ◌||◌, List, [], ◌∷◌, Option, none, some,
  ltb, ◌==◌, if◌then◌else◌, length, take, drop, codes, c_string, starts_with, find_text, to_lower,
  skip_spaces, word,
}
use extension_project.WebSocket.Types.{
  FrameType, empty_frame, error_frame, incomplete_frame, opening_frame, Run, returns, hangs, ◌>>=◌,
  ◌>>◌, assert, write_into, found,
}
use mathlib.Core.List.{map}
use extension_project.WebSocket.Names
use extension_project.WebSocket.Names.{upgrade_word, websocket_word, version_word, crlf}

-- `struct handshake`: a null pointer is `none`.
pub record Handshake : Type 0 where
  pub host : Option (List ℕ)
  pub origin : Option (List ℕ)
  pub key : Option (List ℕ)
  pub resource : Option (List ℕ)
  pub frame_type : FrameType

unfoldable pub null_handshake : Handshake
null_handshake = record {
  host = none;
  origin = none;
  key = none;
  resource = none;
  frame_type = empty_frame;
}

-- The four blocks go back to the heap, and the pointers to null.
unfoldable pub free_handshake : Handshake → Handshake
unfolding null_handshake
free_handshake hs = null_handshake

-- getUptoLinefeed: the length of the value is kept in a `uint8_t`.
unfoldable pub get_upto_linefeed : List ℕ → Run (List ℕ)
get_upto_linefeed start_from = do
  at ← found (find_text start_from crlf)
  let new_length = at % 256
  assert (ltb 0 new_length)
  returns (take new_length start_from)

-- The flags of the loop over the header lines.
pub record Flags : Type 0 where
  pub connection : Bool
  pub upgrade : Bool
  pub subprotocol : Bool
  pub version_mismatch : Bool

abbrev pub no_flags : Flags
no_flags = record {
  connection = false;
  upgrade = false;
  subprotocol = false;
  version_mismatch = false;
}

-- What one round of the loop leaves: the pointer into the line, the handshake and the flags.
pub record Scan : Type 0 where
  pub input : List ℕ
  pub hs : Handshake
  pub flags : Flags

abbrev pub past : List ℕ → List ℕ → List ℕ
past name input = drop (length name) input

-- The chain of `if`s on the name that a line begins with.
unfoldable pub header_line : Handshake → Flags → List ℕ → Run Scan
unfolding get_upto_linefeed
header_line hs flags input =
    if starts_with input Names.host
    then (get_upto_linefeed (past Names.host input) >>= λ value. returns (record {
      input = past Names.host input;
      hs = record hs { host = some value };
      flags = flags;
    }))
    else if starts_with input Names.origin
    then (get_upto_linefeed (past Names.origin input) >>= λ value. returns (record {
      input = past Names.origin input;
      hs = record hs { origin = some value };
      flags = flags;
    }))
    else if starts_with input Names.protocol
    then returns (record {
      input = past Names.protocol input;
      hs = hs;
      flags = record flags { subprotocol = true };
    })
    else if starts_with input Names.key
    then (get_upto_linefeed (past Names.key input) >>= λ value. returns (record {
      input = past Names.key input;
      hs = record hs { key = some value };
      flags = flags;
    }))
    else if starts_with input Names.version
    then (get_upto_linefeed (past Names.version input) >>= λ value. returns (record {
      input = past Names.version input;
      hs = hs;
      flags =
          if starts_with value version_word
          then flags
          else record flags { version_mismatch = true };
    }))
    else if starts_with input Names.connection
    then (get_upto_linefeed (past Names.connection input) >>= λ value. returns (record {
      input = past Names.connection input;
      hs = hs;
      flags = elim (find_text (map to_lower value) upgrade_word) [
        | none ↦ flags
        | some at ↦ record flags { connection = true }
      ];
    }))
    else if starts_with input Names.upgrade
    then (get_upto_linefeed (past Names.upgrade input) >>= λ value. returns (record {
      input = past Names.upgrade input;
      hs = hs;
      flags =
          if starts_with (map to_lower value) websocket_word
          then record flags { upgrade = true }
          else flags;
    }))
    else returns (record { input = input; hs = hs; flags = flags })

-- `inputPtr = strstr(inputPtr, "\r\n") + 2`
unfoldable pub next_line : List ℕ → Run (List ℕ)
next_line input = do at ← found (find_text input crlf); returns (drop (at + 2) input)

-- The loop's condition. The text ends where the input does, or with a 0 in front of that.
abbrev pub more_lines : List ℕ → Bool
more_lines [] = false
more_lines (a ∷ []) = not (a == 13)
more_lines (a ∷ b ∷ rest) = not (a == 13) && not (b == 10)

-- The loop, one unit of fuel for a line.
unfoldable pub header_lines : ℕ → Handshake → Flags → List ℕ → Run (Handshake × Flags)
header_lines zero hs flags input = hangs
header_lines (suc fuel) hs flags input =
    let rest = (do
      scan ← header_line hs flags input
      input' ← next_line scan.input
      header_lines fuel scan.hs scan.flags input') in
    if more_lines input then rest else returns (hs, flags)

abbrev pub is_null : Option (List ℕ) → Bool
is_null none = true
is_null (some text) = false

-- The check behind the loop.
unfoldable pub verdict : Handshake → Flags → FrameType
verdict hs flags =
    if is_null hs.host
      || (is_null hs.key
          || (not flags.connection
              || (not flags.upgrade || (flags.subprotocol || flags.version_mismatch))))
    then error_frame
    else opening_frame

-- What a call leaves: the type returned, the handshake, and the frame's length if it is written.
pub record Opening : Type 0 where
  pub frame_type : FrameType
  pub hs : Handshake
  pub frame_length : Option ℕ

-- From the resource on: `room` bytes lie between the first two spaces, and `sscanf` writes the
-- word behind "GET " there with a 0 at its end.
unfoldable pub parse_request : List ℕ → ℕ → ℕ → Handshake → Run Opening
unfolding verdict
parse_request text frame_length room hs = do
  let resource = word (skip_spaces (drop 4 text))
  write_into room (length resource)
  let hs' = record hs { resource = some resource }
  if length resource == 0
      then returns (record { frame_type = error_frame; hs = hs'; frame_length = some frame_length })
      else (do
        input ← next_line text
        (hs'', flags) ← header_lines (suc (length text)) hs' no_flags input
        returns (record {
          frame_type = verdict hs'' flags;
          hs = record hs'' { frame_type = verdict hs'' flags };
          frame_length = some frame_length;
        }))

-- wsParseHandshake
unfoldable pub parse_handshake : List ℕ → Handshake → Run Opening
parse_handshake input hs =
    let text = c_string input in
    elim (find_text text (13 ∷ 10 ∷ 13 ∷ 10 ∷ [])) [
      | none ↦ returns (record { frame_type = incomplete_frame; hs = hs; frame_length = none })
      | some frame_end ↦
          if not (starts_with text (codes "GET "))
          then returns
              (record { frame_type = error_frame; hs = hs; frame_length = some (frame_end + 4) })
          else elim (find_text (drop 4 text) (32 ∷ [])) [
            | none ↦
                returns (record {
                  frame_type = error_frame;
                  hs = hs;
                  frame_length = some (frame_end + 4);
                })
            | some room ↦ parse_request text (frame_end + 4) room hs
          ]
    ]
