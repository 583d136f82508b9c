-- ===== src/WebSocket/Handshake/Accepts.antt =====
-- cwebsocket/websocket.c: which requests wsParseHandshake takes, and what it keeps of them.
use extension_project.Prelude.{
  c_string, suc, ap, ℕ, ◌≡◌, refl, ◌∙◌, ◌||◌, Option, none, some, List, [], ◌∷◌, All, length,
  if◌then◌else◌, if_true, arith,
}
use extension_project.WebSocket.Types.{returns, ◌>>=◌, opening_frame, error_frame}
use extension_project.WebSocket.Request.{
  Header, host, origin, protocol, key, version, connection, upgrade, other, request_text, IsFine,
  IsResource, last_host, last_key, says_connection, says_upgrade, forbids, any_header,
}
use extension_project.WebSocket.Handshake.Rule.{is_taken, IsRequest, IsRequest-is_taken}
use extension_project.WebSocket.Handshake.{
  Handshake, Flags, no_flags, null_handshake, Opening, parse_handshake, verdict,
}
use extension_project.WebSocket.Handshake.Lines.{
  after_handshake, after_flags, after_headers, header_lines-after_headers,
}
use extension_project.WebSocket.Handshake.Requests.{
  opened, closed_by, parse_handshake-closed_by, length-headers-lt,
}
use extension_project.WebSocket.Handshake.Texts.{IsFine-IsLine}

abbrev or_later : Option (List ℕ) → Option (List ℕ) → Option (List ℕ)
or_later before none = before
or_later before (some value) = some value

-- The lines one after another, on any handshake and flags.
record Sums (headers : List Header) (hs : Handshake) (flags : Flags) (out : Handshake × Flags)
    : Type 0 where
  host : out.0.host ≡ or_later hs.host (last_host headers)
  key : out.0.key ≡ or_later hs.key (last_key headers)
  resource : out.0.resource ≡ hs.resource
  connection : out.1.connection ≡ (flags.connection || any_header says_connection headers)
  upgrade : out.1.upgrade ≡ (flags.upgrade || any_header says_upgrade headers)
  forbidden :
      (out.1.subprotocol || out.1.version_mismatch)
      ≡ ((flags.subprotocol || flags.version_mismatch) || any_header forbids headers)

step-Sums :
    (h : Header) (headers : List Header) (hs : Handshake) (flags : Flags)
    → Sums headers
        (after_handshake h hs)
        (after_flags h flags)
        (after_headers headers (after_handshake h hs) (after_flags h flags))
    → Sums (h ∷ headers) hs flags (after_headers (h ∷ headers) hs flags)
step-Sums (host value) headers hs flags s = ground arith
step-Sums (origin value) headers hs flags s = ground arith
step-Sums (protocol value) headers hs flags s = ground arith
step-Sums (key value) headers hs flags s = ground arith
step-Sums (version value) headers hs flags s = ground arith
step-Sums (connection value) headers hs flags s = ground arith
step-Sums (upgrade value) headers hs flags s = ground arith
step-Sums (other line) headers hs flags s = ground arith

after_headers-Sums :
    (headers : List Header) (hs : Handshake) (flags : Flags)
    → Sums headers hs flags (after_headers headers hs flags)
after_headers-Sums [] hs flags = ground arith
after_headers-Sums (h ∷ headers) hs flags =
    step-Sums h headers hs flags
      (after_headers-Sums headers (after_handshake h hs) (after_flags h flags))

-- The handshake that is kept of a request, and the type that is returned.
pub record Parses (resource : List ℕ) (headers : List Header) (o : Opening) : Type 0 where
  pub frame_type : o.frame_type ≡ (if is_taken headers then opening_frame else error_frame)
  pub same_type : o.hs.frame_type ≡ o.frame_type
  pub frame_length : o.frame_length ≡ some (length (request_text resource headers []))
  pub resource_kept : o.hs.resource ≡ some resource
  pub host_kept : o.hs.host ≡ last_host headers
  pub key_kept : o.hs.key ≡ last_key headers
  pub opens : IsRequest headers → o.frame_type ≡ opening_frame

or_later-none : (later : Option (List ℕ)) → or_later none later ≡ later
or_later-none none = refl
or_later-none (some value) = refl

verdict_lem :
    (headers : List Header) (out : Handshake × Flags)
    → out.0.host ≡ last_host headers
    → out.0.key ≡ last_key headers
    → out.1.connection ≡ any_header says_connection headers
    → out.1.upgrade ≡ any_header says_upgrade headers
    → (out.1.subprotocol || out.1.version_mismatch) ≡ any_header forbids headers
    → verdict out.0 out.1 ≡ (if is_taken headers then opening_frame else error_frame)
unfolding verdict
verdict_lem headers out h k c u f = ground arith

pub parse_handshake-Parses :
    (resource : List ℕ) (headers : List Header) (rest : List ℕ)
    → IsResource resource
    → All IsFine headers
    → (o : Opening) × (parse_handshake (request_text resource headers rest) null_handshake
        ≡ returns o)
      × Parses resource headers o
unfolding null_handshake
parse_handshake-Parses resource headers rest r fine =
    let text : List ℕ = request_text resource headers (c_string rest) in
    let out = after_headers headers (opened resource) no_flags in
    let sums = after_headers-Sums headers (opened resource) no_flags in
    let h = sums.host ∙ or_later-none (last_host headers) in
    let k = sums.key ∙ or_later-none (last_key headers) in
    (
      record {
        frame_type = verdict out.0 out.1;
        hs = record out.0 { frame_type = verdict out.0 out.1 };
        frame_length = some (length (request_text resource headers []));
      },
      parse_handshake-closed_by resource headers r rest (IsFine-IsLine headers fine)
          ∙ ap (λ m. m >>= closed_by (length (request_text resource headers [])))
              (header_lines-after_headers (suc (length text)) headers (opened resource) no_flags
                (c_string rest) (length-headers-lt resource headers r (c_string rest)) fine),
      record {
        frame_type = verdict_lem headers out h k sums.connection sums.upgrade sums.forbidden;
        same_type = refl;
        frame_length = refl;
        resource_kept = sums.resource;
        host_kept = h;
        key_kept = k;
        opens = λ request.
            verdict_lem headers out h k sums.connection sums.upgrade sums.forbidden
            ∙ if_true _ _ (IsRequest-is_taken headers request);
      },
    )
