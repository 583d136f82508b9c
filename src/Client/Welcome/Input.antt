-- ===== src/Client/Welcome/Input.antt =====
-- Client::Handshake: the input with the 0 behind it, and what Receive makes of the code.
use extension_project.Prelude.{
  ℕ, suc, ◌+◌, ◌≤◌, ◌≡◌, refl, ◌∙◌, ap, List, ◌∷◌, ◌++◌, none, false, length, drop, set, arith,
  length-set, if◌then◌else◌, if_false,
}
use extension_project.WebSocket.Types.{returns}
use extension_project.WebSocket.Handshake.{null_handshake, Opening, parse_handshake}
use extension_project.WebSocket.Answer.{Crypto}
use extension_project.Client.{
  Client, buf_len, Round, got, append_input, handshake_succeed, handshake_failed,
  waiting_for_more_data, Code, is_error,
}
use extension_project.Client.Buffer.{IsValid, pending, append_input-pending}
use extension_project.Client.Receive.{receive, receive_handshake, handshake, handshake_reply}
use extension_project.Client.Welcome.{set-take, take-set}

module _ (client : Client) (bytes : List ℕ) where
  -- The client with the input and a 0 behind it.
  abbrev pub ended : Client
  ended =
      let read = append_input bytes client in
      record read { frame_buf = set read.frame_buf read.frame_buf_pos 0 }

  pub ended-others : (ended.sent ≡ client.sent) × (ended.id ≡ client.id)
  unfolding append_input
  ended-others = (refl, refl)

  module _ (v : IsValid client) (fits : client.frame_buf_pos + length bytes ≤ buf_len) where
    pub ended-IsValid : IsValid ended
    ended-IsValid =
        let read : Client = append_input bytes client in
        let valid = (append_input-pending bytes v fits).1 in
        record {
          frame_size = length-set read.frame_buf read.frame_buf_pos 0 ∙ valid.frame_size;
          send_size = valid.send_size;
          within = valid.within;
        }

    -- The input, and the text that is parsed.
    pub ended-pending : pending ended ≡ pending client ++ bytes
    ended-pending =
        let read : Client = append_input bytes client in
        take-set read.frame_buf_pos read.frame_buf ∙ (append_input-pending bytes v fits).0

    pub ended-frame_buf :
        (other : List ℕ) × (ended.frame_buf ≡ (pending client ++ bytes) ++ 0 ∷ other)
    ended-frame_buf =
        let read : Client = append_input bytes client in
        let (came, valid) = append_input-pending bytes v fits in
        (
          drop (suc read.frame_buf_pos) read.frame_buf,
          set-take read.frame_buf_pos read.frame_buf (omega (arith, valid.within, valid.frame_size))
              ∙ ap (λ p. p ++ 0 ∷ drop (suc read.frame_buf_pos) read.frame_buf) came,
        )

module _ (c : Crypto) (rounds : List Round) (client : Client) (bytes : List ℕ) where
  pub handshake-ended :
      (o : Opening)
      → parse_handshake (ended client bytes).frame_buf null_handshake ≡ returns o
      → handshake c (got bytes) rounds client
        ≡ handshake_reply c rounds o o.frame_type (ended client bytes)
  unfolding handshake
  handshake-ended o e = rw e

  pub receive_reply :
      (code : Code) (client' : Client) (len : ℕ)
      → client.handshaked ≡ false
      → handshake c (got bytes) rounds client ≡ returns (code, client')
      → receive c (got bytes) rounds len client
        ≡ returns (record {
          code =
              if is_error code
              then handshake_failed
              else if client'.handshaked
              then handshake_succeed
              else waiting_for_more_data;
          client = client';
          message = none;
        })
  unfolding receive receive_handshake
  receive_reply code client' len new e = if_false _ _ new ∙ rw e
