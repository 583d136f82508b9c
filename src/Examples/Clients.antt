-- ===== src/Examples/Clients.antt =====
-- A client that has shaken hands, and what Receive and Send do with it.
use extension_project.Prelude.{
  some, ℕ, ◌+◌, ◌≤◌, ◌≡◌, refl, inl, List, [], ◌∷◌, ◌++◌, true, false, arith, length, pos, negsuc,
}
use extension_project.WebSocket.Types.{returns, aborts}
use extension_project.WebSocket.Rfc.{client_frame, server_frame, length_bytes}
use extension_project.Client.{got, to_write, write_rounds, send, send_buf_len, append_input}
use extension_project.Client.Receive.{Received, receive}
use extension_project.Client.Delivery.{Delivered, receive-Delivered}
use extension_project.Client.Safety.{ComesValid, receive-ComesValid, receive_aborts}
use extension_project.Client.Overrun.{receive_corrupts}
use extension_project.WebSocket.Frame.{known_opcode}
use extension_project.WebSocket.Types.{binary_frame, corrupts}
use extension_project.Client.Sending.{Ends, write_rounds-Ends, send_lem}
use extension_project.Examples.Data.{
  ready, crypto, zeros, length-zeros, open_client, open_client-IsValid, key, hi,
}

abbrev input : List ℕ
input = client_frame 1 key hi ++ 7 ∷ []

short_input : 0 + length input ≤ 8192
unfolding client_frame length_bytes
short_input = omega arith

receive-Delivered_example :
    (r : Received) × (receive crypto (got input) [] 2048 open_client ≡ returns r)
    × Delivered 2048 hi (7 ∷ []) r
receive-Delivered_example =
    receive-Delivered crypto [] 2048 key hi (7 ∷ []) open_client open_client-IsValid refl
      (omega arith) (omega arith) (omega arith) (got input) input refl short_input refl

receive-ComesValid_example : ComesValid (receive crypto (got (zeros 20)) [] 2048 open_client)
receive-ComesValid_example =
    receive-ComesValid crypto (got (zeros 20)) [] 2048 open_client open_client-IsValid refl
      (omega (arith, length-zeros 20), omega (arith, length-zeros 20))

receive_aborts_example : receive crypto (got (0x81 ∷ 0x82 ∷ [])) [] 2048 open_client ≡ aborts
unfolding append_input zeros
receive_aborts_example =
    receive_aborts crypto (0x81 ∷ 0x82 ∷ []) [] 2048 2 open_client open_client-IsValid refl
      (omega arith) (omega arith) refl refl (omega arith) (omega arith) (omega arith)

known_binary : known_opcode 2 ≡ some binary_frame
unfolding known_opcode
known_binary = refl

receive_corrupts_example :
    receive crypto (got (0x82 ∷ 0xFE ∷ 0xFF ∷ 0xFF ∷ [])) [] 2048 open_client ≡ corrupts
unfolding append_input zeros
receive_corrupts_example =
    receive_corrupts crypto (0x82 ∷ 0xFE ∷ 0xFF ∷ 0xFF ∷ []) [] 2048 2 binary_frame open_client
      open_client-IsValid refl (omega arith) (omega arith) (omega arith) known_binary refl refl
      (omega arith) (omega arith)

write_rounds-Ends_example : Ends (write_rounds to_write (ready ∷ []))
write_rounds-Ends_example = write_rounds-Ends to_write (ready ∷ []) (inl (refl, refl, inl refl))

send_lem_example :
    (send_buf : List ℕ) × (write_rounds to_write (ready ∷ []) ≡ returns true
      → send (ready ∷ []) hi open_client
        ≡ returns
            (pos 0, record open_client { send_buf = send_buf; sent = server_frame 1 hi ∷ [] }))
    × (write_rounds to_write (ready ∷ []) ≡ returns false
        → send (ready ∷ []) hi open_client
          ≡ returns (negsuc 0, record open_client { send_buf = send_buf }))
    × (length send_buf ≡ send_buf_len + 1)
send_lem_example = send_lem (ready ∷ []) hi open_client open_client-IsValid (omega arith)
