-- ===== src/Client/Buffer.antt =====
-- The input buffer of a client: the bytes that have come in and are not yet used up.
use extension_project.Prelude.{
  ℕ, ◌+◌, ◌-◌, ◌≤◌, ◌≡◌, refl, sym, ◌∙◌, List, ◌++◌, arith, length, take, drop, overwrite,
  length-take, length-drop, length-write_at, length-overwrite, take-overwrite, take-write_at,
  take-drop, le→ltb_false,
}
use extension_project.WebSocket.Types.{returns}
use extension_project.WebSocket.Frame.{slice}
use extension_project.Client.{Client, buf_len, send_buf_len, append_input, consume}

-- The sizes of the arrays, and how far the input may reach.
pub record IsValid (client : Client) : Type 0 where
  pub frame_size : length client.frame_buf ≡ buf_len + 1
  pub send_size : length client.send_buf ≡ send_buf_len + 1
  pub within : client.frame_buf_pos ≤ buf_len

abbrev pub pending : Client → List ℕ
pending client = take client.frame_buf_pos client.frame_buf

pub length-pending :
    {client : Client} → IsValid client → length (pending client) ≡ client.frame_buf_pos
length-pending {client} v = omega (arith, length-take client.frame_buf_pos client.frame_buf)

-- Bytes that fit go behind those that are there.
pub append_input-pending :
    (bytes : List ℕ) {client : Client}
    → IsValid client
    → client.frame_buf_pos + length bytes ≤ buf_len
    → (pending (append_input bytes client) ≡ pending client ++ bytes)
      × IsValid (append_input bytes client)
unfolding append_input
append_input-pending bytes {client} v fits =
    let n : ℕ = client.frame_buf_pos in
    (
      take-write_at (n + length bytes) n client.frame_buf bytes refl (omega arith),
      record {
        frame_size = omega (arith, length-write_at client.frame_buf n bytes);
        send_size = v.send_size;
        within = fits;
      },
    )

-- What is used up goes from the front.
pub consume-pending :
    (n : ℕ) {client : Client}
    → IsValid client
    → n ≤ client.frame_buf_pos
    → (client' : Client) × (consume n client ≡ returns client')
      × (pending client' ≡ drop n (pending client))
      × IsValid client'
      × (client'.frame_buf_pos ≡ client.frame_buf_pos - n)
unfolding consume
consume-pending n {client} v fits =
    let buf : List ℕ = client.frame_buf in
    let left : ℕ = client.frame_buf_pos - n in
    let kept : List ℕ = slice n left buf in
    let count : length kept ≡ left =
      omega (arith, length-take left (drop n buf), length-drop n buf) in
    (
      record client { frame_buf = overwrite buf kept; frame_buf_pos = left },
      rw (le→ltb_false client.frame_buf_pos n fits),
      take-overwrite left buf kept (sym count) (omega arith)
          ∙ take-drop n left client.frame_buf_pos buf (omega arith),
      record {
        frame_size = omega (arith, length-overwrite buf kept);
        send_size = v.send_size;
        within = omega arith;
      },
      refl,
    )
