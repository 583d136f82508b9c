-- ===== src/Examples/Data.antt =====
-- Concrete parameters and clients, which the examples share.
use extension_project.Prelude.{
  ℕ, ◌≡◌, refl, List, [], ◌∷◌, true, some, arith, replicate, length, length-replicate,
}
use extension_project.WebSocket.Rfc.{Key}
use extension_project.WebSocket.Answer.{Crypto}
use extension_project.Client.{Client, Round, wrote}
use extension_project.Client.Buffer.{IsValid}

-- A hash and an encoding of the right sizes.
abbrev pub crypto : Crypto
crypto = record {
  sha1 = λ message bits. replicate 20 7;
  base64enc = λ bytes. replicate 28 65;
  length-sha1 = λ message bits. refl;
  length-base64enc = λ bytes h. refl;
}

unfoldable pub zeros : ℕ → List ℕ
zeros n = replicate n 0

pub length-zeros : (n : ℕ) → length (zeros n) ≡ n
unfolding zeros
length-zeros n = length-replicate n 0

abbrev pub open_client : Client
open_client = record {
  id = some 3;
  socket = some 5;
  frame_buf = zeros 8193;
  send_buf = zeros 16001;
  frame_buf_pos = 0;
  handshaked = true;
  sent = [];
}

pub open_client-IsValid : IsValid open_client
open_client-IsValid = record {
  frame_size = length-zeros 8193;
  send_size = length-zeros 16001;
  within = omega arith;
}

abbrev pub key : Key
key = record { k0 = 1; k1 = 2; k2 = 3; k3 = 4 }

abbrev pub hi : List ℕ
hi = 0x48 ∷ 0x69 ∷ []

abbrev pub ready : Round
ready = record { writable = true; readable = true; write = wrote }
