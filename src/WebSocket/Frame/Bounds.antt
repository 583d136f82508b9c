-- ===== src/WebSocket/Frame/Bounds.antt =====
-- Where wsParseInputFrame stays within its input, and where it does not.
use extension_project.Prelude.{
  ℕ, ◌+◌, ◌-◌, ◌^◌, ◌≤◌, ◌<◌, ◌≡◌, refl, subst, ◌⊎◌, inl, inr, List, Option, none, some, ltb,
  sub_size, length, arith,
}
use extension_project.WebSocket.Types.{FrameType, error_frame, incomplete_frame, returns}
use extension_project.WebSocket.Frame.{
  parse_input_frame, parse_opcode, parse_payload, known_opcode, byte, Parsed, get_payload_length,
  Extent, PayloadField, rejected, unmask,
}
use extension_project.WebSocket.Ensures.{Ensures, Ensures-if, Ensures-returns, ComesBack-if}
use extension_project.WebSocket.Frame.Head.{parse_input_frame-Ensures, parse_input_frame-returns}
use extension_project.WebSocket.Frame.RoundTrip.{parse_input_frame_short}
use extension_project.WebSocket.Frame.Mask.{length-unmask, unmask_outside}

-- The data that an extent names ends with its frame.
abbrev pub EndsWithFrame : Extent → Type 0
EndsWithFrame e =
    ((e.data_start ≡ none) × (e.data_length ≡ 0))
    ⊎ ((e.data_start ≡ some (e.frame_length - e.data_length)) × (e.data_length ≤ e.frame_length))

extra_bytes-le :
    (input : List ℕ) (n : ℕ) (ty : FrameType) → (get_payload_length input n ty).extra_bytes ≤ 8
unfolding get_payload_length
extra_bytes-le input n ty = ground arith

-- What holds of an extent if there is one.
abbrev Fits : ℕ → Option Extent → Type 0
Fits n none = Unit
Fits n (some e) = (e.frame_length ≤ n) × EndsWithFrame e

abbrev FitsThere : ℕ → Parsed → Type 0
FitsThere n r = Fits n r.extent

parse_payload-Fits :
    (input : List ℕ) (n : ℕ) (p : PayloadField)
    → p.extra_bytes ≤ 8
    → 14 ≤ n
    → n < 2 ^ 64
    → Ensures (FitsThere n) (parse_payload input n p)
unfolding parse_payload
parse_payload-Fits input n p h k b = ground arith

parse_opcode-Fits :
    (input : List ℕ) (n : ℕ) (o : Option FrameType)
    → 14 ≤ n
    → n < 2 ^ 64
    → Ensures (FitsThere n) (parse_opcode input n o)
unfolding parse_opcode
parse_opcode-Fits input n none k b = tt
parse_opcode-Fits input n (some ty) k b =
    parse_payload-Fits input n (get_payload_length input n ty) (extra_bytes-le input n ty) k b

parse_input_frame-Fits :
    (input : List ℕ) (n : ℕ) (r : Parsed)
    → parse_input_frame input n ≡ returns r
    → 14 ≤ n
    → n < 2 ^ 64
    → Fits n r.extent
parse_input_frame-Fits input n r e k b =
    Ensures-returns (FitsThere n) (parse_input_frame input n) r
      (parse_input_frame-Ensures (FitsThere n) input n tt tt (λ o. parse_opcode-Fits input n o k b))
      e

-- From 14 bytes of input on, a frame that wsParseInputFrame reports lies within the input, and its
-- data ends with it.
pub extent_in_bounds :
    (input : List ℕ) (n : ℕ) (r : Parsed) (e : Extent)
    → parse_input_frame input n ≡ returns r
    → r.extent ≡ some e
    → 14 ≤ n
    → n < 2 ^ 64
    → (e.frame_length ≤ n) × EndsWithFrame e
extent_in_bounds input n r e parsed has k b =
    subst (Fits n) has (parse_input_frame-Fits input n r parsed k b)

-- Between 2 and 5 bytes of input, the length that is still to come is computed below zero: the
-- head of any masked frame of 1 to 125 bytes is reported as a whole frame, which ends past the
-- input, though not past the array.
pub extent_past_input :
    (input : List ℕ) (n op l : ℕ) (ty : FrameType)
    → 2 ≤ n
    → n < 6
    → op < 16
    → known_opcode op ≡ some ty
    → 0 < l
    → l ≤ 125
    → byte input 0 ≡ 128 + op
    → byte input 1 ≡ 128 + l
    → 6 + l ≤ length input
    → (r : Parsed) × (parse_input_frame input n ≡ returns r)
      × (r.frame_type ≡ ty)
      × (r.extent ≡ some (record { data_start = some 6; data_length = l; frame_length = 6 + l }))
extent_past_input input n op l ty k b ho known some_data short e0 e1 inside = (
  _,
  parse_input_frame_short input n op l ty ho known e0 e1 some_data short (inr b) k (omega arith)
      inside,
  refl,
  refl,
)

-- Whatever it reports, wsParseInputFrame keeps the array's size and every byte in front of the
-- data.
abbrev pub OutsideData : Option Extent → ℕ → Type 0
OutsideData none j = Unit
OutsideData (some e) j =
    (e.data_start ≡ none)
    ⊎ ((s : ℕ) × (e.data_start ≡ some s) × ((j < s) ⊎ (s + e.data_length ≤ j)))

-- What a parse leaves alone.
record Keeps (input : List ℕ) (j : ℕ) (r : Parsed) : Type 0 where
  size : length r.frame ≡ length input
  rest : OutsideData r.extent j → byte r.frame j ≡ byte input j

rejected-Keeps : (input : List ℕ) (j : ℕ) (ty : FrameType) → Keeps input j (rejected ty input)
rejected-Keeps input j ty = record { size = refl; rest = λ _. refl }

unmask-Keeps :
    (input : List ℕ) (extra n j : ℕ) (ty : FrameType) (total : ℕ)
    → Keeps input j (record {
      frame_type = ty;
      extent =
          some
            (record { data_start = some (2 + extra + 4); data_length = n; frame_length = total });
      frame = unmask (2 + extra) (2 + extra + 4) input 0 n;
    })
unmask-Keeps input extra n j ty total = record {
  size = length-unmask (2 + extra) (2 + extra + 4) input 0 n;
  rest = ground (arith, unmask_outside (2 + extra) (2 + extra + 4) input 0 n j);
}

parse_payload-Keeps :
    (input : List ℕ) (n : ℕ) (p : PayloadField) (j : ℕ)
    → Ensures (Keeps input j) (parse_payload input n p)
unfolding parse_payload
parse_payload-Keeps input n p j =
    let extra : ℕ = p.extra_bytes in
    let l : ℕ = p.payload_length in
    Ensures-if (Keeps input j) (ltb 0 l) _ _
      (λ _.
        Ensures-if (Keeps input j) (ltb (sub_size (sub_size n 6) extra) l) _ _
          (λ _. rejected-Keeps input j incomplete_frame)
          (λ _.
            Ensures-if (Keeps input j) (ltb (length input) (2 + extra + 4 + l)) _ _ (λ _. tt)
              (λ _. unmask-Keeps input extra l j p.frame_type _)))
      (λ _. record { size = refl; rest = λ _. refl })

parse_opcode-Keeps :
    (input : List ℕ) (n : ℕ) (o : Option FrameType) (j : ℕ)
    → Ensures (Keeps input j) (parse_opcode input n o)
unfolding parse_opcode
parse_opcode-Keeps input n none j = rejected-Keeps input j error_frame
parse_opcode-Keeps input n (some ty) j =
    parse_payload-Keeps input n (get_payload_length input n ty) j

-- Whatever it reports, wsParseInputFrame keeps the array's size and every byte that is not data:
-- all bytes if it reports no data.
pub parse_keeps_rest :
    (input : List ℕ) (n : ℕ) (r : Parsed) (j : ℕ)
    → parse_input_frame input n ≡ returns r
    → (length r.frame ≡ length input) × (OutsideData r.extent j → byte r.frame j ≡ byte input j)
parse_keeps_rest input n r j e =
    let known =
      Ensures-returns (Keeps input j) (parse_input_frame input n) r
        (parse_input_frame-Ensures (Keeps input j) input n (rejected-Keeps input j error_frame)
          (rejected-Keeps input j incomplete_frame) (λ o. parse_opcode-Keeps input n o j))
        e in
    (known.size, known.rest)

-- The refusals are all that comes without an extent.
abbrev pub IsRefusal : FrameType → Type 0
IsRefusal ty = (ty ≡ error_frame) ⊎ (ty ≡ incomplete_frame)

abbrev RefusalOrExtent : Parsed → Type 0
RefusalOrExtent r = r.extent ≡ none → IsRefusal r.frame_type

parse_opcode-RefusalOrExtent :
    (input : List ℕ) (n : ℕ) (o : Option FrameType)
    → Ensures RefusalOrExtent (parse_opcode input n o)
unfolding parse_opcode parse_payload
parse_opcode-RefusalOrExtent input n none = λ _. inl refl
parse_opcode-RefusalOrExtent input n (some ty) =
    let p : PayloadField = get_payload_length input n ty in
    Ensures-if RefusalOrExtent (ltb 0 p.payload_length) _ _
      (λ _.
        Ensures-if RefusalOrExtent (ltb (sub_size (sub_size n 6) p.extra_bytes) p.payload_length) _
          _ (λ _. (λ _. inr refl))
          (λ _.
            Ensures-if RefusalOrExtent
              (ltb (length input) (2 + p.extra_bytes + 4 + p.payload_length)) _ _ (λ _. tt)
              (λ _. (λ has. absurd (cc has)))))
      (λ _. (λ has. absurd (cc has)))

pub no_extent-IsRefusal :
    (input : List ℕ) (n : ℕ) (r : Parsed)
    → parse_input_frame input n ≡ returns r
    → r.extent ≡ none
    → IsRefusal r.frame_type
no_extent-IsRefusal input n r e h =
    Ensures-returns RefusalOrExtent (parse_input_frame input n) r
      (parse_input_frame-Ensures RefusalOrExtent input n (λ _. inl refl) (λ _. inr refl)
        (λ o. parse_opcode-RefusalOrExtent input n o))
      e h

-- From 14 bytes on, nothing wraps, and the data lies in the array.
parse_opcode-returns :
    (input : List ℕ) (n : ℕ)
    → 14 ≤ n
    → n ≤ length input
    → n < 2 ^ 64
    → (o : Option FrameType) → (r : Parsed) × (parse_opcode input n o ≡ returns r)
unfolding parse_opcode parse_payload
parse_opcode-returns input n enough inside b none = (_, refl)
parse_opcode-returns input n enough inside b (some ty) =
    parse_payload-returns (get_payload_length input n ty) (extra_bytes-le input n ty)
  where
    parse_payload-returns :
        (p : PayloadField)
        → p.extra_bytes ≤ 8
        → (r : Parsed) × (parse_payload input n p ≡ returns r)
    parse_payload-returns p h =
        ComesBack-if (ltb 0 p.payload_length) _ _
          (λ _.
            ComesBack-if (ltb (sub_size (sub_size n 6) p.extra_bytes) p.payload_length) _ _
              (λ _. (_, refl))
              (λ all.
                ComesBack-if (ltb (length input) (2 + p.extra_bytes + 4 + p.payload_length)) _ _
                  (λ out. absurd (ground arith)) (λ _. (_, refl))))
          (λ _. (_, refl))

pub parse_input_frame_enough :
    (input : List ℕ) (n : ℕ)
    → 14 ≤ n
    → n ≤ length input
    → n < 2 ^ 64
    → (r : Parsed) × (parse_input_frame input n ≡ returns r)
parse_input_frame_enough input n enough inside b =
    parse_input_frame-returns input n (omega arith) (parse_opcode-returns input n enough inside b)
