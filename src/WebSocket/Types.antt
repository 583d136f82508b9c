-- ===== src/WebSocket/Types.antt =====
-- cwebsocket/websocket.h: the frame types and their codes, and what an `assert` makes of a call.
use extension_project.Prelude.{none, some, some, ltb, if◌then◌else◌, Option, ℕ, Bool, true, false}

-- `enum wsFrameType`
pub data FrameType : Type 0 where
  empty_frame error_frame incomplete_frame text_frame binary_frame : FrameType
  ping_frame pong_frame opening_frame closing_frame : FrameType

-- The enumerator's number.
unfoldable pub type_code : FrameType → ℕ
type_code empty_frame = 0xF0
type_code error_frame = 0xF1
type_code incomplete_frame = 0xF2
type_code text_frame = 0x01
type_code binary_frame = 0x02
type_code ping_frame = 0x09
type_code pong_frame = 0x0A
type_code opening_frame = 0xF3
type_code closing_frame = 0x08

-- What becomes of a call: it comes back, the process ends at an `assert`, a write goes past the
-- end of a block of memory or an address is no address, or a loop goes round without an end.
pub data Run {ℓ} (A : Type ℓ) : Type ℓ where
  returns : A → Run A
  aborts corrupts hangs : Run A

infixl 5 ◌>>=◌ ◌>>◌
abbrev pub ◌>>=◌ {ℓ κ} : {A : Type ℓ} {B : Type κ} → Run A → (A → Run B) → Run B
returns a >>= f = f a
aborts >>= f = aborts
corrupts >>= f = corrupts
hangs >>= f = hangs

abbrev pub ◌>>◌ {ℓ} : {B : Type ℓ} → Run (Unit {0}) → Run B → Run B
m >> k = m >>= λ _. k

-- `assert(condition)`
abbrev pub assert : Bool → Run (Unit {0})
assert true = returns tt
assert false = aborts

-- A write of `n` bytes into a block of `room` bytes.
abbrev pub write_into : ℕ → ℕ → Run (Unit {0})
write_into room n = if ltb room n then corrupts else returns tt

-- The address that a search gave back, which the code uses untested.
abbrev pub found {ℓ} : {A : Type ℓ} → Option A → Run A
found none = corrupts
found (some a) = returns a
