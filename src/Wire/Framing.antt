-- ===== src/Wire/Framing.antt =====
-- crates/wire/src/framing.rs: length-prefixed frames. A byte is a number below 256.
pub mod RoundTrip
use hft_clob_core.Prelude.{
  ℕ, ◌+◌, ◌*◌, ◌/◌, ◌%◌, Result, ok, err, ◌>>=◌, ◌>>◌, guard, ok_or, Option, none, some, List, [],
  ◌∷◌, ◌++◌, leb, ltb, ◌==◌, if◌then◌else◌, length, take, drop,
}
use hft_clob_core.Domain.Consts.{u32_max}
use hft_clob_core.Wire.Error.{WireError, truncated, unknown_kind, payload_too_large}

pub data MessageKind : Type 0 where
  new_order cancel_order cancel_replace mass_cancel kill_switch_set : MessageKind
  snapshot_request exec_report trade_print book_update_top : MessageKind
  book_update_l2_delta snapshot_response : MessageKind

unfoldable pub as_u8 : MessageKind → ℕ
as_u8 new_order = 0x01
as_u8 cancel_order = 0x02
as_u8 cancel_replace = 0x03
as_u8 mass_cancel = 0x04
as_u8 kill_switch_set = 0x05
as_u8 snapshot_request = 0x06
as_u8 exec_report = 0x65
as_u8 trade_print = 0x66
as_u8 book_update_top = 0x67
as_u8 book_update_l2_delta = 0x68
as_u8 snapshot_response = 0x69

unfoldable pub try_from : ℕ → Result WireError MessageKind
try_from v =
    if v == 0x01
    then ok new_order
    else if v == 0x02
    then ok cancel_order
    else if v == 0x03
    then ok cancel_replace
    else if v == 0x04
    then ok mass_cancel
    else if v == 0x05
    then ok kill_switch_set
    else if v == 0x06
    then ok snapshot_request
    else if v == 0x65
    then ok exec_report
    else if v == 0x66
    then ok trade_print
    else if v == 0x67
    then ok book_update_top
    else if v == 0x68
    then ok book_update_l2_delta
    else if v == 0x69
    then ok snapshot_response
    else err (unknown_kind v)

pub record Frame : Type 0 where
  pub kind : MessageKind
  pub payload : List ℕ

pub data ParseOutcome : Type 0 where
  frame : Frame → ParseOutcome
  unrecognised : ℕ → ParseOutcome

-- `u32::to_le_bytes` and `u32::from_le_bytes`
unfoldable pub to_le_bytes : ℕ → List ℕ
to_le_bytes n = n % 256 ∷ n / 256 % 256 ∷ n / 65536 % 256 ∷ n / 16777216 % 256 ∷ []

unfoldable pub from_le_bytes : ℕ → ℕ → ℕ → ℕ → ℕ
from_le_bytes a b c d = a + 256 * b + 65536 * c + 16777216 * d

-- `buf.get(..n)`
abbrev pub get_prefix : ℕ → List ℕ → Option (List ℕ)
get_prefix n buf = if leb n (length buf) then some (take n buf) else none

-- `*bytes.get(n)`
abbrev pub byte_at : ℕ → List ℕ → Option ℕ
byte_at n buf = elim (drop n buf) [ [] ↦ none | b ∷ bs ↦ some b ]

-- The length that the first four bytes declare.
unfoldable pub declared_len : List ℕ → Option ℕ
unfolding from_le_bytes
declared_len [] = none
declared_len (a ∷ []) = none
declared_len (a ∷ b ∷ []) = none
declared_len (a ∷ b ∷ c ∷ []) = none
declared_len (a ∷ b ∷ c ∷ d ∷ rest) = some (from_le_bytes a b c d)

unfoldable pub outcome : ℕ → List ℕ → ParseOutcome
outcome kind_byte payload = elim (try_from kind_byte) [
  | ok kind ↦ frame (record { kind = kind; payload = payload })
  | err e ↦ unrecognised kind_byte
]

unfoldable pub parse_or_skip : List ℕ → Result WireError (ParseOutcome × ℕ)
parse_or_skip buf = ok_or (declared_len buf) truncated >>= λ len.
    guard (leb 1 len) truncated
    >> (ok_or (get_prefix (4 + len) buf) truncated >>= λ frame_bytes.
        ok_or (byte_at 4 frame_bytes) truncated >>= λ kind_byte.
        ok (outcome kind_byte (drop 5 frame_bytes), 4 + len))

unfoldable pub strict : ParseOutcome × ℕ → Result WireError (Frame × ℕ)
strict (frame f, total) = ok (f, total)
strict (unrecognised b, total) = err (unknown_kind b)

unfoldable pub parse : List ℕ → Result WireError (Frame × ℕ)
parse buf = parse_or_skip buf >>= strict

-- The bytes that are appended to `out`; the length of a payload fits a usize.
unfoldable pub write : MessageKind → List ℕ → List ℕ → Result WireError (List ℕ)
unfolding to_le_bytes
write kind payload out =
    let framed = 1 + length payload in
    if leb framed u32_max
    then ok (out ++ to_le_bytes framed ++ as_u8 kind ∷ payload)
    else err (payload_too_large framed)
