-- ===== src/Wire/Framing/RoundTrip.antt =====
-- What is written as a frame is read back.
use hft_clob_core.Prelude.{
  ℕ, suc, true, false, ◌<◌, ◌+◌, ◌/◌, ◌%◌, ◌≤◌, ◌≡◌, refl, ◌∙◌, ap, ok, err, List, ◌∷◌, ◌++◌, leb,
  ◌==◌, arith, length, drop, length-append, some, take-append_exact, drop-append_exact,
  append_assoc,
}
use hft_clob_core.Wire.Error.{unknown_kind}
use hft_clob_core.Wire.Framing.{
  MessageKind, as_u8, try_from, frame, unrecognised, new_order, cancel_order, cancel_replace,
  mass_cancel, kill_switch_set, snapshot_request, exec_report, trade_print, book_update_top,
  book_update_l2_delta, snapshot_response, to_le_bytes, from_le_bytes, get_prefix, declared_len,
  outcome, parse_or_skip, strict, parse, write,
}

try_from-as_u8 : (k : MessageKind) → try_from (as_u8 k) ≡ ok k
unfolding try_from as_u8
try_from-as_u8 = elim [
  | new_order ↦ refl
  | cancel_order ↦ refl
  | cancel_replace ↦ refl
  | mass_cancel ↦ refl
  | kill_switch_set ↦ refl
  | snapshot_request ↦ refl
  | exec_report ↦ refl
  | trade_print ↦ refl
  | book_update_top ↦ refl
  | book_update_l2_delta ↦ refl
  | snapshot_response ↦ refl
]

le_bytes_lem :
    (n : ℕ)
    → n ≤ 0xffff_ffff
    → from_le_bytes (n % 256) (n / 256 % 256) (n / 65536 % 256) (n / 16777216 % 256) ≡ n
unfolding from_le_bytes
le_bytes_lem n h = omega arith

try_from_unknown :
    (k : ℕ) → ((kind : MessageKind) → (as_u8 kind == k) ≡ false) → try_from k ≡ err (unknown_kind k)
unfolding try_from as_u8
try_from_unknown k new = ground (
  arith,
  new new_order,
  new cancel_order,
  new cancel_replace,
  new mass_cancel,
  new kill_switch_set,
  new snapshot_request,
  new exec_report,
  new trade_print,
  new book_update_top,
  new book_update_l2_delta,
  new snapshot_response,
)

-- The bytes of one frame.
abbrev pub frame_bytes : MessageKind → List ℕ → List ℕ
frame_bytes kind payload = to_le_bytes (1 + length payload) ++ as_u8 kind ∷ payload

get_prefix-frame :
    (a b c d k : ℕ) (payload rest : List ℕ)
    → get_prefix (4 + (1 + length payload)) (a ∷ b ∷ c ∷ d ∷ k ∷ payload ++ rest)
      ≡ some (a ∷ b ∷ c ∷ d ∷ k ∷ payload)
get_prefix-frame a b c d k payload rest =
    let total : 4 + (1 + length payload) ≡ suc (suc (suc (suc (suc (length payload))))) =
      omega arith in
    let enough : leb (4 + (1 + length payload)) (length (a ∷ b ∷ c ∷ d ∷ k ∷ payload ++ rest))
        ≡ true =
      ground (arith, length-append payload rest) in
    rw enough (rw (total, take-append_exact (length payload) payload rest refl) refl)

-- Any bytes that declare the length of a payload are read as that payload.
parse_or_skip-declared :
    (a b c d k : ℕ) (payload rest : List ℕ)
    → from_le_bytes a b c d ≡ 1 + length payload
    → parse_or_skip (a ∷ b ∷ c ∷ d ∷ k ∷ payload ++ rest)
      ≡ ok (outcome k payload, 4 + (1 + length payload))
unfolding parse_or_skip declared_len
parse_or_skip-declared a b c d k payload rest e =
    let positive : leb 1 (1 + length payload) ≡ true = ground arith in
    rw (e, parse_or_skip) (rw positive (rw (get_prefix-frame a b c d k payload rest) refl))

write_fits :
    (kind : MessageKind) (payload out : List ℕ)
    → leb (1 + length payload) 0xffff_ffff ≡ true
    → write kind payload out ≡ ok (out ++ frame_bytes kind payload)
unfolding write
write_fits kind payload out h =
    rw h (ap ok (append_assoc out (to_le_bytes (1 + length payload)) (as_u8 kind ∷ payload)))

outcome_known :
    (kind : MessageKind) (payload : List ℕ)
    → outcome (as_u8 kind) payload ≡ frame (record { kind = kind; payload = payload })
unfolding outcome
outcome_known kind payload = rw (try_from-as_u8 kind, outcome) refl

outcome_unknown :
    (k : ℕ) (payload : List ℕ)
    → ((kind : MessageKind) → (as_u8 kind == k) ≡ false)
    → outcome k payload ≡ unrecognised k
unfolding outcome
outcome_unknown k payload new = rw (try_from_unknown k new, outcome) refl

-- A payload whose length fits the prefix is written as a frame behind what is already in the
-- buffer, and whatever follows it, both parsers read the frame back and count its bytes, so that
-- dropping them leaves what follows.
pub parse-write :
    (kind : MessageKind) (payload out rest : List ℕ)
    → length payload < 0xffff_ffff
    → let whole = frame_bytes kind payload in
      (write kind payload out ≡ ok (out ++ whole))
      × (parse (whole ++ rest)
          ≡ ok (record { kind = kind; payload = payload }, 4 + (1 + length payload)))
      × (drop (4 + (1 + length payload)) (whole ++ rest) ≡ rest)
unfolding parse strict to_le_bytes
parse-write kind payload out rest h =
    let fits : leb (1 + length payload) 0xffff_ffff ≡ true = ground arith in
    let total : 4 + (1 + length payload) ≡ suc (suc (suc (suc (suc (length payload))))) =
      omega arith in
    (
      write_fits kind payload out fits,
      rw
          (
            parse_or_skip-declared _ _ _ _ (as_u8 kind) payload rest
                (le_bytes_lem (1 + length payload) (omega arith)),
            outcome_known kind payload,
          )
          refl,
      rw (total, drop-append_exact (length payload) payload rest refl) refl,
    )

-- A frame of an unknown kind is passed over: its bytes are counted as those of any other frame.
pub parse_or_skip_unknown :
    (k : ℕ) (payload rest : List ℕ)
    → length payload < 0xffff_ffff
    → ((kind : MessageKind) → (as_u8 kind == k) ≡ false)
    → parse_or_skip (to_le_bytes (1 + length payload) ++ k ∷ payload ++ rest)
      ≡ ok (unrecognised k, 4 + (1 + length payload))
unfolding to_le_bytes
parse_or_skip_unknown k payload rest h new =
    parse_or_skip-declared _ _ _ _ k payload rest (le_bytes_lem (1 + length payload) (omega arith))
    ∙ rw (outcome_unknown k payload new) refl
