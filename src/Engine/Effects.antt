-- ===== src/Engine/Effects.antt =====
-- What a part of `Engine::step` does that every part must do: it numbers what it sends, and keeps
-- the invariants of the book and of the risk state.
pub mod Filling
pub mod Commands
pub mod Replacing
pub mod Steps
use hft_clob_core.Prelude.{
  ℕ, ◌+◌, ◌≤◌, ◌≡◌, refl, ◌∙◌, sym, subst, inl, inr, Bool, true, false, List, [], ◌∷◌, ◌++◌,
  append_assoc, append-nil, none, some, Option-cases, is_some, length, length-append, All,
  All-append, arith,
}
use hft_clob_core.Domain.Price.{Price}
use hft_clob_core.Domain.Qty.{Qty}
use hft_clob_core.Domain.OrderId.{OrderId}
use hft_clob_core.Domain.AccountId.{AccountId}
use hft_clob_core.Domain.Counter.{EngineSeq}
use hft_clob_core.Matching.Types.{AggressiveOrder, RestingOrder, IdGenerator}
use hft_clob_core.Matching.Level.{PriceLevel, IsPriceLevel}
use hft_clob_core.Matching.Book.{Book}
use hft_clob_core.Matching.Consistency.{IsBook}
use hft_clob_core.Matching.Walk.{Session}
use hft_clob_core.Risk.{RiskState, on_order_removed}
use hft_clob_core.Risk.Limits.{IsWithinCaps, on_order_removed-IsWithinCaps}
use hft_clob_core.Wire.Outbound.{
  Outbound, RecvTs, exec_report, trade_print, book_update_top, book_update_l2_delta,
  snapshot_response,
}
use hft_clob_core.Engine.{Engine, Clock, drop_entry, emit, session_of, with_session, clear_buffers}
use hft_clob_core.Engine.Ids.{IsSequential}

unfoldable pub engine_seq_of : Outbound → EngineSeq
engine_seq_of (exec_report m) = m.engine_seq
engine_seq_of (trade_print m) = m.engine_seq
engine_seq_of (book_update_top m) = m.engine_seq
engine_seq_of (book_update_l2_delta m) = m.engine_seq
engine_seq_of (snapshot_response m) = m.engine_seq

abbrev pub is_delta : Outbound → Bool
is_delta (exec_report m) = false
is_delta (trade_print m) = false
is_delta (book_update_top m) = false
is_delta (book_update_l2_delta m) = true
is_delta (snapshot_response m) = false

-- No level delta.
abbrev pub IsPlain : Outbound → Type 0
IsPlain m = is_delta m ≡ false

abbrev pub Anything : Outbound → Type 0
Anything m = Unit {0}

-- The messages bear consecutive numbers from the given one on.
abbrev pub IsNumbered : ℕ → List Outbound → Type 0
IsNumbered n [] = Unit {0}
IsNumbered n (m ∷ ms) = (engine_seq_of m ≡ n) × IsNumbered (n + 1) ms

IsNumbered-append :
    (n k : ℕ) (xs ys : List Outbound)
    → k ≡ n + length xs
    → IsNumbered n xs
    → IsNumbered k ys
    → IsNumbered n (xs ++ ys)
IsNumbered-append n k [] ys e hx hy = subst (λ j. IsNumbered j ys) (omega arith) hy
IsNumbered-append n k (x ∷ xs) ys e hx hy =
    (hx.0, IsNumbered-append (n + 1) k xs ys (omega arith) hx.1 hy)

module _ {L G C : Type 0} ⦃pl : PriceLevel L⦄ ⦃law : IsPriceLevel pl⦄ ⦃gen : IdGenerator G⦄
    ⦃clk : Clock C⦄ (seq : IsSequential gen) where
  -- From `e` to `e'` allowed messages are sent, under the next numbers, and the invariants are kept.
  -- A part that stands within a handler leaves the captured levels alone.
  pub record IsEffect (Within : Type 0) (Allowed : Outbound → Type 0) (e e' : Engine L G C)
      : Type 0 where
    pub messages : List Outbound
    pub sent : e'.sink ≡ e.sink ++ messages
    pub numbered : IsNumbered (seq.upcoming e.ids) messages
    pub allowed : All Allowed messages
    pub upcoming : seq.upcoming e'.ids ≡ seq.upcoming e.ids + length messages
    pub book : IsBook e.book → IsBook e'.book
    pub caps : IsWithinCaps e.risk → IsWithinCaps e'.risk
    pub captured : Within → e'.pre_step_levels ≡ e.pre_step_levels

  module _ {Within : Type 0} {Allowed : Outbound → Type 0} where
    -- A part that sends nothing.
    pub silent :
        (e e' : Engine L G C)
        → e'.sink ≡ e.sink
        → seq.upcoming e'.ids ≡ seq.upcoming e.ids
        → (Within → e'.pre_step_levels ≡ e.pre_step_levels)
        → (IsBook e.book → IsBook e'.book)
        → (IsWithinCaps e.risk → IsWithinCaps e'.risk)
        → IsEffect Within Allowed e e'
    silent e e' sink ids captured book caps = record {
      messages = [];
      sent = sink ∙ sym (append-nil e.sink);
      numbered = tt;
      allowed = tt;
      upcoming = omega (arith, ids);
      book = book;
      caps = caps;
      captured = captured;
    }

    pub IsEffect-refl : (e : Engine L G C) → IsEffect Within Allowed e e
    IsEffect-refl e = silent e e refl refl (λ w. refl) (λ h. h) (λ h. h)

    pub IsEffect-trans :
        {a b c : Engine L G C}
        → IsEffect Within Allowed a b
        → IsEffect Within Allowed b c
        → IsEffect Within Allowed a c
    IsEffect-trans {a} {b} {c} h k = record {
      messages = h.messages ++ k.messages;
      sent = rw (k.sent, h.sent) (append_assoc a.sink h.messages k.messages);
      numbered =
          IsNumbered-append (seq.upcoming a.ids) (seq.upcoming b.ids) h.messages k.messages
            h.upcoming h.numbered k.numbered;
      allowed = All-append Allowed h.messages k.messages h.allowed k.allowed;
      upcoming = omega (arith, h.upcoming, k.upcoming, length-append h.messages k.messages);
      book = λ v. k.book (h.book v);
      caps = λ v. k.caps (h.caps v);
      captured = λ w. k.captured w ∙ h.captured w;
    }

    pub emit-IsEffect :
        (message : EngineSeq → RecvTs → Outbound) (e : Engine L G C)
        → ((n : EngineSeq) (t : RecvTs) → engine_seq_of (message n t) ≡ n)
        → ((n : EngineSeq) (t : RecvTs) → Allowed (message n t))
        → IsEffect Within Allowed e (emit message e)
    unfolding emit
    emit-IsEffect message e stamped allowed = record {
      messages = _;
      sent = refl;
      numbered = (stamped _ _ ∙ seq.issues e.ids, tt);
      allowed = (allowed _ _, tt);
      upcoming = seq.advances e.ids;
      book = λ v. v;
      caps = λ v. v;
      captured = λ w. refl;
    }

    pub drop_entry-IsEffect :
        (i : OrderId) (e : Engine L G C) → IsEffect Within Allowed e (drop_entry i e)
    unfolding drop_entry
    drop_entry-IsEffect i e = elim (Option-cases (e.registry i)) [
      | inl h ↦ rw (h, drop_entry) (IsEffect-refl e)
      | inr (x, h) ↦
          rw (h, drop_entry)
            (silent e _ refl refl (λ w. refl) (λ v. v)
              (on_order_removed-IsWithinCaps x.account_id x.notional e.risk))
    ]

    -- A change of the book that keeps its invariant.
    pub book-IsEffect :
        (e : Engine L G C) (b : Book L)
        → (IsBook e.book → IsBook b)
        → IsEffect Within Allowed e (record e { book = b })
    book-IsEffect e b h = silent e (record e { book = b }) refl refl (λ w. refl) h (λ v. v)

    pub risk-IsEffect :
        (e : Engine L G C) (r : RiskState)
        → (IsWithinCaps e.risk → IsWithinCaps r)
        → IsEffect Within Allowed e (record e { risk = r })
    risk-IsEffect e r h = silent e (record e { risk = r }) refl refl (λ w. refl) (λ v. v) h

    -- What the book's session does, if it keeps its invariant and issues no number.
    pub with_session-IsEffect :
        (e : Engine L G C) (s : Session L G)
        → seq.upcoming s.ids ≡ seq.upcoming e.ids
        → (IsBook e.book → IsBook s.book)
        → IsEffect Within Allowed e (with_session s e)
    unfolding with_session
    with_session-IsEffect e s ids book = silent e _ refl ids (λ w. refl) book (λ v. v)

    pub clear_buffers-IsEffect : (e : Engine L G C) → IsEffect Within Allowed e (clear_buffers e)
    unfolding clear_buffers
    clear_buffers-IsEffect e = silent e _ refl refl (λ w. refl) (λ v. v) (λ v. v)
