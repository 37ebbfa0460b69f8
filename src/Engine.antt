-- ===== src/Engine.antt =====
-- The single-writer engine of crates/engine/src/engine.rs: its state, and how it emits.
pub mod Ids
pub mod Clocks
pub mod Reports
pub mod Fills
pub mod Entry
pub mod Changes
pub mod Deltas
pub mod Step
pub mod Effects
pub mod Mirror
pub mod Registry
pub mod Rejecting
pub mod Soundness
pub mod Answers
pub mod MassAnswers
use hft_clob_core.Prelude.{ℕ, List, [], ◌∷◌, ◌++◌, none, some}
use hft_clob_core.Collections.HashMap
use hft_clob_core.Collections.HashMap.{HashMap}
use hft_clob_core.Domain.Side.{Side}
use hft_clob_core.Domain.Price.{Price}
use hft_clob_core.Domain.Qty.{Qty}
use hft_clob_core.Domain.OrderId.{OrderId}
use hft_clob_core.Domain.AccountId.{AccountId}
use hft_clob_core.Domain.Counter.{EngineSeq}
use hft_clob_core.Matching.Types.{Fill, StpCancellation, MassCancellation, IdGenerator}
use hft_clob_core.Matching.Book.{Book, empty_book}
use hft_clob_core.Matching.Walk.{Session}
use hft_clob_core.Risk.{RiskState, new_risk, on_order_removed}
use hft_clob_core.Wire.Outbound.{Outbound, RecvTs}

-- The trait of crates/domain/src/traits.rs. A reading may differ from the one before it, so that a
-- clock is a state that a reading moves on.
pub record Clock (C : Type 0) : Type 0 where
  pub now : C → RecvTs × C

pub record OrderRegistryEntry : Type 0 where
  pub account_id : AccountId
  pub side : Side
  pub qty : Qty
  pub notional : ℕ

-- The sink is the `VecSink` of crates/marketdata/src/sink.rs.
pub record Engine (L G C : Type 0) : Type 0 where
  pub book : Book L
  pub risk : RiskState
  pub clock : C
  pub ids : G
  pub sink : List Outbound
  pub registry : HashMap OrderRegistryEntry
  pub fills_buf : List Fill
  pub stp_buf : List StpCancellation
  pub mass_buf : List MassCancellation
  pub pre_step_levels : List (Side × Price × ℕ)
  pub post_step_levels : List (Side × Price × ℕ)

module _ {L G C : Type 0} where
  -- `Engine::new`
  unfoldable pub new : C → G → Engine L G C
  new clock ids = record {
    book = empty_book;
    risk = new_risk;
    clock = clock;
    ids = ids;
    sink = [];
    registry = HashMap.empty;
    fills_buf = [];
    stp_buf = [];
    mass_buf = [];
    pre_step_levels = [];
    post_step_levels = [];
  }

  -- What `match_aggressive` and `replace` borrow of the engine, and the engine they leave.
  unfoldable pub session_of : Engine L G C → Session L G
  session_of e = record { book = e.book; ids = e.ids; out_fills = e.fills_buf; out_stp = e.stp_buf }

  unfoldable pub with_session : Session L G → Engine L G C → Engine L G C
  with_session s e = record e {
    book = s.book;
    ids = s.ids;
    fills_buf = s.out_fills;
    stp_buf = s.out_stp;
  }

  unfoldable pub clear_buffers : Engine L G C → Engine L G C
  clear_buffers e = record e { fills_buf = []; stp_buf = [] }

  -- `if let Some(entry) = registry.remove(id) { risk.on_order_removed(..) }`
  unfoldable pub drop_entry : OrderId → Engine L G C → Engine L G C
  drop_entry i e = elim (e.registry i) [
    | none ↦ e
    | some entry ↦ record e {
      registry = HashMap.remove i e.registry;
      risk = on_order_removed entry.account_id entry.notional e.risk;
    }
  ]

module _ {L G C : Type 0} ⦃gen : IdGenerator G⦄ ⦃clk : Clock C⦄ where
  -- `sink.emit` of a message that is stamped with `next_seq` and then with the clock.
  unfoldable pub emit : (EngineSeq → RecvTs → Outbound) → Engine L G C → Engine L G C
  emit message e =
      let (seq, ids') = gen.next_engine_seq e.ids in
      let (emit_ts, clock') = clk.now e.clock in
      record e { ids = ids'; clock = clock'; sink = e.sink ++ message seq emit_ts ∷ [] }
